-- ===== src/Ws/Hub/Unordered.antt =====
-- Go leaves the order in which OnBroadcast of internal/transport/ws/hub.go goes through a room
-- open. A room up to order is a quotient of lists, and a broadcast is a function of that.
use mathlib.Core.List.{Permᴰ}
use mathlib.Core.Path.{fun_ext}
use mathlib.Core.Quot
use mathlib.Core.Quot.{Quot}
use microservice_game_servic.Base.{
  ℕ, zero, suc, ◌≡◌, refl, sym, ap, ◌∙◌, false, List, [], ◌∷◌, Bytes, set, nat_beq, nat_beq_iff,
  Bool-cases, inl, inr, Outcome, done, panic, ◌>>=◌, arith,
}
use microservice_game_servic.Base.Orders.{select-Permᴰ}
use microservice_game_servic.Base.Int.{ℤ, int_comparable}
use microservice_game_servic.Ws.Conn.{Conn, conn_at, write_conn, send, send_all}
use microservice_game_servic.Ws.Hub.{Hub, receivers, on_broadcast}
use microservice_game_servic.Ws.Hub.Rooms.{room}
use microservice_game_servic.Ws.Conn.Sends.{send_lem, conn_at-write_there}

set_comm {ℓ} :
    {A : Type ℓ} (xs : List A) (i j : ℕ) (v w : A)
    → nat_beq i j ≡ false
    → set (set xs i v) j w ≡ set (set xs j w) i v
set_comm [] i j v w ne = refl
set_comm (x ∷ xs) zero zero v w ne = cc
set_comm (x ∷ xs) zero (suc j) v w ne = refl
set_comm (x ∷ xs) (suc i) zero v w ne = refl
set_comm (x ∷ xs) (suc i) (suc j) v w ne = ap (◌∷◌ x) (set_comm xs i j v w (ground (arith, ne)))

write_conn_comm :
    (xs : List Conn) (i j : ℕ) (c d : Conn)
    → nat_beq i j ≡ false
    → write_conn j d (write_conn i c xs) ≡ write_conn i c (write_conn j d xs)
unfolding write_conn
write_conn_comm xs i j c d ne = set_comm xs i j c d ne

-- Two sends may change places: a panic is the same from either of them.
sends_comm {ℓ} :
    {A : Type ℓ} (message : Bytes) (a b : Conn) (f : Conn → Conn → Outcome A)
    → (send message a >>= λ c. send message b >>= λ d. f c d)
      ≡ (send message b >>= λ d. send message a >>= λ c. f c d)
sends_comm message a b f = elim (Bool-cases a.closed) [
  | inl shut_a ↦ elim (Bool-cases b.closed) [
    | inl shut_b ↦ rw (send_lem message a, send_lem message b, shut_a, shut_b)
    | inr open_b ↦ rw (send_lem message a, send_lem message b, shut_a, open_b)
  ]
  | inr open_a ↦ elim (Bool-cases b.closed) [
    | inl shut_b ↦ rw (send_lem message a, send_lem message b, open_a, shut_b)
    | inr open_b ↦ rw (send_lem message a, send_lem message b, open_a, open_b)
  ]
]

send_all_swap :
    (message : Bytes) (a b : ℕ) (rs : List ℕ) (conns : List Conn)
    → nat_beq a b ≡ false
    → send_all message (a ∷ b ∷ rs) conns ≡ send_all message (b ∷ a ∷ rs) conns
unfolding send_all
send_all_swap message a b rs conns ne =
    ap (λ (k : Conn → Outcome (List Conn)). send message (conn_at a conns) >>= k)
      (fun_ext λ c. rw (conn_at-write_there conns a b c ne))
    ∙ sends_comm message (conn_at a conns) (conn_at b conns)
        (λ c d. send_all message rs (write_conn b d (write_conn a c conns)))
    ∙ ap (λ (k : Conn → Outcome (List Conn)). send message (conn_at b conns) >>= k)
        (fun_ext λ d. rw (
          conn_at-write_there conns b a d (ground (arith, ne)),
          fun_ext (λ c. ap (send_all message rs) (write_conn_comm conns a b c d ne)),
        ))

-- The order of the connections does not matter to the loop of OnBroadcast, panics included.
send_all-Permᴰ :
    {rs ss : List ℕ} (message : Bytes)
    → Permᴰ rs ss
    → (conns : List Conn) → send_all message rs conns ≡ send_all message ss conns
unfolding send_all
send_all-Permᴰ message Permᴰ.nil conns = refl
send_all-Permᴰ message (Permᴰ.cons {a} {b} {l₁} {l₂} e p) conns = rw e (
    ap (λ (k : Conn → Outcome (List Conn)). send message (conn_at b conns) >>= k)
      (fun_ext λ c. send_all-Permᴰ message p (write_conn b c conns)))
send_all-Permᴰ message (Permᴰ.swap {a} {b} {a'} {b'} {l} e f) conns =
    rw (e, f)
      (elim (Bool-cases (nat_beq b' a')) [
        | inl same ↦ rw ((nat_beq_iff b' a').0 same)
        | inr different ↦ send_all_swap message b' a' l conns different
      ])
send_all-Permᴰ message (Permᴰ.trans p q) conns =
    send_all-Permᴰ message p conns ∙ send_all-Permᴰ message q conns

-- A room up to order, and what Go makes of a broadcast to it.
abbrev pub Crowd : Type 0
Crowd = Quot (Permᴰ {A = ℕ})

Conn-IsSet : IsSet Conn
Conn-IsSet = hlevel

outcomes-IsSet : IsSet (Outcome (List Conn))
outcomes-IsSet = hlevel

pub broadcast : Bytes → List Conn → Crowd → Outcome (List Conn)
broadcast message conns =
    Quot.lift outcomes-IsSet (λ (rs : List ℕ). send_all message rs conns)
      (λ (rs ss : List ℕ) (p : Permᴰ rs ss). send_all-Permᴰ message p conns)

-- What a hub's room is when its order is forgotten.
abbrev pub crowd : Bytes → ℤ → Hub → Crowd
crowd k u h = Quot.mk (receivers k u h)

crowd-same :
    (k : Bytes) (u : ℤ) (h h' : Hub)
    → h'.conns ≡ h.conns
    → Permᴰ (room k h) (room k h')
    → crowd k u h ≡ crowd k u h'
unfolding receivers
crowd-same k u h h' same p = rw same (Quot.sound (select-Permᴰ _ p))

-- OnBroadcast depends on a room only up to order: it is the broadcast to the crowd of its
-- receivers, and two hubs with the same connections and with the same room, in any order, come to
-- the same connections or to the same panic.
pub on_broadcast_unordered :
    (k message : Bytes) (u : ℤ) (h h' : Hub)
    → h'.conns ≡ h.conns
    → Permᴰ (room k h) (room k h')
    → ((on_broadcast k message u h >>= λ g. done g.conns) ≡ broadcast message h.conns (crowd k u h))
      × ((on_broadcast k message u h >>= λ g. done g.conns)
          ≡ (on_broadcast k message u h' >>= λ g. done g.conns))
unfolding on_broadcast broadcast
on_broadcast_unordered k message u h h' same p =
    let own : (g : Hub)
        → (on_broadcast k message u g >>= λ g'. done g'.conns)
          ≡ broadcast message g.conns (crowd k u g) =
      λ g. returned (send_all message (receivers k u g) g.conns) g in
    (
      own h,
      own h
          ∙ ap (broadcast message h.conns) (crowd-same k u h h' same p)
          ∙ ap (λ conns. broadcast message conns (crowd k u h')) (sym same)
          ∙ sym (own h'),
    )
  where
    returned :
        (o : Outcome (List Conn)) (g : Hub)
        → ((o >>= λ conns. done (record g { conns = conns })) >>= λ g'. done g'.conns) ≡ o
    returned (done conns) g = refl
    returned (panic e) g = refl
