-- ===== src/Ws/Hub/Broadcasts.antt =====
-- Broadcasts to a room, and the queue of jobs for the other instances.
use mathlib.Core.Path.{fun_ext}
use microservice_game_servic.Base.{
  ℕ, ◌<◌, ◌≤◌, ◌≡◌, refl, ap, ◌∙◌, Bool, true, false, not, ◌&&◌, List, [], ◌∷◌, Bytes, length,
  length-append, ◌==◌, select, nat_comparable, bytes_comparable, if◌then◌else◌, nat_beq,
  nat_beq_iff, Bool-cases, inl, inr, arith, done, panic, send_on_closed, ◌>>=◌,
}
use microservice_game_servic.Base.Int.{ℤ, int_comparable}
use microservice_game_servic.Ws.Conn.{Conn, conn_at, send_all, send_capacity}
use microservice_game_servic.Ws.Conn.Sends.{
  elem, Unrepeated, AllBelow, AllOpen, sent, send_all_lem, send_all_twice,
}
use microservice_game_servic.Ws.Hub.{
  Hub, PublishJob, publish_ch_buf_size, enqueue, receivers, on_broadcast,
}
use microservice_game_servic.Ws.Hub.Rooms.{room, in_room}
use microservice_game_servic.Ws.Hub.Consistent.{Consistent}

pub elem-select :
    (test : ℕ → Bool) (q : ℕ) (xs : List ℕ) → elem q (select test xs) ≡ (elem q xs && test q)
elem-select test q [] = refl
elem-select test q (x ∷ xs) = elim (Bool-cases (nat_beq x q)) [
  | inl same ↦ ground (arith, elem-select test q xs, ap test ((nat_beq_iff x q).0 same))
  | inr other ↦ ground (arith, elem-select test q xs)
]

select-Unrepeated : (test : ℕ → Bool) (xs : List ℕ) → Unrepeated xs → Unrepeated (select test xs)
select-Unrepeated test [] u = tt
select-Unrepeated test (x ∷ xs) u =
    ground (arith, elem-select test x xs, select-Unrepeated test xs u.1)

AllBelow-elem : (n : ℕ) (xs : List ℕ) → ((q : ℕ) → elem q xs ≡ true → q < n) → AllBelow n xs
AllBelow-elem n [] f = tt
AllBelow-elem n (x ∷ xs) f = (f x (ground arith), AllBelow-elem n xs (λ q e. f q (ground arith)))

-- Does a broadcast to map `k` that leaves out user `u` go to connection `q`?
abbrev pub receives : Bytes → ℤ → ℕ → Hub → Bool
receives k u q h = in_room k q h && not ((conn_at q h.conns).user_id == u)

pub elem-receivers :
    (k : Bytes) (u : ℤ) (h : Hub) (q : ℕ) → elem q (receivers k u h) ≡ receives k u q h
unfolding receivers
elem-receivers k u h q = elem-select _ q (room k h)

pub receivers-Unrepeated :
    (k : Bytes) (u : ℤ) (h : Hub) → Consistent h → Unrepeated (receivers k u h)
unfolding receivers
receivers-Unrepeated k u h c = select-Unrepeated _ (room k h) (c.once k)

pub receivers-AllBelow :
    (k : Bytes) (u : ℤ) (h : Hub) → Consistent h → AllBelow (length h.conns) (receivers k u h)
receivers-AllBelow k u h c =
    AllBelow-elem _ _ (λ q e. c.known k q (ground (arith, elem-receivers k u h q)))

-- In a consistent hub a broadcast to a room whose receivers are open returns. It sends the
-- message once to each connection of the room but those of the user left out, and changes
-- nothing else of the hub.
pub on_broadcast_lem :
    (k message : Bytes) (u : ℤ) (h : Hub)
    → Consistent h
    → AllOpen h.conns (receivers k u h)
    → (conns : List Conn) × (on_broadcast k message u h ≡ done (record h { conns = conns }))
      × ((q : ℕ)
          → conn_at q conns
            ≡ (if receives k u q h then sent message (conn_at q h.conns) else conn_at q h.conns))
unfolding on_broadcast
on_broadcast_lem k message u h c o =
    let (out, e, f) =
      send_all_lem message (receivers k u h) h.conns (receivers-Unrepeated k u h c)
        (receivers-AllBelow k u h c) o in
    (
      out,
      rw e,
      λ q.
          f q
          ∙ ap (λ (b : Bool). if b then sent message (conn_at q h.conns) else conn_at q h.conns)
              (elem-receivers k u h q),
    )

user_id-sent : (message : Bytes) (c : Conn) → (sent message c).user_id ≡ c.user_id
unfolding sent
user_id-sent message c = ground arith

same_receivers :
    (k message : Bytes) (u : ℤ) (h : Hub) (rs : List ℕ) (conns : List Conn)
    → ((q : ℕ)
        → conn_at q conns
          ≡ (if elem q rs then sent message (conn_at q h.conns) else conn_at q h.conns))
    → receivers k u (record h { conns = conns }) ≡ receivers k u h
unfolding receivers
same_receivers k message u h rs conns f =
    ap (λ (user : ℕ → ℤ). select (λ q. not (user q == u)) (room k h))
      (fun_ext λ q. ap (λ c. c.user_id) (f q) ∙ kept q (elem q rs))
  where
    kept :
        (q : ℕ) (b : Bool)
        → (if b then sent message (conn_at q h.conns) else conn_at q h.conns).user_id
          ≡ (conn_at q h.conns).user_id
    kept q true = user_id-sent message (conn_at q h.conns)
    kept q false = refl

-- In a consistent hub, where the receivers of a room are open but one of them has a full queue,
-- the second of two broadcasts to the room in a row panics: the first one closes that connection
-- and leaves it in the room, and the second one sends on a closed channel.
pub on_broadcast_twice :
    (k message later : Bytes) (u : ℤ) (h : Hub) (r : ℕ)
    → Consistent h
    → AllOpen h.conns (receivers k u h)
    → receives k u r h ≡ true
    → send_capacity ≤ length (conn_at r h.conns).queue
    → (on_broadcast k message u h >>= on_broadcast k later u) ≡ panic send_on_closed
unfolding on_broadcast
on_broadcast_twice k message later u h r c o e full =
    let rs = receivers k u h in
    let (out, once, f) =
      send_all_lem message rs h.conns (receivers-Unrepeated k u h c) (receivers-AllBelow k u h c)
        o in
    let broken : (send_all message rs h.conns >>= send_all later rs) ≡ panic send_on_closed =
      send_all_twice message later rs h.conns r (receivers-Unrepeated k u h c)
        (receivers-AllBelow k u h c) o (elem-receivers k u h r ∙ e) full in
    let second : send_all later rs out ≡ panic send_on_closed = rw once at broken in
    rw (once, same_receivers k message u h rs out f, second)

-- The queue of jobs never grows past its capacity.
pub enqueue_bounded :
    (job : PublishJob) (h h' : Hub)
    → length h.publish_ch ≤ publish_ch_buf_size
    → enqueue job h ≡ done h'
    → length h'.publish_ch ≤ publish_ch_buf_size
unfolding enqueue
enqueue_bounded job h h' b e = ground (arith, length-append h.publish_ch (job ∷ []))
