-- ===== src/Ws/Conn/Sends.antt =====
-- What a broadcast does to the connections that it is sent to.
use microservice_game_servic.Base.{
  ℕ, ◌<◌, ◌≤◌, ◌≡◌, refl, sym, ap, ◌∙◌, true, false, List, [], ◌∷◌, ◌++◌, Bytes, length,
  get_elem?-set, get_elem?_snoc, length-set, ltb, le→ltb_false, if◌then◌else◌, done, panic,
  send_on_closed, ◌>>=◌, nat_beq, Bool-cases, inl, inr, arith,
}
pub use microservice_game_servic.Base.Pointers.{elem, AllBelow, Unrepeated, AllBelow-grows}
use microservice_game_servic.Ws.Conn.{Conn, send_capacity, send, conn_at, write_conn, send_all}

pub conn_at-write_conn :
    (conns : List Conn) (r q : ℕ) (c : Conn)
    → r < length conns
    → conn_at q (write_conn r c conns) ≡ (if nat_beq r q then c else conn_at q conns)
unfolding conn_at write_conn
conn_at-write_conn conns r q c h = ground (arith, get_elem?-set conns r q c)

pub conn_at-write_there :
    (xs : List Conn) (r q : ℕ) (c : Conn)
    → nat_beq r q ≡ false
    → conn_at q (write_conn r c xs) ≡ conn_at q xs
unfolding conn_at write_conn
conn_at-write_there xs r q c ne = ground (arith, get_elem?-set xs r q c)

pub length-write_conn :
    (conns : List Conn) (r : ℕ) (c : Conn) → length (write_conn r c conns) ≡ length conns
unfolding write_conn
length-write_conn conns r c = length-set conns r c

pub conn_at-append_lt :
    (xs : List Conn) (c : Conn) (q : ℕ) → q < length xs → conn_at q (xs ++ c ∷ []) ≡ conn_at q xs
unfolding conn_at
conn_at-append_lt xs c q lt = ground (arith, get_elem?_snoc xs q c)

-- What Send makes of an open connection: the message queued, or the connection closed.
unfoldable pub sent : Bytes → Conn → Conn
sent message c =
    if ltb (length c.queue) send_capacity
    then record c { queue = c.queue ++ message ∷ [] }
    else record c { closed = true }

-- Send returns on an open connection and panics on a closed one.
pub send_lem :
    (message : Bytes) (c : Conn)
    → send message c ≡ (if c.closed then panic send_on_closed else done (sent message c))
unfolding send sent
send_lem message c = ground arith

abbrev pub AllOpen : List Conn → List ℕ → Type 0
AllOpen conns [] = Unit {0}
AllOpen conns (r ∷ rs) = ((conn_at r conns).closed ≡ false) × AllOpen conns rs

AllOpen-write_conn :
    (conns : List Conn) (r : ℕ) (c : Conn) (rs : List ℕ)
    → r < length conns
    → elem r rs ≡ false
    → AllOpen conns rs
    → AllOpen (write_conn r c conns) rs
AllOpen-write_conn conns r c [] lt e h = tt
AllOpen-write_conn conns r c (x ∷ rs) lt e h = (
  ground (arith, conn_at-write_conn conns r x c lt),
  AllOpen-write_conn conns r c rs lt (ground arith) h.1,
)

AllBelow-length : (n k : ℕ) (rs : List ℕ) → n ≡ k → AllBelow n rs → AllBelow k rs
AllBelow-length n k rs e h = rw e at h

send_open : (message : Bytes) (c : Conn) → c.closed ≡ false → send message c ≡ done (sent message c)
send_open message c h =
    send_lem message c ∙ ap (λ b. if b then panic send_on_closed else done (sent message c)) h

sent_all : Bytes → List ℕ → List Conn → List Conn
sent_all message [] conns = conns
sent_all message (r ∷ rs) conns =
    sent_all message rs (write_conn r (sent message (conn_at r conns)) conns)

send_all-sent_all :
    (message : Bytes) (rs : List ℕ) (conns : List Conn)
    → Unrepeated rs
    → AllBelow (length conns) rs
    → AllOpen conns rs
    → send_all message rs conns ≡ done (sent_all message rs conns)
unfolding send_all sent_all
send_all-sent_all message [] conns u b o = refl
send_all-sent_all message (r ∷ rs) conns u b o =
    let c : Conn = sent message (conn_at r conns) in
    rw (send_open message (conn_at r conns) o.0) (
      send_all-sent_all message rs (write_conn r c conns) u.1
        (AllBelow-length _ _ rs (sym (length-write_conn conns r c)) b.1)
        (AllOpen-write_conn conns r c rs b.0 u.0 o.1))

length-sent_all :
    (message : Bytes) (rs : List ℕ) (conns : List Conn)
    → length (sent_all message rs conns) ≡ length conns
unfolding sent_all
length-sent_all message [] conns = refl
length-sent_all message (r ∷ rs) conns = length-sent_all message rs _ ∙ length-write_conn conns r _

conn_at-sent_all :
    (message : Bytes) (rs : List ℕ) (conns : List Conn) (q : ℕ)
    → Unrepeated rs
    → AllBelow (length conns) rs
    → conn_at q (sent_all message rs conns)
      ≡ (if elem q rs then sent message (conn_at q conns) else conn_at q conns)
unfolding sent_all
conn_at-sent_all message [] conns q u b = refl
conn_at-sent_all message (r ∷ rs) conns q u b =
    let c : Conn = sent message (conn_at r conns) in
    conn_at-sent_all message rs (write_conn r c conns) q u.1
      (AllBelow-length _ _ rs (sym (length-write_conn conns r c)) b.1)
    ∙ ground (arith, conn_at-write_conn conns r q c b.0)

-- A broadcast over open connections, each listed once, returns. Each of them is sent to once: the
-- message is queued, or the connection is closed where its queue is full. No other one changes.
pub send_all_lem :
    (message : Bytes) (rs : List ℕ) (conns : List Conn)
    → Unrepeated rs
    → AllBelow (length conns) rs
    → AllOpen conns rs
    → (out : List Conn) × (send_all message rs conns ≡ done out)
      × ((q : ℕ)
          → conn_at q out ≡ (if elem q rs then sent message (conn_at q conns) else conn_at q conns))
send_all_lem message rs conns u b o = (
  sent_all message rs conns,
  send_all-sent_all message rs conns u b o,
  λ q. conn_at-sent_all message rs conns q u b,
)

-- A broadcast over a list that holds a closed connection panics.
pub send_all_closed :
    (message : Bytes) (rs : List ℕ) (conns : List Conn) (r : ℕ)
    → Unrepeated rs
    → AllBelow (length conns) rs
    → elem r rs ≡ true
    → (conn_at r conns).closed ≡ true
    → send_all message rs conns ≡ panic send_on_closed
unfolding send_all
send_all_closed message [] conns r u b e h = cc
send_all_closed message (x ∷ rs) conns r u b e h = elim (Bool-cases (conn_at x conns).closed) [
  | inl shut ↦ rw (
      send_lem message (conn_at x conns)
      ∙ ap (λ b. if b then panic send_on_closed else done (sent message (conn_at x conns))) shut)
  | inr open_ ↦
      let c : Conn = sent message (conn_at x conns) in
      rw (send_open message (conn_at x conns) open_) (
        send_all_closed message rs (write_conn x c conns) r u.1
          (AllBelow-length _ _ rs (sym (length-write_conn conns x c)) b.1) (ground arith)
          (ground (arith, conn_at-write_conn conns x r c b.0)))
]

sent_full :
    (message : Bytes) (c : Conn) → send_capacity ≤ length c.queue → (sent message c).closed ≡ true
unfolding sent
sent_full message c h = rw (le→ltb_false (length c.queue) send_capacity h)

-- Two broadcasts over the same open connections, one of them with a full queue: the first one
-- closes that connection and leaves it in the list, and the second one panics.
pub send_all_twice :
    (message later : Bytes) (rs : List ℕ) (conns : List Conn) (r : ℕ)
    → Unrepeated rs
    → AllBelow (length conns) rs
    → AllOpen conns rs
    → elem r rs ≡ true
    → send_capacity ≤ length (conn_at r conns).queue
    → (send_all message rs conns >>= send_all later rs) ≡ panic send_on_closed
send_all_twice message later rs conns r u b o e full =
    rw (send_all-sent_all message rs conns u b o) (
      send_all_closed later rs (sent_all message rs conns) r u
        (AllBelow-length _ _ rs (sym (length-sent_all message rs conns)) b) e
        (rw (conn_at-sent_all message rs conns r u b, e)
          (sent_full message (conn_at r conns) full)))
