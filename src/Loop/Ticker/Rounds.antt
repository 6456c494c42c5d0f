-- ===== src/Loop/Ticker/Rounds.antt =====
-- The loop of a tick over the maps: no broadcast panics while the hub runs and the routed
-- connections are open, and each room gets its packet.
use microservice_game_servic.Base.{
  ℕ, ◌≡◌, ◌≢◌, refl, sym, ap, ◌∙◌, Bool, true, false, List, [], ◌∷◌, Bytes, Option, none, some,
  length, nat_beq, nat_beq_iff, done, arith, Bool-cases, inl, inr, ==_refl, bytes_comparable,
  bytes_beq_iff,
}
use microservice_game_servic.Base.Int.{pos, int_comparable}
use microservice_game_servic.Base.Map.{Map, Distinct, lookup, values}
use microservice_game_servic.Protocol.{Envelope}
use microservice_game_servic.Player.Service.{PlayerMoveWithId}
use microservice_game_servic.State.Manager.{Manager, map_at}
use microservice_game_servic.State.Manager.Lookup.{IsSound}
use microservice_game_servic.Ws.Conn.{conn_at}
use microservice_game_servic.Ws.Conn.Sends.{sent, elem, AllBelow}
use microservice_game_servic.Ws.Hub.{Hub}
use microservice_game_servic.Ws.Hub.Rooms.{in_room}
use microservice_game_servic.Ws.Hub.Broadcasts.{receives}
use microservice_game_servic.Ws.Hub.Consistent.{Consistent}
use microservice_game_servic.Ws.Handler.{Game}
use microservice_game_servic.Loop.Ticker.Round.{
  Running, OpenRoom, Round, AtMostOne, packet_of, tick_map_returns,
}
use microservice_game_servic.Loop.Ticker.Collected.{SameNames, dirty_of}
use microservice_game_servic.Loop.Ticker.{tick_maps}

-- No two of the maps bear one name.
abbrev pub Apart : Manager → List ℕ → Type 0
Apart m [] = Unit {0}
Apart m (r ∷ rs) =
    ((q : ℕ) → elem q rs ≡ true → (map_at r m).map_id ≢ (map_at q m).map_id) × Apart m rs

Apart-SameNames : (m n : Manager) (rs : List ℕ) → SameNames m n → Apart m rs → Apart n rs
Apart-SameNames m n [] s a = tt
Apart-SameNames m n (r ∷ rs) s a =
    (λ q e h. a.0 q e (sym (s.1 r) ∙ h ∙ s.1 q), Apart-SameNames m n rs s a.1)

one_room :
    (k j : Bytes) (q : ℕ) (h : Hub)
    → Consistent h
    → k ≢ j
    → in_room j q h ≡ true
    → in_room k q h ≡ false
one_room k j q h c other inside = elim (Bool-cases (in_room k q h)) [
  | inl both ↦ absurd (other (sym (c.placed k q both) ∙ c.placed j q inside))
  | inr outside ↦ outside
]

-- After a round the room of another map is as open as before.
Round-OpenRoom :
    (r : ℕ) (j : Bytes) (made : Option Bytes) (g g' : Game)
    → Round r made g g'
    → Consistent g.hub
    → (map_at r g.manager).map_id ≢ j
    → OpenRoom g.hub j
    → OpenRoom g'.hub j
Round-OpenRoom r j made g g' round c other o q e =
    let inside : in_room j q g.hub ≡ true = rw round.rooms at e in
    let outside : in_room (map_at r g.manager).map_id q g.hub ≡ false =
      one_room (map_at r g.manager).map_id j q g.hub c other inside in
    rw (round.others q outside) (o q inside)

-- A connection in the room of one map is in no room of the maps behind it, also after its round.
elsewhere :
    (r j q : ℕ) (rs : List ℕ) (made : Option Bytes) (g g' : Game)
    → Consistent g.hub
    → Apart g.manager (r ∷ rs)
    → Round r made g g'
    → in_room (map_at r g.manager).map_id q g.hub ≡ true
    → elem j rs ≡ true
    → in_room (map_at j g'.manager).map_id q g'.hub ≡ false
elsewhere r j q rs made g g' c a round own e =
    rw (round.names.1 j, round.rooms)
      (one_room (map_at j g.manager).map_id (map_at r g.manager).map_id q g.hub c
        (λ h. a.0 j e (sym h)) own)

-- What the rounds for the maps behind `rs` do to the connections.
pub record Sent (marshal : Envelope → Option Bytes) (clock : ℕ → ℕ) (rs : List ℕ) (g g' : Game)
    : Type 0 where
  pub running : Running g'.hub
  pub rooms : g'.hub.rooms ≡ g.hub.rooms
  pub sound : IsSound g.manager → IsSound g'.manager
  pub once : (c : ℕ) → AtMostOne (conn_at c g.hub.conns) (conn_at c g'.hub.conns)
  pub others :
      (c : ℕ)
      → ((r : ℕ) → elem r rs ≡ true → in_room (map_at r g.manager).map_id c g.hub ≡ false)
      → conn_at c g'.hub.conns ≡ conn_at c g.hub.conns
  pub delivered :
      (r c : ℕ) (packet : Bytes)
      → elem r rs ≡ true
      → packet_of marshal (clock r) (dirty_of (map_at r g.manager)) ≡ some packet
      → nat_beq (length (dirty_of (map_at r g.manager))) 0 ≡ false
      → receives (map_at r g.manager).map_id (pos 0) c g.hub ≡ true
      → conn_at c g'.hub.conns ≡ sent packet (conn_at c g.hub.conns)

module _ (marshal : Envelope → Option Bytes) where
  Sent-cons :
      (clock : ℕ → ℕ) (r : ℕ) (rs : List ℕ) (g g1 g2 : Game)
      → Consistent g.hub
      → Apart g.manager (r ∷ rs)
      → Round r (packet_of marshal (clock r) (dirty_of (map_at r g.manager))) g g1
      → Sent marshal clock rs g1 g2
      → Sent marshal clock (r ∷ rs) g g2
  Sent-cons clock r rs g g1 g2 c a round rest = record {
    running = rest.running;
    rooms = rest.rooms ∙ round.rooms;
    sound = λ s. rest.sound (round.sound s);
    once = λ q.
        let k : Bytes = (map_at r g.manager).map_id in
        elim (Bool-cases (in_room k q g.hub)) [
          | inl own ↦
              rw (rest.others q (λ j f. elsewhere r j q rs _ g g1 c a round own f)) (round.once q)
          | inr outside ↦ rw (round.others q outside) at (rest.once q)
        ];
    others = λ q none_of.
        rest.others q (λ i e. rw (round.names.1 i, round.rooms) (none_of i (ground arith)))
        ∙ round.others q (none_of r (ground arith));
    delivered = λ i q packet e made news member.
        let inside : in_room (map_at i g.manager).map_id q g.hub ≡ true = ground arith in
        elim (Bool-cases (nat_beq r i)) [
          | inl here ↦
              let same : r ≡ i = (nat_beq_iff r i).0 here in
              let own : in_room (map_at r g.manager).map_id q g.hub ≡ true = rw same inside in
              rest.others q (λ j f. elsewhere r j q rs _ g g1 c a round own f)
              ∙ round.delivered q packet (rw same made) (rw same news) (rw same member)
          | inr there ↦
              let last : elem i rs ≡ true = ground arith in
              let outside : in_room (map_at r g.manager).map_id q g.hub ≡ false =
                one_room (map_at r g.manager).map_id (map_at i g.manager).map_id q g.hub c
                  (a.0 i last) inside in
              let kept : conn_at q g1.hub.conns ≡ conn_at q g.hub.conns = round.others q outside in
              rest.delivered i q packet last (rw (round.maps i there) made)
                (rw (round.maps i there) news) (rw (round.maps i there, round.rooms, kept) member)
              ∙ ap (sent packet) kept
        ];
  }

  pub tick_maps_returns :
      (clock : ℕ → ℕ) (do_flush : Bool) (rs : List ℕ) (moves : List PlayerMoveWithId) (g : Game)
      → Running g.hub
      → AllBelow (length g.manager.heap) rs
      → Apart g.manager rs
      → ((r : ℕ) → elem r rs ≡ true → OpenRoom g.hub (map_at r g.manager).map_id)
      → (moves' : List PlayerMoveWithId) × (g' : Game) × (tick_maps marshal clock do_flush rs moves
            g
          ≡ done (moves', g'))
        × Sent marshal clock rs g g'
  unfolding tick_maps
  tick_maps_returns clock do_flush [] moves g run b a o = (
    moves,
    g,
    refl,
    record {
      running = run;
      rooms = refl;
      sound = λ s. s;
      once = λ q. inl refl;
      others = λ q e. refl;
      delivered = λ r c packet e. absurd (ground (arith, e));
    },
  )
  tick_maps_returns clock do_flush (r ∷ rs) moves g run b a o =
      let (moves1, g1, one, round) =
        tick_map_returns marshal (clock r) do_flush r moves g run b.0 (o r (ground arith)) in
      let open_after : (q : ℕ) → elem q rs ≡ true → OpenRoom g1.hub (map_at q g1.manager).map_id =
        λ q e. rw (round.names.1 q) (
          Round-OpenRoom r (map_at q g.manager).map_id
            (packet_of marshal (clock r) (dirty_of (map_at r g.manager))) g g1 round run.consistent
            (a.0 q e) (o q (ground arith))) in
      let (moves2, g2, rest, sent_rest) =
        tick_maps_returns clock do_flush rs moves1 g1 round.running (rw (round.names.0) b.1)
          (Apart-SameNames g.manager g1.manager rs round.names a.1) open_after in
      (moves2, g2, rw (one, rest), Sent-cons clock r rs g g1 g2 run.consistent a round sent_rest)

elem_of_values :
    (r : ℕ) (maps : Map Bytes ℕ)
    → Distinct maps
    → elem r (values maps) ≡ true
    → (k : Bytes) × (lookup k maps ≡ some r)
unfolding lookup
elem_of_values r [] d e = cc
elem_of_values r ((j, q) ∷ maps) d e = elim (Bool-cases (nat_beq q r)) [
  | inl here ↦ (j, rw (==_refl j, (nat_beq_iff q r).0 here))
  | inr later ↦
      let (k, found) = elem_of_values r maps d.1 (ground arith) in
      (k, ground (arith, bytes_beq_iff j k, d.0))
]

pub values-Apart :
    (m : Manager)
    → IsSound m
    → (maps : Map Bytes ℕ) → Distinct maps
    → ((k : Bytes) (r : ℕ) → lookup k maps ≡ some r → lookup k m.maps ≡ some r)
    → Apart m (values maps)
unfolding lookup
values-Apart m s [] d sub = tt
values-Apart m s ((j, r) ∷ maps) d sub = (
  λ q e same.
      let (i, found) = elem_of_values q maps d.1 e in
      let own : (map_at r m).map_id ≡ j = s.named j r (sub j r (rw (==_refl j))) in
      let other : i ≢ j = λ h.
        (let clash : none ≡ some q = sym d.0 ∙ ap (λ n. lookup n maps) (sym h) ∙ found in cc) in
      let its : (map_at q m).map_id ≡ i =
        s.named i q (sub i q (ground (arith, bytes_beq_iff j i))) in
      other (sym its ∙ sym same ∙ own),
  values-Apart m s maps d.1 (λ k q e. sub k q (ground (arith, bytes_beq_iff j k, d.0))),
)
