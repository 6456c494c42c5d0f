-- ===== src/Loop/Ticker/Flush.antt =====
-- What a tick hands to Redis.
use mathlib.Core.List.{Memᴰ}
use mathlib.Core.List.Memᴰ as InList
use microservice_game_servic.Base.{
  ℕ, ◌<◌, ◌-◌, ◌≤◌, ◌≡◌, refl, sym, ap, ◌∙◌, true, ◌&&◌, List, [], ◌∷◌, ◌++◌, map, Bytes, Option,
  none, some, length, select, nat_beq, nat_beq_iff, Outcome, done, bind_done, done_injective, arith,
  Bool-cases, Option-cases, inl, inr, ==_refl, bytes_comparable, bytes_beq_iff,
}
use microservice_game_servic.Base.Int.{ℤ, int_comparable}
use microservice_game_servic.Base.Map.{
  Map, Distinct, lookup, values, map_values, Memᴰ-map, select-lookup,
}
use microservice_game_servic.Protocol.{Envelope, player_sync_batch}
use microservice_game_servic.Player.Service.{PlayerMoveWithId}
use microservice_game_servic.State.PlayerState.{PlayerState, to_move}
use microservice_game_servic.State.MapState.{MapState, clear_dirty, clear_redis}
use microservice_game_servic.State.MapState.Dirty.{collect_dirty_both_lem}
use microservice_game_servic.State.Manager.{Manager, map_at, write_at, all_maps}
use microservice_game_servic.State.Manager.Lookup.{find, IsSound, map_at-write_at, length-write_at}
use microservice_game_servic.Ws.Conn.Sends.{elem, AllBelow}
use microservice_game_servic.Ws.Hub.{Hub, broadcast_to_map}
use microservice_game_servic.Ws.Handler.{Game}
use microservice_game_servic.Loop.Ticker.{
  Ticker, sync_at, with_id, collect_at, due, tick_map, tick_maps, tick,
}

-- The entries of a map that await the flush, in the form in which it hands them out.
abbrev flushed : MapState → List PlayerMoveWithId
flushed ms = map with_id (map clear_dirty (select (λ p. p.redis_dirty) (values ms.players)))

abbrev cleared : MapState → MapState
cleared ms = record ms { players = map_values (λ p. clear_redis (clear_dirty p)) ms.players }

append_nil {ℓ} : {A : Type ℓ} (xs : List A) → xs ++ [] ≡ xs
append_nil [] = refl
append_nil (x ∷ xs) = ap (◌∷◌ x) (append_nil xs)

nil_of_beq {ℓ} : {A : Type ℓ} (xs : List A) → nat_beq (length xs) 0 ≡ true → xs ≡ []
nil_of_beq [] h = refl
nil_of_beq (x ∷ xs) h = ground arith

pub values-AllBelow :
    (n : ℕ) (maps : Map Bytes ℕ)
    → Distinct maps
    → ((k : Bytes) (r : ℕ) → lookup k maps ≡ some r → r < n)
    → AllBelow n (values maps)
unfolding lookup
values-AllBelow n [] d f = tt
values-AllBelow n ((k, r) ∷ maps) d f = (
  f k r (rw (==_refl k)),
  values-AllBelow n maps d.1 (λ j q e. f j q (ground (arith, bytes_beq_iff k j, d.0))),
)

pub elem-values :
    (k : Bytes) (r : ℕ) (maps : Map Bytes ℕ) → lookup k maps ≡ some r → elem r (values maps) ≡ true
unfolding lookup
elem-values k r [] e = cc
elem-values k r ((j, q) ∷ maps) e = ground (arith, elem-values k r maps)

module _ (encode : Envelope → Bytes) where
  -- One map of a flush: its entries are appended, and both flags are cleared.
  tick_map_flush :
      (now r : ℕ) (moves : List PlayerMoveWithId) (g : Game) (moves' : List PlayerMoveWithId)
      (g' : Game)
      → tick_map (λ e. some (encode e)) now true r moves g ≡ done (moves', g')
      → (moves' ≡ moves ++ flushed (map_at r g.manager))
        × (g'.manager ≡ write_at r (cleared (map_at r g.manager)) g.manager)
  unfolding tick_map collect_at
  tick_map_flush now r moves g moves' g' e =
      let ms : MapState = map_at r g.manager in
      let dirty : List PlayerState = select (λ p. p.dirty) (values ms.players) in
      let redis : List PlayerState =
        map clear_dirty (select (λ p. p.redis_dirty) (values ms.players)) in
      elim (Bool-cases (nat_beq (length dirty) 0 && nat_beq (length redis) 0)) [
        | inl none_left ↦
            let returned : done (moves, record g { manager = write_at r (cleared ms) g.manager })
                ≡ done (moves', g') =
              rw (collect_dirty_both_lem, none_left) at e in
            let same : (moves, record g { manager = write_at r (cleared ms) g.manager })
                ≡ (moves', g') =
              done_injective returned in
            let no_redis : redis ≡ [] = nil_of_beq redis (ground arith) in
            (
              sym (ap (λ (o : List PlayerMoveWithId × Game). o.0) same)
                  ∙ sym (append_nil moves)
                  ∙ ap (λ ps. moves ++ map with_id ps) (sym no_redis),
              sym (ap (λ (o : List PlayerMoveWithId × Game). o.1.manager) same),
            )
        | inr some_left ↦
            let m : Manager = write_at r (cleared ms) g.manager in
            let packet : Bytes = encode (player_sync_batch (map (sync_at now) dirty)) in
            let finish : Hub → Outcome (List PlayerMoveWithId × Game) =
              λ hub. done (moves ++ map with_id redis, record { hub = hub; manager = m }) in
            let (hub, _, after) =
              bind_done (broadcast_to_map (map_at r m).map_id packet none g.hub) finish (moves', g')
                (rw (collect_dirty_both_lem, some_left) at e) in
            let same : (moves ++ map with_id redis, record { hub = hub; manager = m })
                ≡ (moves', g') =
              done_injective after in
            (
              sym (ap (λ (o : List PlayerMoveWithId × Game). o.0) same),
              sym (ap (λ (o : List PlayerMoveWithId × Game). o.1.manager) same),
            )
      ]

  -- What a tick has gathered it keeps.
  tick_maps_keeps :
      (clock : ℕ → ℕ) (rs : List ℕ) (moves : List PlayerMoveWithId) (g : Game)
      (moves' : List PlayerMoveWithId) (g' : Game) (p : PlayerMoveWithId)
      → Memᴰ p moves
      → tick_maps (λ e. some (encode e)) clock true rs moves g ≡ done (moves', g')
      → Memᴰ p moves'
  unfolding tick_maps
  tick_maps_keeps clock [] moves g moves' g' p i e =
      let same : (moves, g) ≡ (moves', g') = done_injective e in
      rw (ap (λ (o : List PlayerMoveWithId × Game). o.0) same) at i
  tick_maps_keeps clock (q ∷ rs) moves g moves' g' p i e =
      let ((moves1, g1), first, rest) =
        bind_done (tick_map (λ e. some (encode e)) (clock q) true q moves g)
          (λ (m, h). tick_maps (λ e. some (encode e)) clock true rs m h) (moves', g') e in
      let (m, written) = tick_map_flush (clock q) q moves g moves1 g1 first in
      tick_maps_keeps clock rs moves1 g1 moves' g' p
        (rw m (InList.append_left (flushed (map_at q g.manager)) i)) rest

  -- The players of a map do not change before its round, which hands out each that awaits it.
  tick_maps_flush :
      (clock : ℕ → ℕ) (rs : List ℕ) (moves : List PlayerMoveWithId) (g : Game)
      (moves' : List PlayerMoveWithId) (g' : Game) (r : ℕ) (p : PlayerMoveWithId)
      → AllBelow (length g.manager.heap) rs
      → elem r rs ≡ true
      → Memᴰ p (flushed (map_at r g.manager))
      → tick_maps (λ e. some (encode e)) clock true rs moves g ≡ done (moves', g')
      → Memᴰ p moves'
  unfolding tick_maps
  tick_maps_flush clock [] moves g moves' g' r p b i w e = cc
  tick_maps_flush clock (q ∷ rs) moves g moves' g' r p b i w e =
      let ((moves1, g1), first, rest) =
        bind_done (tick_map (λ e. some (encode e)) (clock q) true q moves g)
          (λ (m, h). tick_maps (λ e. some (encode e)) clock true rs m h) (moves', g') e in
      let (m, written) = tick_map_flush (clock q) q moves g moves1 g1 first in
      elim (Bool-cases (nat_beq q r)) [
        | inl here ↦
            tick_maps_keeps clock rs moves1 g1 moves' g' p
              (rw (m, (nat_beq_iff q r).0 here) (InList.append_right moves w)) rest
        | inr later ↦
            tick_maps_flush clock rs moves1 g1 moves' g' r p (rw (written, length-write_at) b.1)
              (ground arith)
              (rw (written, map_at-write_at g.manager q r (cleared (map_at q g.manager)) b.0, later)
                w)
              rest
      ]

  -- A tick at which the flush is due hands Redis the snapshot of every player, on any map, that
  -- moved since the last flush, where packets can be marshalled and the tick returns.
  pub tick_flush :
      (start : ℕ) (clock : ℕ → ℕ) (finish : ℕ) (t t' : Ticker) (g g' : Game)
      (moves : Option (List PlayerMoveWithId)) (k : Bytes) (v : ℤ) (p : PlayerState)
      → IsSound g.manager
      → find k v g.manager ≡ some p
      → p.redis_dirty ≡ true
      → t.flush_interval ≤ start - t.last_flush
      → tick (λ e. some (encode e)) start clock finish t g ≡ done (moves, t', g')
      → (batch : List PlayerMoveWithId) × (moves ≡ some batch) × Memᴰ (with_id p) batch
  unfolding tick find all_maps to_move
  tick_flush start clock finish t t' g g' moves k v p s f d late e =
      elim (Option-cases (lookup k g.manager.maps)) [
        | inl absent ↦ let nothing : none ≡ some p = rw (absent, find) at f in cc
        | inr (r, here) ↦
            let player : lookup v (map_at r g.manager).players ≡ some p = rw (here, find) at f in
            let now_due : due start t ≡ true = ground arith in
            let ((batch, g1), looped, after) =
              bind_done (tick_maps (λ e. some (encode e)) clock true (all_maps g.manager) [] g)
                (λ (ms, h). done (some ms, record t { last_flush = finish }, h)) (moves, t', g')
                (rw now_due at e) in
            let same : (some batch, record t { last_flush = finish }, g1) ≡ (moves, t', g') =
              done_injective after in
            (
              batch,
              sym (ap (λ (o : Option (List PlayerMoveWithId) × Ticker × Game). o.0) same),
              tick_maps_flush clock (all_maps g.manager) [] g batch g1 r (with_id p)
                  (values-AllBelow (length g.manager.heap) g.manager.maps s.distinct s.in_heap)
                  (elem-values k r g.manager.maps here)
                  (Memᴰ-map with_id (
                    Memᴰ-map clear_dirty (
                      select-lookup (λ q. q.redis_dirty) v p (map_at r g.manager).players player
                        d)))
                  looped,
            )
      ]
