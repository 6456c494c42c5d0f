-- ===== src/Loop/Ticker/Collected.antt =====
-- What a tick of internal/game/loop/ticker.go collects from one map, and what it leaves of the maps.
use microservice_game_servic.Base.{
  ℕ, ◌<◌, ◌≡◌, refl, ap, Bool, true, false, List, length, select, nat_beq, nat_beq_iff, arith,
  bytes_comparable,
}
use microservice_game_servic.Base.Int.{int_comparable}
use microservice_game_servic.Base.Map.{values}
use microservice_game_servic.State.PlayerState.{PlayerState}
use microservice_game_servic.State.MapState.{MapState, collect_dirty, collect_dirty_both}
use microservice_game_servic.State.MapState.Dirty.{collect_dirty_lem, collect_dirty_both_lem}
use microservice_game_servic.State.Manager.{Manager, map_at, write_at}
use microservice_game_servic.State.Manager.Lookup.{
  IsSound, map_at-write_at, length-write_at, write_at-IsSound,
}
use microservice_game_servic.Loop.Ticker.{collect_at}

-- The same maps under the same names.
abbrev pub SameNames : Manager → Manager → Type 0
SameNames m n =
    (length n.heap ≡ length m.heap) × ((q : ℕ) → (map_at q n).map_id ≡ (map_at q m).map_id)

write_at-SameNames :
    (r : ℕ) (ms : MapState) (m : Manager)
    → r < length m.heap
    → ms.map_id ≡ (map_at r m).map_id
    → SameNames m (write_at r ms m)
write_at-SameNames r ms m b e = (
  length-write_at m r ms,
  λ q. ground (arith, map_at-write_at m r q ms b, nat_beq_iff r q, ap (λ i. (map_at i m).map_id)),
)

pub collect_at-SameNames :
    (do_flush : Bool) (r : ℕ) (m : Manager)
    → r < length m.heap
    → SameNames m (collect_at do_flush r m).2
unfolding collect_at collect_dirty collect_dirty_both
collect_at-SameNames true r m b = write_at-SameNames r (collect_dirty_both (map_at r m)).2 m b refl
collect_at-SameNames false r m b = write_at-SameNames r (collect_dirty (map_at r m)).1 m b refl

abbrev pub dirty_of : MapState → List PlayerState
dirty_of ms = select (λ p. p.dirty) (values ms.players)

pub collect_at_dirty :
    (do_flush : Bool) (r : ℕ) (m : Manager) → (collect_at do_flush r m).0 ≡ dirty_of (map_at r m)
unfolding collect_at
collect_at_dirty true r m = rw collect_dirty_both_lem
collect_at_dirty false r m = rw collect_dirty_lem

pub collect_at_maps :
    (do_flush : Bool) (r q : ℕ) (m : Manager)
    → r < length m.heap
    → nat_beq r q ≡ false
    → map_at q (collect_at do_flush r m).2 ≡ map_at q m
unfolding collect_at
collect_at_maps true r q m b e = rw (map_at-write_at m r q (collect_dirty_both (map_at r m)).2 b, e)
collect_at_maps false r q m b e = rw (map_at-write_at m r q (collect_dirty (map_at r m)).1 b, e)

pub collect_at-IsSound :
    (do_flush : Bool) (r : ℕ) (m : Manager)
    → r < length m.heap
    → IsSound m
    → IsSound (collect_at do_flush r m).2
unfolding collect_at collect_dirty collect_dirty_both
collect_at-IsSound true r m b s = write_at-IsSound m r _ s b refl
collect_at-IsSound false r m b s = write_at-IsSound m r _ s b refl
