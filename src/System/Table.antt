-- ===== src/System/Table.antt =====
-- The abstract view of internal/game/state/manager.go under any interleaving: a table from a map's
-- name and a user to a snapshot, with the few ways in which it may change.
use mathlib.Core.Option
use mathlib.Core.Path.{fun_ext}
use microservice_game_servic.Base.{
  ℕ, ◌<◌, ◌≡◌, ◌≢◌, ◌⊎◌, refl, sym, ap, ◌∙◌, Bool, true, false, ◌&&◌, Bytes, Option, none, some,
  length, nat_beq, nat_beq_iff, bytes_comparable, bytes_beq_iff, ◌==◌, if◌then◌else◌, Bool-cases,
  Option-cases, inl, inr, arith,
}
use microservice_game_servic.Base.Int.{ℤ, int_comparable}
use microservice_game_servic.Base.Map.{lookup, lookup-map_values}
use microservice_game_servic.Protocol.{PlayerMove}
use microservice_game_servic.State.PlayerState.{PlayerState, apply_move}
use microservice_game_servic.State.MapState.{
  MapState, clear_dirty, clear_redis, is_empty, update_from_move,
}
use microservice_game_servic.State.MapState.Dirty.{collect_dirty_lem, collect_dirty_both_lem}
use microservice_game_servic.State.Manager.{
  Manager, map_at, write_at, update_at, remove_at, delete_if_empty,
}
use microservice_game_servic.State.Manager.Lookup.{
  find, IsSound, map_at-write_at, maps-write_at, find-write_at, lookup-update_from_move,
}
use microservice_game_servic.State.Manager.Spec.{
  get_or_create_map-Created, entry_or_new, entry-map_at, under_key, find_stored,
}
use microservice_game_servic.State.Manager.Removal.{find-remove_at, find-erase}
use microservice_game_servic.Ws.Handler.{Game}
use microservice_game_servic.Loop.Ticker.{collect_at}
use microservice_game_servic.System.{
  ManagerStep, creates, updates, removes, deletes, collects, in_hub, in_manager, Reach, here, later,
}
use microservice_game_servic.System.Healthy.{Healthy, Steps-Healthy, create_map-get_or_create_map}

abbrev pub table : Manager → Bytes → ℤ → Option PlayerState
table m k u = find k u m

-- What a collection leaves of a snapshot.
abbrev pub collected_once : Bool → PlayerState → PlayerState
collected_once true p = clear_redis (clear_dirty p)
collected_once false p = clear_dirty p

abbrev pub Table : Type 0
Table = Bytes → ℤ → Option PlayerState

-- The changes of the table: a move of a user on a map, the removal of a user from a map, a
-- collection from a map, and the loss of a whole map.
pub data Change : Type 0 where
  kept : Change
  moved : ℕ → Bytes → ℤ → PlayerMove → Change
  removed : Bytes → ℤ → Change
  collected : Bool → Bytes → Change
  lost : Bytes → Change

-- What a change makes of the table.
abbrev pub changed : Change → Table → Table
changed kept t = t
changed (moved now k u move) t =
    λ j v. if k == j && u == v then some (apply_move now move (entry_or_new k u (t k u))) else t j v
changed (removed k u) t = λ j v. if k == j && u == v then none else t j v
changed (collected both k) t =
    λ j v. if k == j then Option.map (collected_once both) (t j v) else t j v
changed (lost k) t = λ j v. if k == j then none else t j v

-- Is the map behind a pointer still the one of its name in the manager's table?
abbrev pub is_stored : ℕ → Manager → Bool
is_stored r m = elim (lookup (map_at r m).map_id m.maps) [ none ↦ false | some q ↦ nat_beq q r ]

-- The change that the program means by a step: none where the map behind the pointer has been
-- dropped. A map that is deleted by its name has been seen empty through a pointer.
abbrev pub meant : {m m' : Manager} → ManagerStep m m' → Change
meant (creates k m) = kept
meant (updates now u move r m lt) =
    if is_stored r m then moved now (map_at r m).map_id u move else kept
meant (removes u r m lt) = if is_stored r m then removed (map_at r m).map_id u else kept
meant (deletes k r m) = if is_empty (map_at r m) then lost k else kept
meant (collects both r m lt) = if is_stored r m then collected both (map_at r m).map_id else kept

-- What the changes of a run, in their order, make of the table.
unfoldable pub replay : {g later_g : Game} → Reach g later_g → Table → Table
replay here t = t
replay (later r (in_hub s)) t = replay r t
replay (later r (in_manager s)) t = changed (meant s) (replay r t)

stored_or_dropped :
    (r : ℕ) (m : Manager)
    → IsSound m
    → ((is_stored r m ≡ true) × (lookup (map_at r m).map_id m.maps ≡ some r))
      ⊎ ((is_stored r m ≡ false) × ((j : Bytes) → lookup j m.maps ≢ some r))
stored_or_dropped r m s =
    let k : Bytes = (map_at r m).map_id in
    elim (Option-cases (lookup k m.maps)) [
      | inl gone ↦ inr (rw (gone, is_stored), λ j e. cc (s.named j r e))
      | inr (q, stored) ↦ elim (Bool-cases (nat_beq q r)) [
        | inl same ↦ inl (rw (stored, is_stored) same, stored ∙ ap some ((nat_beq_iff q r).0 same))
        | inr other ↦ inr (rw (stored, is_stored) other, λ j e. ground (arith, s.named j r e))
      ]
    ]

find-write_at_dropped :
    (r : ℕ) (ms : MapState) (m : Manager) (j : Bytes) (v : ℤ)
    → r < length m.heap
    → ((i : Bytes) → lookup i m.maps ≢ some r)
    → find j v (write_at r ms m) ≡ find j v m
unfolding find
find-write_at_dropped r ms m j v lt dropped = elim (Option-cases (lookup j m.maps)) [
  | inl e ↦ ground (arith, maps-write_at m r ms)
  | inr (q, e) ↦
      let other : nat_beq r q ≡ false = elim (Bool-cases (nat_beq r q)) [
        | inl same ↦ absurd (dropped j (e ∙ ap some (sym ((nat_beq_iff r q).0 same))))
        | inr o ↦ o
      ] in
      ground (arith, maps-write_at m r ms, map_at-write_at m r q ms lt)
]

-- What a step does to a snapshot is the change that is meant by it.
abbrev AsMeant : {m m' : Manager} → ManagerStep m m' → Type 0
AsMeant {m} {m'} s = (j : Bytes) (v : ℤ) → find j v m' ≡ changed (meant s) (table m) j v

creates-AsMeant : (k : Bytes) (m : Manager) → IsSound m → AsMeant (creates k m)
creates-AsMeant k m s j v =
    rw create_map-get_or_create_map ((get_or_create_map-Created k m s).unchanged j v)

updates-AsMeant :
    (now : ℕ) (u : ℤ) (move : PlayerMove) (r : ℕ) (m : Manager) (lt : r < length m.heap)
    → IsSound m
    → AsMeant (updates now u move r m lt)
unfolding update_at
updates-AsMeant now u move r m lt s j v =
    let k : Bytes = (map_at r m).map_id in
    elim (stored_or_dropped r m s) [
      | inl (stored, e) ↦ rw stored (
          find-write_at m k j v r (update_from_move now u move (map_at r m)) s e
          ∙ rw (lookup-update_from_move, entry-map_at k u r m s e)
              (under_key k j v r m (u == v) _ e))
      | inr (dropped, none_of) ↦ rw dropped (find-write_at_dropped r _ m j v lt none_of)
    ]

removes-AsMeant :
    (u : ℤ) (r : ℕ) (m : Manager) (lt : r < length m.heap) → IsSound m → AsMeant (removes u r m lt)
unfolding remove_at
removes-AsMeant u r m lt s j v = elim (stored_or_dropped r m s) [
  | inl (stored, e) ↦
      rw stored (unfold remove_at in find-remove_at (map_at r m).map_id u r m j v s e)
  | inr (dropped, none_of) ↦ rw dropped (find-write_at_dropped r _ m j v lt none_of)
]

deletes-AsMeant : (k : Bytes) (r : ℕ) (m : Manager) → AsMeant (deletes k r m)
unfolding delete_if_empty
deletes-AsMeant k r m j v = elim (Bool-cases (is_empty (map_at r m))) [
  | inl e ↦ rw e (find-erase k j v m)
  | inr e ↦ rw e
]

find-collected :
    (f : PlayerState → PlayerState) (k : Bytes) (r : ℕ) (ms : MapState) (m : Manager)
    → IsSound m
    → lookup k m.maps ≡ some r
    → ((v : ℤ) → lookup v ms.players ≡ Option.map f (lookup v (map_at r m).players))
    → (j : Bytes) (v : ℤ)
    → find j v (write_at r ms m) ≡ (if k == j then Option.map f (find j v m) else find j v m)
find-collected f k r ms m s e players j v =
    find-write_at m k j v r ms s e ∙ elim (Bool-cases (k == j)) [
      | inl same ↦
          let at_j : lookup j m.maps ≡ some r =
            ap (λ i. lookup i m.maps) (sym ((bytes_beq_iff k j).0 same)) ∙ e in
          rw (same, find_stored j v r m at_j) (players v)
      | inr other ↦ rw other
    ]

collects-AsMeant :
    (both : Bool) (r : ℕ) (m : Manager) (lt : r < length m.heap)
    → IsSound m
    → AsMeant (collects both r m lt)
unfolding collect_at
collects-AsMeant true r m lt s j v = elim (stored_or_dropped r m s) [
  | inl (stored, e) ↦ rw stored (
      find-collected (collected_once true) (map_at r m).map_id r _ m s e
        (λ w.
          rw collect_dirty_both_lem
            (lookup-map_values (collected_once true) w (map_at r m).players))
        j v)
  | inr (dropped, none_of) ↦ rw dropped (find-write_at_dropped r _ m j v lt none_of)
]
collects-AsMeant false r m lt s j v = elim (stored_or_dropped r m s) [
  | inl (stored, e) ↦ rw stored (
      find-collected (collected_once false) (map_at r m).map_id r _ m s e
        (λ w.
          rw collect_dirty_lem (lookup-map_values (collected_once false) w (map_at r m).players))
        j v)
  | inr (dropped, none_of) ↦ rw dropped (find-write_at_dropped r _ m j v lt none_of)
]

ManagerStep-AsMeant : {m m' : Manager} (s : ManagerStep m m') → IsSound m → AsMeant s
ManagerStep-AsMeant (creates k m) i = creates-AsMeant k m i
ManagerStep-AsMeant (updates now u move r m lt) i = updates-AsMeant now u move r m lt i
ManagerStep-AsMeant (removes u r m lt) i = removes-AsMeant u r m lt i
ManagerStep-AsMeant (deletes k r m) i = deletes-AsMeant k r m
ManagerStep-AsMeant (collects both r m lt) i = collects-AsMeant both r m lt i

-- However the goroutines of a healthy instance interleave: every snapshot in the table is what the
-- steps of this run on the manager, in their order, make of the one at its beginning. A step
-- changes what it means to: a move the snapshot of its user on the map behind its pointer, a
-- removal the same, a collection the flags on that map, for Redis only if a flush is due, and none
-- of them anything where that map has been dropped; the creation of a map changes nothing, and a
-- deletion loses the map of that name, only where the map behind its pointer is empty. The steps
-- on the hub change nothing.
pub find-replay :
    {g later_g : Game} (r : Reach g later_g) (j : Bytes) (v : ℤ)
    → Healthy g
    → find j v later_g.manager ≡ replay r (table g.manager) j v
unfolding replay
find-replay here j v i = refl
find-replay (later r (in_hub s)) j v i = find-replay r j v i
find-replay (later r (in_manager s)) j v i =
    ManagerStep-AsMeant s (Steps-Healthy r i).sound j v
    ∙ ap (λ t. changed (meant s) t j v) (fun_ext (λ k. fun_ext (λ u. find-replay r k u i)))
