-- ===== src/State/Manager/Lookup.antt =====
-- The manager as a table from a map's name and a user to a snapshot: what each operation does to
-- that table when no other step comes between its own.
use microservice_game_servic.Base.{
  ℕ, ◌<◌, ◌≡◌, refl, sym, ◌∙◌, Bytes, Option, none, some, length, get_elem?-set, length-set,
  bytes_comparable, bytes_beq_iff, ◌==◌, if◌then◌else◌, arith, nat_beq, Option-cases, inl, inr,
}
use microservice_game_servic.Base.Int.{ℤ, int_comparable}
use microservice_game_servic.Base.Map.{lookup, lookup-insert, lookup-erase, Distinct}
use microservice_game_servic.Protocol.{PlayerMove}
use microservice_game_servic.State.PlayerState.{PlayerState, apply_move}
use microservice_game_servic.State.MapState.{MapState, entry, update_from_move, remove_player}
use microservice_game_servic.State.Manager.{Manager, new_manager, map_at, write_at}

-- What a reader finds under a map's name and a user.
unfoldable pub find : Bytes → ℤ → Manager → Option PlayerState
find map_id user_id m = elim (lookup map_id m.maps) [
  | none ↦ none
  | some r ↦ lookup user_id (map_at r m).players
]

-- Each name in the table has a map in the heap that bears it.
pub record IsSound (m : Manager) : Type 0 where
  pub in_heap : (k : Bytes) (r : ℕ) → lookup k m.maps ≡ some r → r < length m.heap
  pub named : (k : Bytes) (r : ℕ) → lookup k m.maps ≡ some r → (map_at r m).map_id ≡ k
  pub distinct : Distinct m.maps

pub map_at-write_at :
    (m : Manager) (r q : ℕ) (ms : MapState)
    → r < length m.heap
    → map_at q (write_at r ms m) ≡ (if nat_beq r q then ms else map_at q m)
unfolding map_at write_at
map_at-write_at m r q ms h = ground (arith, get_elem?-set m.heap r q ms)

pub maps-write_at : (m : Manager) (r : ℕ) (ms : MapState) → (write_at r ms m).maps ≡ m.maps
unfolding write_at
maps-write_at m r ms = refl

pub length-write_at :
    (m : Manager) (r : ℕ) (ms : MapState) → length (write_at r ms m).heap ≡ length m.heap
unfolding write_at
length-write_at m r ms = length-set m.heap r ms

-- Two names have two maps.
pub pointer_unique :
    (m : Manager)
    → IsSound m
    → (k j : Bytes) (r : ℕ) → lookup k m.maps ≡ some r
    → lookup j m.maps ≡ some r
    → k ≡ j
pointer_unique m s k j r hk hj = sym (s.named k r hk) ∙ s.named j r hj

-- A write of a map that keeps its name.
pub write_at-IsSound :
    (m : Manager) (r : ℕ) (ms : MapState)
    → IsSound m
    → r < length m.heap
    → ms.map_id ≡ (map_at r m).map_id
    → IsSound (write_at r ms m)
write_at-IsSound m r ms s h e = record {
  in_heap = λ k q f. rw (length-write_at) (s.in_heap k q (rw maps-write_at at f));
  named = λ k q f. ground (arith, map_at-write_at m r q ms h, s.named k q (rw maps-write_at at f));
  distinct = rw maps-write_at s.distinct;
}

pub find-write_at :
    (m : Manager) (k j : Bytes) (v : ℤ) (r : ℕ) (ms : MapState)
    → IsSound m
    → lookup k m.maps ≡ some r
    → find j v (write_at r ms m) ≡ (if k == j then lookup v ms.players else find j v m)
unfolding find
find-write_at m k j v r ms s h = elim (Option-cases (lookup j m.maps)) [
  | inl e ↦ ground (arith, maps-write_at m r ms, bytes_beq_iff k j)
  | inr (q, e) ↦ ground (
    arith,
    maps-write_at m r ms,
    map_at-write_at m r q ms (s.in_heap k r h),
    bytes_beq_iff k j,
    s.named k r h,
    s.named j q e,
  )
]

-- The players of a map after a move and after a removal.
pub lookup-update_from_move :
    (now : ℕ) (u v : ℤ) (move : PlayerMove) (ms : MapState)
    → lookup v (update_from_move now u move ms).players
      ≡ (if u == v then some (apply_move now move (entry u ms)) else lookup v ms.players)
unfolding update_from_move
lookup-update_from_move now u v move ms = lookup-insert u v _ ms.players

pub lookup-remove_player :
    (u v : ℤ) (ms : MapState)
    → lookup v (remove_player u ms).0.players ≡ (if u == v then none else lookup v ms.players)
unfolding remove_player
lookup-remove_player u v ms =
    ground (arith, lookup-erase u v ms.players, int_comparable.equal_iff u v)

pub map_id-update_from_move :
    (now : ℕ) (u : ℤ) (move : PlayerMove) (ms : MapState)
    → (update_from_move now u move ms).map_id ≡ ms.map_id
unfolding update_from_move
map_id-update_from_move now u move ms = refl

pub map_id-remove_player : (u : ℤ) (ms : MapState) → (remove_player u ms).0.map_id ≡ ms.map_id
unfolding remove_player
map_id-remove_player u ms = ground arith

pub new_manager-IsSound : IsSound new_manager
unfolding new_manager lookup
new_manager-IsSound = record { in_heap = λ k r e. cc; named = λ k r e. cc; distinct = tt }
