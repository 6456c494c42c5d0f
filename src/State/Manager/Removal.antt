-- ===== src/State/Manager/Removal.antt =====
-- RemovePlayerFromMap of internal/game/state/manager.go, when no other step comes between its own.
use microservice_game_servic.Base.{
  ℕ, ◌≡◌, refl, sym, ap, ◌∙◌, Bool, true, false, ◌&&◌, [], ◌∷◌, Bytes, none, some, length,
  bytes_comparable, bytes_beq_iff, ◌==◌, ==_refl, if◌then◌else◌, arith, nat_beq, Bool-cases,
  Option-cases, inl, inr,
}
use microservice_game_servic.Base.Int.{ℤ, int_comparable}
use microservice_game_servic.Base.Map.{Map, lookup, erase, lookup-erase, erase-Distinct}
use microservice_game_servic.State.PlayerState.{PlayerState}
use microservice_game_servic.State.MapState.{MapState, is_empty, remove_player}
use microservice_game_servic.State.Manager.{
  Manager, map_at, get_map, remove_at, delete_if_empty, remove_and_clean, remove_player_from_map,
  player_exists_in_map,
}
use microservice_game_servic.State.Manager.Lookup.{
  find, IsSound, maps-write_at, write_at-IsSound, find-write_at, lookup-remove_player,
  map_id-remove_player,
}
use microservice_game_servic.State.Manager.Spec.{under_key, find_stored}

remove_at-IsSound :
    (u : ℤ) (k : Bytes) (r : ℕ) (m : Manager)
    → IsSound m
    → lookup k m.maps ≡ some r
    → IsSound (remove_at u r m)
unfolding remove_at
remove_at-IsSound u k r m s e =
    write_at-IsSound m r _ s (s.in_heap k r e) (map_id-remove_player u (map_at r m))

pub find-remove_at :
    (k : Bytes) (u : ℤ) (r : ℕ) (m : Manager) (j : Bytes) (v : ℤ)
    → IsSound m
    → lookup k m.maps ≡ some r
    → find j v (remove_at u r m) ≡ (if k == j && u == v then none else find j v m)
unfolding remove_at
find-remove_at k u r m j v s e =
    find-write_at m k j v r (remove_player u (map_at r m)).0 s e
    ∙ rw lookup-remove_player (under_key k j v r m (u == v) none e)

erased-IsSound :
    (k : Bytes) (m : Manager) → IsSound m → IsSound (record m { maps = erase k m.maps })
unfolding map_at
erased-IsSound k m s = record {
  in_heap = λ j q h. s.in_heap j q (kept j q h);
  named = λ j q h. s.named j q (kept j q h);
  distinct = erase-Distinct k m.maps s.distinct;
}
  where
    kept : (j : Bytes) (q : ℕ) → lookup j (erase k m.maps) ≡ some q → lookup j m.maps ≡ some q
    kept j q h = ground (arith, lookup-erase k j m.maps)

pub delete_if_empty-IsSound :
    (k : Bytes) (r : ℕ) (m : Manager) → IsSound m → IsSound (delete_if_empty k r m)
unfolding delete_if_empty
delete_if_empty-IsSound k r m s = elim (Bool-cases (is_empty (map_at r m))) [
  | inl e ↦ rw e (erased-IsSound k m s)
  | inr e ↦ rw e s
]

lookup-is_empty : (ms : MapState) (v : ℤ) → is_empty ms ≡ true → lookup v ms.players ≡ none
unfolding is_empty lookup
lookup-is_empty ms v h = go ms.players h
  where
    go : (ps : Map ℤ PlayerState) → nat_beq (length ps) 0 ≡ true → lookup v ps ≡ none
    go [] e = refl
    go (p ∷ ps) e = absurd (ground arith)

pub find-erase :
    (k j : Bytes) (v : ℤ) (m : Manager)
    → find j v (record m { maps = erase k m.maps }) ≡ (if k == j then none else find j v m)
unfolding find map_at
find-erase k j v m = elim (Bool-cases (k == j)) [
  | inl h ↦ let gone : lookup j (erase k m.maps) ≡ none = rw (lookup-erase, h) in rw (h, gone, find)
  | inr h ↦
      let kept : lookup j (erase k m.maps) ≡ lookup j m.maps = rw (lookup-erase, h) in
      rw (h, kept, find)
]

-- Forgetting an entry that is not there changes nothing.
absent :
    (k j : Bytes) (v : ℤ) (m : Manager) (b : Bool)
    → find k v m ≡ none
    → find j v m ≡ (if k == j && b then none else find j v m)
absent k j v m b e = elim (Bool-cases (k == j)) [
  | inl h ↦
      let same : find j v m ≡ none = ap (λ i. find i v m) (sym ((bytes_beq_iff k j).0 h)) ∙ e in
      ground arith
  | inr h ↦ rw h
]

and_true : (b : Bool) → b ≡ (b && true)
and_true true = refl
and_true false = refl

-- Dropping an empty map from the table changes no snapshot.
pub find-delete_if_empty :
    (k : Bytes) (r : ℕ) (m : Manager) (j : Bytes) (v : ℤ)
    → lookup k m.maps ≡ some r
    → find j v (delete_if_empty k r m) ≡ find j v m
unfolding delete_if_empty
find-delete_if_empty k r m j v e = elim (Bool-cases (is_empty (map_at r m))) [
  | inl h ↦
      let none_there : find k v m ≡ none =
        find_stored k v r m e ∙ lookup-is_empty (map_at r m) v h in
      rw h (
        find-erase k j v m
        ∙ ap (λ (b : Bool). if b then none else find j v m) (and_true (k == j))
        ∙ sym (absent k j v m true none_there))
  | inr h ↦ rw h
]

maps-remove_at : (u : ℤ) (r : ℕ) (m : Manager) → (remove_at u r m).maps ≡ m.maps
unfolding remove_at
maps-remove_at u r m = maps-write_at m r _

remove_and_clean-IsSound :
    (k : Bytes) (u : ℤ) (r : ℕ) (m : Manager)
    → IsSound m
    → lookup k m.maps ≡ some r
    → IsSound (remove_and_clean k u r m)
unfolding remove_and_clean
remove_and_clean-IsSound k u r m s e = elim (Bool-cases (is_empty (map_at r (remove_at u r m)))) [
  | inl h ↦ rw h (delete_if_empty-IsSound k r (remove_at u r m) (remove_at-IsSound u k r m s e))
  | inr h ↦ rw h (remove_at-IsSound u k r m s e)
]

find-remove_and_clean :
    (k : Bytes) (u : ℤ) (r : ℕ) (m : Manager) (j : Bytes) (v : ℤ)
    → IsSound m
    → lookup k m.maps ≡ some r
    → find j v (remove_and_clean k u r m) ≡ (if k == j && u == v then none else find j v m)
unfolding remove_and_clean
find-remove_and_clean k u r m j v s e = elim (Bool-cases (is_empty (map_at r (remove_at u r m)))) [
  | inl h ↦ rw h (
      find-delete_if_empty k r (remove_at u r m) j v (rw maps-remove_at e)
      ∙ find-remove_at k u r m j v s e)
  | inr h ↦ rw h (find-remove_at k u r m j v s e)
]

-- RemovePlayerFromMap keeps the manager sound.
pub remove_player_from_map-IsSound :
    (k : Bytes) (u : ℤ) (m : Manager) → IsSound m → IsSound (remove_player_from_map k u m)
unfolding remove_player_from_map get_map
remove_player_from_map-IsSound k u m s = elim (Option-cases (lookup k m.maps)) [
  | inl e ↦ rw (e, remove_player_from_map, get_map) s
  | inr (r, e) ↦ rw (e, remove_player_from_map, get_map) (remove_and_clean-IsSound k u r m s e)
]

pub find-none : (k : Bytes) (v : ℤ) (m : Manager) → lookup k m.maps ≡ none → find k v m ≡ none
unfolding find
find-none k v m e = rw (e, find)

-- In a sound manager, with no other step between its own, RemovePlayerFromMap forgets the
-- snapshot of that user on that map, if there was one, and no other snapshot.
pub find-remove_player_from_map :
    (k : Bytes) (u : ℤ) (m : Manager) (j : Bytes) (v : ℤ)
    → IsSound m
    → find j v (remove_player_from_map k u m) ≡ (if k == j && u == v then none else find j v m)
unfolding remove_player_from_map get_map
find-remove_player_from_map k u m j v s = elim (Option-cases (lookup k m.maps)) [
  | inl e ↦ rw (e, remove_player_from_map, get_map) (absent k j v m (u == v) (find-none k v m e))
  | inr (r, e) ↦ rw (e, remove_player_from_map, get_map) (find-remove_and_clean k u r m j v s e)
]

-- PlayerExistsInMap answers whether the table has a snapshot of that user on that map.
pub player_exists_in_map-find :
    (k : Bytes) (u : ℤ) (m : Manager)
    → player_exists_in_map k u m ≡ elim (find k u m) [ none ↦ false | some _ ↦ true ]
unfolding player_exists_in_map get_map find
player_exists_in_map-find k u m = ground arith

-- In a sound manager, a map that RemovePlayerFromMap leaves in the table under the name that it
-- was given is not empty.
pub remove_player_from_map-no_empty :
    (k : Bytes) (u : ℤ) (r : ℕ) (m : Manager)
    → IsSound m
    → lookup k (remove_player_from_map k u m).maps ≡ some r
    → is_empty (map_at r (remove_player_from_map k u m)) ≡ false
unfolding remove_player_from_map get_map remove_and_clean delete_if_empty
remove_player_from_map-no_empty k u r m s h = elim (Option-cases (lookup k m.maps)) [
  | inl e ↦ absurd (ground (arith, lookup-erase k k m.maps))
  | inr (q, e) ↦
      ground (arith, lookup-erase k k (remove_at u q m).maps, ==_refl k, maps-remove_at u q m)
]
