-- ===== src/State/Manager/Spec.antt =====
-- What the manager's operations do to the table of snapshots, when no other step comes between
-- their own.
use microservice_game_servic.Base.{
  ℕ, ◌<◌, ◌≡◌, refl, sym, ap, ◌∙◌, Bool, ◌&&◌, [], ◌∷◌, ◌++◌, Bytes, Option, none, some, length,
  get_elem?_snoc, length-append, bytes_comparable, bytes_beq_iff, ◌==◌, ==_refl, if◌then◌else◌,
  arith, nat_beq, Bool-cases, Option-cases, inl, inr,
}
use microservice_game_servic.Base.Int.{ℤ, int_comparable}
use microservice_game_servic.Base.Map.{lookup, insert, lookup-insert, insert-Distinct}
use microservice_game_servic.Protocol.{PlayerMove}
use microservice_game_servic.State.PlayerState.{PlayerState, apply_move, new_player}
use microservice_game_servic.State.MapState.{new_map_state, entry, update_from_move}
use microservice_game_servic.State.Manager.{
  Manager, map_at, create_map, get_or_create_map, update_at,
}
use microservice_game_servic.State.Manager.Lookup.{
  find, IsSound, write_at-IsSound, find-write_at, lookup-update_from_move, map_id-update_from_move,
}

-- GetOrCreateMap hands out a pointer to the map of that name, and changes no snapshot.
pub record Created (k : Bytes) (m : Manager) (c : ℕ × Manager) : Type 0 where
  pub sound : IsSound c.1
  pub stored : lookup k c.1.maps ≡ some c.0
  pub unchanged : (j : Bytes) (v : ℤ) → find j v c.1 ≡ find j v m

abbrev pub grown : Bytes → Manager → Manager
grown k m = record { maps = insert k (length m.heap) m.maps; heap = m.heap ++ new_map_state k ∷ [] }

pub map_at-grown :
    (k : Bytes) (m : Manager) (q : ℕ)
    → map_at q (grown k m) ≡ (if nat_beq (length m.heap) q then new_map_state k else map_at q m)
unfolding map_at
map_at-grown k m q = ground (arith, get_elem?_snoc m.heap q (new_map_state k))

map_id-grown :
    (k j : Bytes) (m : Manager) (q : ℕ)
    → IsSound m
    → lookup j (grown k m).maps ≡ some q
    → lookup k m.maps ≡ none
    → (q < length (grown k m).heap) × ((map_at q (grown k m)).map_id ≡ j)
unfolding new_map_state
map_id-grown k j m q s h e = elim (Option-cases (lookup j m.maps)) [
  | inl o ↦ ground (
    arith,
    map_at-grown k m q,
    lookup-insert k j (length m.heap) m.maps,
    bytes_beq_iff k j,
    length-append m.heap (new_map_state k ∷ []),
  )
  | inr (r, o) ↦ ground (
    arith,
    map_at-grown k m q,
    lookup-insert k j (length m.heap) m.maps,
    bytes_beq_iff k j,
    length-append m.heap (new_map_state k ∷ []),
    s.in_heap j r o,
    s.named j r o,
  )
]

grown-IsSound : (k : Bytes) (m : Manager) → IsSound m → lookup k m.maps ≡ none → IsSound (grown k m)
grown-IsSound k m s e = record {
  in_heap = λ j q h. (map_id-grown k j m q s h e).0;
  named = λ j q h. (map_id-grown k j m q s h e).1;
  distinct = insert-Distinct k (length m.heap) m.maps s.distinct;
}

lookup-new_map_state : (v : ℤ) (k : Bytes) → lookup v (new_map_state k).players ≡ none
unfolding new_map_state lookup
lookup-new_map_state v k = refl

find-grown :
    (k j : Bytes) (v : ℤ) (m : Manager)
    → IsSound m
    → lookup k m.maps ≡ none
    → find j v (grown k m) ≡ find j v m
unfolding find
find-grown k j v m s e = elim (Option-cases (lookup j m.maps)) [
  | inl o ↦ ground (
    arith,
    map_at-grown k m (length m.heap),
    lookup-insert k j (length m.heap) m.maps,
    lookup-new_map_state v k,
  )
  | inr (r, o) ↦ ground (
    arith,
    map_at-grown k m r,
    lookup-insert k j (length m.heap) m.maps,
    bytes_beq_iff k j,
    s.in_heap j r o,
  )
]

pub get_or_create_map_new :
    (k : Bytes) (m : Manager)
    → lookup k m.maps ≡ none
    → get_or_create_map k m ≡ (length m.heap, grown k m)
unfolding get_or_create_map create_map
get_or_create_map_new k m e = rw (e, get_or_create_map) (rw (e, create_map))

-- In a sound manager GetOrCreateMap hands out a pointer to the map of that name, keeps the manager
-- sound, and changes no snapshot.
pub get_or_create_map-Created :
    (k : Bytes) (m : Manager) → IsSound m → Created k m (get_or_create_map k m)
unfolding get_or_create_map
get_or_create_map-Created k m s = elim (Option-cases (lookup k m.maps)) [
  | inl e ↦ rw (get_or_create_map_new k m e) (record {
    sound = grown-IsSound k m s e;
    stored = lookup-insert k k (length m.heap) m.maps ∙ rw (==_refl k);
    unchanged = λ j v. find-grown k j v m s e;
  })
  | inr (r, e) ↦
      rw (e, get_or_create_map) (record { sound = s; stored = e; unchanged = λ j v. refl })
]

pub find_stored :
    (k : Bytes) (v : ℤ) (r : ℕ) (m : Manager)
    → lookup k m.maps ≡ some r
    → find k v m ≡ lookup v (map_at r m).players
unfolding find
find_stored k v r m e = rw (e, find)

-- A change to one entry of one map, seen through the table.
pub under_key :
    (k j : Bytes) (v : ℤ) (r : ℕ) (m : Manager) (b : Bool) (x : Option PlayerState)
    → lookup k m.maps ≡ some r
    → (if k == j then (if b then x else lookup v (map_at r m).players) else find j v m)
      ≡ (if k == j && b then x else find j v m)
under_key k j v r m b x e = elim (Bool-cases (k == j)) [
  | inl h ↦ rw (h, ap (λ i. find i v m) (sym ((bytes_beq_iff k j).0 h)) ∙ find_stored k v r m e)
  | inr h ↦ rw h
]

-- The steps of a handler for one move, with no other step between them.
unfoldable pub move_player : ℕ → Bytes → ℤ → PlayerMove → Manager → Manager
move_player now k u move m = let (r, m') = get_or_create_map k m in update_at now u move r m'

-- The entry that a move is applied to: the player's snapshot on that map, or a new one.
abbrev pub entry_or_new : Bytes → ℤ → Option PlayerState → PlayerState
entry_or_new k u none = new_player u k
entry_or_new k u (some p) = p

pub move_player-IsSound :
    (now : ℕ) (k : Bytes) (u : ℤ) (move : PlayerMove) (m : Manager)
    → IsSound m
    → IsSound (move_player now k u move m)
unfolding move_player update_at
move_player-IsSound now k u move m s =
    let c = get_or_create_map k m in
    let d : Created k m c = get_or_create_map-Created k m s in
    write_at-IsSound c.1 c.0 _ d.sound (d.sound.in_heap k c.0 d.stored)
      (map_id-update_from_move now u move (map_at c.0 c.1))

pub entry-map_at :
    (k : Bytes) (u : ℤ) (r : ℕ) (m : Manager)
    → IsSound m
    → lookup k m.maps ≡ some r
    → entry u (map_at r m) ≡ entry_or_new k u (find k u m)
unfolding find entry
entry-map_at k u r m s e =
    rw (e, find)
      (elim (Option-cases (lookup u (map_at r m).players)) [
        | inl o ↦ rw (o, entry) (ap (new_player u) (s.named k r e))
        | inr (p, o) ↦ rw (o, entry)
      ])

-- In a sound manager, with no other step between its own, a move on map `k` by user `u` sets the
-- snapshot of that user there, and no other: the entry keeps what the move does not carry, or
-- starts new.
pub find-move_player :
    (now : ℕ) (k : Bytes) (u : ℤ) (move : PlayerMove) (m : Manager) (j : Bytes) (v : ℤ)
    → IsSound m
    → find j v (move_player now k u move m) ≡ (
        if k == j && u == v
        then some (apply_move now move (entry_or_new k u (find k u m)))
        else find j v m)
unfolding move_player update_at
find-move_player now k u move m j v s =
    let c = get_or_create_map k m in
    let d : Created k m c = get_or_create_map-Created k m s in
    find-write_at c.1 k j v c.0 (update_from_move now u move (map_at c.0 c.1)) d.sound d.stored
    ∙ rw
        (
          lookup-update_from_move,
          ← d.unchanged j v,
          ← d.unchanged k u,
          entry-map_at k u c.0 c.1 d.sound d.stored,
        )
        (under_key k j v c.0 c.1 (u == v) _ d.stored)
