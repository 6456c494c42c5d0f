-- ===== src/Ws/Hub/Rooms.antt =====
-- Which connections are in which room, and what the room functions of the hub do to that.
use microservice_game_servic.Base.{
  ℕ, ◌≡◌, ◌≢◌, refl, Bool, false, not, ◌&&◌, ◌||◌, List, [], ◌∷◌, Bytes, some, length, ◌==◌,
  nat_comparable, bytes_comparable, bytes_beq_iff, if◌then◌else◌, nat_beq, arith,
}
use microservice_game_servic.Base.Map.{lookup, lookup-insert, lookup-erase}
use microservice_game_servic.Ws.Conn.{conn_at}
use microservice_game_servic.Ws.Conn.Sends.{elem, Unrepeated}
use microservice_game_servic.Ws.Hub.{
  Hub, room_add, room_delete, or_empty, add_to_room_locked, remove_from_room_locked,
}

abbrev pub room : Bytes → Hub → List ℕ
room k h = or_empty (lookup k h.rooms)

abbrev pub in_room : Bytes → ℕ → Hub → Bool
in_room k q h = elem q (room k h)

pub elem-room_add : (r q : ℕ) (xs : List ℕ) → elem q (room_add r xs) ≡ (nat_beq r q || elem q xs)
elem-room_add r q [] = ground arith
elem-room_add r q (x ∷ xs) = ground (arith, elem-room_add r q xs)

pub elem-room_delete :
    (r q : ℕ) (xs : List ℕ) → elem q (room_delete r xs) ≡ (not (nat_beq r q) && elem q xs)
elem-room_delete r q [] = ground arith
elem-room_delete r q (x ∷ xs) = ground (arith, elem-room_delete r q xs)

pub room_add-Unrepeated : (r : ℕ) (xs : List ℕ) → Unrepeated xs → Unrepeated (room_add r xs)
room_add-Unrepeated r [] u = (refl, tt)
room_add-Unrepeated r (x ∷ xs) u =
    ground (arith, elem-room_add r x xs, room_add-Unrepeated r xs u.1)

pub room_delete-Unrepeated : (r : ℕ) (xs : List ℕ) → Unrepeated xs → Unrepeated (room_delete r xs)
room_delete-Unrepeated r [] u = tt
room_delete-Unrepeated r (x ∷ xs) u =
    ground (arith, elem-room_delete r x xs, room_delete-Unrepeated r xs u.1)

elem_of_length : (q : ℕ) (xs : List ℕ) → length xs ≡ 0 → elem q xs ≡ false
elem_of_length q [] h = refl
elem_of_length q (x ∷ xs) h = absurd (omega arith)

-- Both functions work on the room of the connection's map, unless it has none.
abbrev pub own_room : ℕ → Bytes → Hub → Bool
own_room r k h = not (k == []) && (conn_at r h.conns).map_id == k

pub room-add_to_room_locked :
    (r : ℕ) (h : Hub) (k : Bytes)
    → room k (add_to_room_locked r h) ≡ (if own_room r k h then room_add r (room k h) else room k h)
unfolding add_to_room_locked
room-add_to_room_locked r h k =
    let c = conn_at r h.conns in
    ground (
      arith,
      bytes_beq_iff c.map_id k,
      bytes_beq_iff c.map_id [],
      bytes_beq_iff k [],
      lookup-insert c.map_id k (room_add r (room c.map_id h)) h.rooms,
    )

nil_of_length : (xs : List ℕ) → length xs ≡ 0 → xs ≡ []
nil_of_length [] h = refl
nil_of_length (x ∷ xs) h = absurd (omega arith)

pub room-remove_from_room_locked :
    (r : ℕ) (h : Hub) (k : Bytes)
    → room k (remove_from_room_locked r h)
      ≡ (if own_room r k h then room_delete r (room k h) else room k h)
unfolding remove_from_room_locked
room-remove_from_room_locked r h k =
    let c = conn_at r h.conns in
    let left = room_delete r (room c.map_id h) in
    ground (
      arith,
      bytes_beq_iff c.map_id k,
      bytes_beq_iff c.map_id [],
      bytes_beq_iff k [],
      lookup-insert c.map_id k left h.rooms,
      lookup-erase c.map_id k h.rooms,
      nil_of_length left,
    )

abbrev pub NoEmptyRoom : Hub → Type 0
NoEmptyRoom h = (k : Bytes) → lookup k h.rooms ≢ some []

room_add-ne-nil : (r : ℕ) (xs : List ℕ) → room_add r xs ≢ []
room_add-ne-nil r [] = ground arith
room_add-ne-nil r (x ∷ xs) = ground arith

pub add_to_room_locked-NoEmptyRoom :
    (r : ℕ) (h : Hub) → NoEmptyRoom h → NoEmptyRoom (add_to_room_locked r h)
unfolding add_to_room_locked
add_to_room_locked-NoEmptyRoom r h n k e =
    let c = conn_at r h.conns in
    ground (
      arith,
      lookup-insert c.map_id k (room_add r (room c.map_id h)) h.rooms,
      room_add-ne-nil r (room c.map_id h),
      n k,
    )

pub remove_from_room_locked-NoEmptyRoom :
    (r : ℕ) (h : Hub) → NoEmptyRoom h → NoEmptyRoom (remove_from_room_locked r h)
unfolding remove_from_room_locked
remove_from_room_locked-NoEmptyRoom r h n k e =
    let c = conn_at r h.conns in
    let left = room_delete r (room c.map_id h) in
    ground (arith, lookup-insert c.map_id k left h.rooms, lookup-erase c.map_id k h.rooms, n k)

pub conns-remove_from_room_locked :
    (r : ℕ) (h : Hub) → (remove_from_room_locked r h).conns ≡ h.conns
unfolding remove_from_room_locked
conns-remove_from_room_locked r h = ground arith

pub conns-add_to_room_locked : (r : ℕ) (h : Hub) → (add_to_room_locked r h).conns ≡ h.conns
unfolding add_to_room_locked
conns-add_to_room_locked r h = ground arith

pub users-remove_from_room_locked :
    (r : ℕ) (h : Hub) → (remove_from_room_locked r h).conns_by_user ≡ h.conns_by_user
unfolding remove_from_room_locked
users-remove_from_room_locked r h = ground arith

pub users-add_to_room_locked :
    (r : ℕ) (h : Hub) → (add_to_room_locked r h).conns_by_user ≡ h.conns_by_user
unfolding add_to_room_locked
users-add_to_room_locked r h = ground arith
