-- ===== src/System/Runs.antt =====
-- The operations of the goroutines are runs of the atomic steps.
pub mod Reading
pub mod Joining
pub mod Ticking
use microservice_game_servic.Base.{
  ℕ, ◌<◌, ◌≡◌, refl, sym, true, false, List, [], ◌∷◌, Bytes, some, none, length, Bool-cases,
  Option-cases, inl, inr, done, bind_done, done_injective, bytes_comparable, ◌==◌,
}
use microservice_game_servic.Base.Int.{ℤ, pos}
use microservice_game_servic.Base.Map.{lookup}
use microservice_game_servic.State.MapState.{is_empty}
use microservice_game_servic.State.Manager.{
  Manager, map_at, get_map, get_or_create_map, remove_at, remove_and_clean, remove_player_from_map,
}
use microservice_game_servic.State.Manager.Lookup.{IsSound, length-write_at}
use microservice_game_servic.Ws.Conn.{Conn, conn_at, write_conn, send, send_all}
use microservice_game_servic.Ws.Conn.Sends.{AllBelow, length-write_conn}
use microservice_game_servic.Ws.Hub.{
  Hub, receivers, on_broadcast, broadcast_to_map, broadcast_to_map_exclude_user, enqueue,
  publish_broadcast_job,
}
use microservice_game_servic.Ws.Hub.Broadcasts.{receivers-AllBelow}
use microservice_game_servic.Ws.Hub.Consistent.{Consistent}
use microservice_game_servic.Ws.Handler.{Game}
use microservice_game_servic.System.{
  HubStep, sends, enqueues, ManagerStep, creates, removes, deletes, Step, in_hub, in_manager, Reach,
  here, later,
}
use microservice_game_servic.System.Healthy.{create_map-get_or_create_map}

pub Reach-trans : {g g' g'' : Game} → Reach g g' → Reach g' g'' → Reach g g''
Reach-trans r here = r
Reach-trans r (later s t) = later (Reach-trans r s) t

pub hub_step :
    {h h' : Hub} {m : Manager}
    → HubStep h h'
    → Reach (record { hub = h; manager = m }) (record { hub = h'; manager = m })
hub_step s = later here (in_hub s)

pub manager_step :
    {h : Hub} {m m' : Manager}
    → ManagerStep m m'
    → Reach (record { hub = h; manager = m }) (record { hub = h; manager = m' })
manager_step s = later here (in_manager s)

-- The loop of OnBroadcast is one send after the other.
send_all-Reach :
    (message : Bytes) (rs : List ℕ) (h : Hub) (m : Manager) (conns : List Conn)
    → AllBelow (length h.conns) rs
    → send_all message rs h.conns ≡ done conns
    → Reach
        (record { hub = h; manager = m })
        (record { hub = record h { conns = conns }; manager = m })
unfolding send_all
send_all-Reach message [] h m conns b e =
    let same : h.conns ≡ conns = done_injective e in rw (sym same) here
send_all-Reach message (r ∷ rs) h m conns b e =
    let (c, one, rest) =
      bind_done (send message (conn_at r h.conns))
        (λ c. send_all message rs (write_conn r c h.conns)) conns e in
    Reach-trans (hub_step (sends message r c h b.0 one)) (
      send_all-Reach message rs (record h { conns = write_conn r c h.conns }) m conns
        (rw length-write_conn b.1) rest)

pub on_broadcast-Reach :
    (k message : Bytes) (u : ℤ) (h h' : Hub) (m : Manager)
    → Consistent h
    → on_broadcast k message u h ≡ done h'
    → Reach (record { hub = h; manager = m }) (record { hub = h'; manager = m })
unfolding on_broadcast
on_broadcast-Reach k message u h h' m c e =
    let (conns, all, after) =
      bind_done (send_all message (receivers k u h) h.conns)
        (λ conns. done (record h { conns = conns })) h' e in
    let same : record h { conns = conns } ≡ h' = done_injective after in
    rw (sym same)
      (send_all-Reach message (receivers k u h) h m conns (receivers-AllBelow k u h c) all)

-- A broadcast of the tick loop that returns.
pub broadcast_to_map-Reach :
    (k message : Bytes) (h h' : Hub) (m : Manager)
    → Consistent h
    → broadcast_to_map k message none h ≡ done h'
    → Reach (record { hub = h; manager = m }) (record { hub = h'; manager = m })
unfolding broadcast_to_map broadcast_to_map_exclude_user
broadcast_to_map-Reach k message h h' m c e =
    let (h1, local, queued) =
      bind_done (on_broadcast k message (pos 0) h)
        (enqueue (publish_broadcast_job k message (pos 0))) h' e in
    Reach-trans (on_broadcast-Reach k message (pos 0) h h1 m c local)
      (hub_step (enqueues (publish_broadcast_job k message (pos 0)) h1 h' queued))

pub get_or_create_map-Reach :
    (k : Bytes) (h : Hub) (m : Manager)
    → Reach
        (record { hub = h; manager = m })
        (record { hub = h; manager = (get_or_create_map k m).1 })
get_or_create_map-Reach k h m = rw (← create_map-get_or_create_map) (manager_step (creates k m))

remove_and_clean-Reach :
    (k : Bytes) (u : ℤ) (r : ℕ) (h : Hub) (m : Manager)
    → r < length m.heap
    → Reach
        (record { hub = h; manager = m })
        (record { hub = h; manager = remove_and_clean k u r m })
unfolding remove_and_clean
remove_and_clean-Reach k u r h m lt =
    let removed : Reach (record { hub = h; manager = m })
        (record { hub = h; manager = remove_at u r m }) =
      manager_step (removes u r m lt) in
    elim (Bool-cases (is_empty (map_at r (remove_at u r m)))) [
      | inl e ↦ rw e (Reach-trans removed (manager_step (deletes k r (remove_at u r m))))
      | inr e ↦ rw e removed
    ]

pub remove_player_from_map-Reach :
    (k : Bytes) (u : ℤ) (h : Hub) (m : Manager)
    → IsSound m
    → Reach
        (record { hub = h; manager = m })
        (record { hub = h; manager = remove_player_from_map k u m })
unfolding remove_player_from_map get_map
remove_player_from_map-Reach k u h m s = elim (Option-cases (lookup k m.maps)) [
  | inl e ↦ rw (e, remove_player_from_map, get_map) here
  | inr (r, e) ↦
      rw (e, remove_player_from_map, get_map) (remove_and_clean-Reach k u r h m (s.in_heap k r e))
]
