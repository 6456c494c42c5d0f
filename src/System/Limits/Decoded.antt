-- ===== src/System/Limits/Decoded.antt =====
-- What the other instances do with the messages that an instance publishes: decodeBroadcast of
-- internal/infra/bus/redis.go does not panic on them.
use microservice_game_servic.Base.{
  ℕ, ◌^◌, ◌%◌, ◌/◌, ◌≤◌, ◌<◌, ◌≡◌, ◌≢◌, ◌∙◌, Bool, false, List, [], ◌∷◌, ◌++◌, Bytes, some, length,
  Bool-cases, inl, inr, arith, Outcome, panic, slice_bounds, done, Result, ok, err, ◌>>=◌, ◌==◌,
  bytes_comparable,
}
use microservice_game_servic.Base.Int.{ℤ}
use microservice_game_servic.Bus.Codec.{
  Broadcast, DecodeError, encode_broadcast, decode_broadcast, encode_kick, decode_kick,
}
use microservice_game_servic.Bus.Codec.Overflow.{panics, panics-decode_broadcast}
use microservice_game_servic.Bus.Wire.{
  Message, dispatch, dispatch_broadcast, dispatch_kick, publish_broadcast, publish_kick_user,
}
use microservice_game_servic.Bus.Wire.Delivery.{dispatch_header}
use microservice_game_servic.Ws.Conn.{Conn, conn_at, send, send_all, write_conn}
use microservice_game_servic.State.Manager.{map_at}
use microservice_game_servic.Ws.Hub.{
  Hub, PublishJob, publish_broadcast_job, publish_kick_job, publish_job, publish_worker,
  on_broadcast, hub_handler, receivers,
}
use microservice_game_servic.Ws.Handler.{Game}
use microservice_game_servic.Ws.Loops.{max_message_size}
use microservice_game_servic.System.{start_game}
use microservice_game_servic.System.Calls.{Libraries}
use microservice_game_servic.System.Limits.{Short, NamesWithin}
use microservice_game_servic.System.Limits.Jobs.{ShortJob, ShortJobs, publish_worker-some}
use microservice_game_servic.System.Limits.Served.{Calls, Calls-Short}

-- The call does not slice out of bounds.
abbrev InBounds {ℓ} : {A : Type ℓ} → Outcome A → Type ℓ
InBounds o = o ≢ panic slice_bounds

>>=-InBounds {ℓ κ} :
    {A : Type ℓ} {B : Type κ} (o : Outcome A) (f : A → Outcome B)
    → InBounds o
    → ((a : A) → InBounds (f a))
    → InBounds (o >>= f)
>>=-InBounds (done a) f h k = k a
>>=-InBounds (panic p) f h k = λ e. h cc

send-InBounds : (message : Bytes) (c : Conn) → InBounds (send message c)
unfolding send
send-InBounds message c e = ground arith

send_all-InBounds :
    (message : Bytes) (rs : List ℕ) (conns : List Conn) → InBounds (send_all message rs conns)
unfolding send_all
send_all-InBounds message [] conns = λ e. cc
send_all-InBounds message (r ∷ rs) conns =
    >>=-InBounds (send message (conn_at r conns)) (λ c. send_all message rs (write_conn r c conns))
      (send-InBounds message (conn_at r conns))
      (λ c. send_all-InBounds message rs (write_conn r c conns))

on_broadcast-InBounds :
    (k message : Bytes) (u : ℤ) (h : Hub) → InBounds (on_broadcast k message u h)
unfolding on_broadcast
on_broadcast-InBounds k message u h =
    >>=-InBounds (send_all message (receivers k u h) h.conns) _
      (send_all-InBounds message (receivers k u h) h.conns) (λ conns e. cc)

returns : {A : Type 0} (o : Outcome A) → panics o ≡ false → InBounds o
returns (done a) h e = cc
returns (panic p) h e = cc

decode_broadcast-InBounds :
    (k message : Bytes) (u : ℤ)
    → length k < 65530
    → InBounds (decode_broadcast (encode_broadcast k message u))
unfolding encode_broadcast
decode_broadcast-InBounds k message u short =
    returns (decode_broadcast (encode_broadcast k message u)) (
      panics-decode_broadcast _ _ _ _ (length k % 2 ^ 16 / 2 ^ 8 % 256) (length k % 2 ^ 16 % 256)
        (k ++ message) (omega arith) (omega arith)
      ∙ ground arith)

decode_kick-InBounds : (u : ℤ) → InBounds (decode_kick (encode_kick u))
unfolding decode_kick encode_kick
decode_kick-InBounds u e = cc

module _ (parse_uuid : Bytes → Bytes)
    (length-parse_uuid : (s : Bytes) → length (parse_uuid s) ≡ 16) where
  dispatch_broadcast-InBounds :
      (k message : Bytes) (u : ℤ) (h : Hub)
      → length k < 65530
      → InBounds (dispatch_broadcast parse_uuid hub_handler (encode_broadcast k message u) h)
  unfolding hub_handler
  dispatch_broadcast-InBounds k message u h short =
      >>=-InBounds (decode_broadcast (encode_broadcast k message u)) _
        (decode_broadcast-InBounds k message u short) (by_result h)
    where
      by_result :
          (h : Hub) (r : Result DecodeError Broadcast)
          → InBounds (elim r as (λ _. Outcome Hub) [
            | ok b ↦ on_broadcast b.map_id b.payload b.exclude_user_id h
            | err _ ↦ done h
          ])
      by_result h (ok b) = on_broadcast-InBounds b.map_id b.payload b.exclude_user_id h
      by_result h (err f) = λ e. cc

  dispatch_kick-InBounds :
      (u : ℤ) (h : Hub) → InBounds (dispatch_kick parse_uuid hub_handler (encode_kick u) h)
  unfolding hub_handler decode_kick encode_kick
  dispatch_kick-InBounds u h = λ e. cc

  dispatch-publish_job :
      (n : ℕ) (from_id node_id : Bytes) (job : PublishJob) (h : Hub)
      → n < 65530
      → ShortJob n job
      → InBounds
          (dispatch parse_uuid hub_handler node_id (publish_job parse_uuid from_id job).payload h)
  unfolding publish_job publish_broadcast publish_kick_user
  dispatch-publish_job n from_id node_id (publish_broadcast_job k message u) h small short =
      rw
        (dispatch_header parse_uuid length-parse_uuid hub_handler node_id from_id
          (encode_broadcast k message u) 1 h)
        (elim (Bool-cases (parse_uuid from_id == parse_uuid node_id)) [
          | inl echo ↦ rw echo (λ e. cc)
          | inr other ↦ rw other (dispatch_broadcast-InBounds k message u h (omega arith))
        ])
  dispatch-publish_job n from_id node_id (publish_kick_job u) h small short =
      rw
        (dispatch_header parse_uuid length-parse_uuid hub_handler node_id from_id (encode_kick u) 2
          h)
        (elim (Bool-cases (parse_uuid from_id == parse_uuid node_id)) [
          | inl echo ↦ rw echo (λ e. cc)
          | inr other ↦ rw other (dispatch_kick-InBounds u h)
        ])

-- Where frames are within the read limit of 4096 bytes, a message is no shorter than the name of a
-- map in it, and a node id has 16 bytes: whatever calls an instance has made since its start, one
-- after the other, no instance that gets what its worker publishes next slices out of bounds, and
-- no map in memory has a name of more than 4096 bytes.
pub dispatch-publish_worker :
    (l : Libraries) (bus_set : Bool) (g : Game) (from_id node_id : Bytes) (message : Message)
    (rest h : Hub)
    → NamesWithin l.unmarshal
    → ((s : Bytes) → length (l.parse_uuid s) ≡ 16)
    → Calls l (start_game bus_set) g
    → publish_worker l.parse_uuid from_id g.hub ≡ some (message, rest)
    → (dispatch l.parse_uuid hub_handler node_id message.payload h ≢ panic slice_bounds)
      × ((r : ℕ) → length (map_at r g.manager).map_id ≤ max_message_size)
dispatch-publish_worker l bus_set g from_id node_id message rest h within sixteen calls e =
    let s : Short g = Calls-Short bus_set g within calls in
    let (job, jobs, waiting, sent, after) =
      publish_worker-some l.parse_uuid from_id message g.hub rest e in
    let all : ShortJobs max_message_size (job ∷ jobs) = rw waiting at s.jobs in
    (
      rw (← sent) (
          dispatch-publish_job l.parse_uuid sixteen max_message_size from_id node_id job h
            (omega arith) all.0),
      s.names,
    )
