-- ===== src/Broker/Replies.antt =====
-- What the broker of broker.cxx sends to clients and workers besides requests: receipts, notices of
-- a redirect, refusals and heartbeats; and the copy of a request that it keeps.
use Prim.Native.Nat.{bit_or}
use lhcluster.Common.{ℕ, Option, some, none, [], ◌∷◌, ◌++◌, if◌then◌else◌}
use lhcluster.Common.Int.{ℤ, pos, is_zero}
use lhcluster.Cluster.{
  VersionFlags, RequestStatus, ClusterMessage, status_number, message_number, has_any, without_flag,
  redirected, broker_sent_receipt, broker_response, broker_heartbeat,
}
use lhcluster.Cluster.MessageFlag
use lhcluster.Wire.{Wire, Message, identity_eq}
use lhcluster.Wire.Envelope.{env_copy, is_empty}
use lhcluster.RequestState
use lhcluster.WorkerInfo
use lhcluster.Broker.State.{
  Op, Socket, frontend, backend, null_message, pure, undefined_by, gets, deref, ◌>>=◌, ◌>>◌,
  the_request, on_request, on_worker, send,
}

module _ {F : Type 0} ⦃w : Wire F⦄ where
  -- `copyRequestForFlags`: the copy, or null
  unfoldable pub copy_request_for_flags : VersionFlags → Message F → Option (Message F)
  unfolding has_any env_copy
  copy_request_for_flags vfs m =
      if has_any vfs MessageFlag.retry_on_death
      then some m
      else if has_any vfs (
          bit_or (bit_or MessageFlag.notify_on_redirect MessageFlag.notify_on_death)
            MessageFlag.receipt_on_send)
      then some (env_copy m)
      else none

  abbrev pub put_message : ClusterMessage → F
  put_message c = w.put_u32 (message_number c)

  -- `sendReceipt`, behind the envelope that it is given
  unfoldable pub send_receipt : Message F → ℕ → ℕ → Op F (ℤ × Option (Message F))
  unfolding send message_number
  send_receipt env type id =
      send frontend
        (env ++ w.null_frame ∷ put_message broker_sent_receipt ∷ w.put_u32 type ∷ w.put_u64 id ∷ [])

  -- `handleCopiedRequest`: sends the receipt that is due, and keeps the copy in the request's state
  unfoldable pub handle_copied_request : ℕ → ℕ → VersionFlags → ℕ → Message F → Op F ℤ
  unfolding send_receipt has_any without_flag env_copy RequestState.update_request
      RequestState.update_flags RequestState.update_message on_request pure ◌>>=◌
  handle_copied_request context_type id vfs type copied =
      let rest = without_flag vfs MessageFlag.receipt_on_send in
      if has_any vfs MessageFlag.receipt_on_send
      then (if has_any vfs MessageFlag.retry_on_death
          then (do
            (ret, _) ← send_receipt (env_copy copied) type id
            on_request context_type id (RequestState.update_request (some copied) rest)
            pure ret)
          else if has_any vfs (bit_or MessageFlag.notify_on_redirect MessageFlag.notify_on_death)
          then (do
            (ret, _) ← send_receipt copied type id
            on_request context_type id (RequestState.update_request (some copied) rest)
            pure ret)
          else (do
            (ret, _) ← send_receipt copied type id
            on_request context_type id (RequestState.update_flags rest)
            pure ret))
      else (do on_request context_type id (RequestState.update_message (some copied)); pure (pos 0))

  -- `notifyOnRedirect`: tells the client whose request is kept that another one took its place
  unfoldable pub notify_on_redirect : ℕ → ℕ → Op F ℤ
  unfolding the_request send env_copy message_number status_number pure ◌>>=◌
  notify_on_redirect type id = do
    r ← the_request type id
    elim r.msg [
      | none ↦ pure (pos 1)
      | some m ↦ do
        (ret, _) ← send frontend (
            env_copy m
            ++ w.null_frame
              ∷ put_message broker_response
              ∷ w.put_vfs r.vfs
              ∷ w.put_u32 type
              ∷ w.put_u64 r.request_id
              ∷ w.put_u32 (status_number redirected)
              ∷ [])
        pure ret
    ]

  -- `rejectRequest( vfs, type, id, msg, status )`; the message is gone afterwards
  unfoldable pub reject_with_key :
      VersionFlags → ℕ → ℕ → Option (Message F) → RequestStatus → Op F ℤ
  unfolding deref send status_number pure ◌>>=◌
  reject_with_key vfs type id msg status = do
    m ← deref null_message msg
    (ret, _) ←
        send frontend (
          m
          ++ w.put_vfs vfs ∷ w.put_u32 type ∷ w.put_u64 id ∷ w.put_u32 (status_number status) ∷ [])
    pure ret

  abbrev pub first_three : Message F → Message F
  first_three (a ∷ b ∷ c ∷ _) = a ∷ b ∷ c ∷ []
  first_three m = m

  -- The frames up to the delimiter, the delimiter, and three more (version and flags, type, id):
  -- what `rejectRequest( msg, status )` keeps. Without a delimiter it asks a null frame for its size.
  unfoldable pub request_header : Message F → Option (Message F)
  request_header [] = none
  request_header (f ∷ m) =
      let rest = request_header m in
      if is_empty f
      then some (f ∷ first_three m)
      else elim rest [ none ↦ none | some h ↦ some (f ∷ h) ]

  unfoldable pub reject_request : Option (Message F) → RequestStatus → Op F ℤ
  unfolding deref request_header send status_number pure ◌>>=◌
  reject_request msg status = do
    m ← deref null_message msg
    header ← deref null_message (request_header m)
    (ret, _) ← send frontend (header ++ w.put_u32 (status_number status) ∷ [])
    pure ret

  -- `SendHeartbeat` of liblhcluster/src/utils.cxx, behind the frames that it is given
  unfoldable pub send_heartbeat : Socket → ℤ → ℤ → ℕ → Message F → Op F (ℤ × Option (Message F))
  unfolding send
  send_heartbeat socket sent_as_of delay header m =
      send socket
        (m ++ w.null_frame ∷ w.put_u32 header ∷ w.put_time sent_as_of ∷ w.put_time delay ∷ [])

  -- `sendWorkerHeartbeat`, to the worker that the pointer names
  unfoldable pub send_worker_heartbeat : F → Op F ℤ
  unfolding gets send_heartbeat on_worker pure ◌>>=◌ message_number
      WorkerInfo.update_broker_last_active
  send_worker_heartbeat worker = do
    now ← gets (λ b. b.current_time)
    delay ← gets (λ b. b.self_heartbeat_delay)
    (ret, _) ← send_heartbeat backend now delay (message_number broker_heartbeat) (worker ∷ [])
    if is_zero ret
        then (do on_worker worker (WorkerInfo.update_broker_last_active now); pure ret)
        else pure (pos 0)

  -- `handleClientHeartbeat`: the reply goes to the first identity of the envelope
  unfoldable pub handle_client_heartbeat : Message F → Op F ℤ
  unfolding gets send_heartbeat pure undefined_by ◌>>=◌ message_number
  handle_client_heartbeat [] = undefined_by null_message
  handle_client_heartbeat (identity ∷ _) = do
    now ← gets (λ b. b.current_time)
    delay ← gets (λ b. b.self_heartbeat_delay)
    (ret, _) ← send_heartbeat frontend now delay (message_number broker_heartbeat) (identity ∷ [])
    pure ret
