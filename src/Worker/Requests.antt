-- ===== src/Worker/Requests.antt =====
-- How the worker takes a request from the broker and a response from the processor:
-- handleBrokerNewRequest, requestRedirected and handleProcessorMessage of liblhcluster/src/worker.cxx.
use lhcluster.Common.{
  ℕ, Bool, true, false, Option, some, none, [], ◌∷◌, ◌++◌, contains, nat_beq, nat_eq, if◌then◌else◌,
}
use lhcluster.Common.Int.{ℤ, pos, negsuc, is_zero}
use lhcluster.Cluster.{
  has_any, message_number, broker_response, broker_received_receipt, worker_finished,
  worker_receipt, status_number, fatal_error,
}
use lhcluster.Cluster.MessageFlag
use lhcluster.Wire.{Wire, Message}
use lhcluster.Action.{Act, pure, with_fields, ◌>>=◌, ◌>>◌}
use lhcluster.Worker.Parse.{RequestHead, parse_request_head, parse_request_id, parse_response}
use lhcluster.Worker.State.{
  Worker, ClientRequestContext, WorkerRequestTypeContext, messaging, request_processor, key,
  received_unsupported_request, processor_inaccessable, processor_fatal_error, add_in_progress,
  request_has_finished, update_envelope, set_exit_state, update_worker_last_active, send,
  find_type_context, find_context, put_type_context, put_context, insert_context, erase_context,
}

module _ {F : Type 0} ⦃w : Wire F⦄ where
  -- the receipt that the worker builds while it reads a request
  unfoldable pub receipt_message : Message F → F → F → Message F
  unfolding message_number
  receipt_message env type_frame id_frame =
      w.null_frame
      ∷ w.put_u32 (message_number worker_receipt)
      ∷ (env
          ++ w.null_frame
            ∷ w.put_u32 (message_number broker_received_receipt)
            ∷ type_frame
            ∷ id_frame
            ∷ [])

  -- the response of the processor as it goes to the broker: the envelope is in front of it again
  unfoldable pub finished_message : Message F → Message F → Message F
  unfolding message_number
  finished_message env m =
      w.null_frame
      ∷ w.put_u32 (message_number worker_finished)
      ∷ (env ++ w.null_frame ∷ w.put_u32 (message_number broker_response) ∷ m)

  unfoldable pub new_context : RequestHead F → ℕ → ClientRequestContext F
  new_context h id = record {
    request_type = h.request_type;
    request_id = id;
    vfs = h.vfs;
    envelope = h.envelope;
  }

module _ {F : Type 0} where
  -- `requestRedirected`: a request that the worker has goes to the new envelope from now on.
  unfoldable pub request_redirected : ClientRequestContext F → Act (Worker F) Bool
  unfolding find_context put_context pure ◌>>=◌ update_envelope
  request_redirected new = do
    found ← find_context (key new)
    elim found [
      | none ↦ pure false
      | some c ↦ do
        put_context (key new) (record (update_envelope c new.envelope) { vfs = new.vfs })
        pure true
    ]

  -- the receipt, if the request asks for one; what `Send` returns is dropped
  unfoldable pub send_receipt : Option (Message F) → Act (Worker F) (Unit {0})
  unfolding send pure ◌>>=◌
  send_receipt none = pure tt
  send_receipt (some m) = do send messaging m; pure tt

  -- steps 5 and 6 of `handleBrokerNewRequest`, with the type context that `find` returned
  unfoldable pub forward_request :
      WorkerRequestTypeContext
      → ClientRequestContext F
      → Message F
      → Option (Message F)
      → Act (Worker F) ℤ
  unfolding request_redirected send_receipt send put_type_context insert_context set_exit_state
      add_in_progress pure ◌>>=◌
  forward_request types c body receipt = do
    redirected ← request_redirected c
    if redirected then (do send_receipt receipt; pure (pos 0)) else (do
      ret ← send request_processor body
      if is_zero ret
          then (do
            put_type_context c.request_type (add_in_progress c.request_id types)
            insert_context c
            send_receipt receipt
            pure (pos 0))
          else (do set_exit_state processor_inaccessable; pure (negsuc 0)))

module _ {F : Type 0} ⦃w : Wire F⦄ where
  -- `handleBrokerNewRequest` behind the type: a type that the worker does not serve ends it
  unfoldable pub take_request : RequestHead F → Act (Worker F) ℤ
  unfolding with_fields parse_request_id find_type_context set_exit_state forward_request
      new_context receipt_message has_any pure ◌>>=◌
  take_request h = do
    found ← find_type_context h.request_type
    elim found [
      | none ↦ do set_exit_state received_unsupported_request; pure (negsuc 0)
      | some types ↦ with_fields (parse_request_id h.behind) λ i.
          forward_request types (new_context h i.1) h.body (
            if has_any h.vfs MessageFlag.receipt_on_receive
            then some (receipt_message h.envelope h.type_frame i.0)
            else none)
    ]

  unfoldable pub handle_broker_new_request : Message F → Act (Worker F) ℤ
  unfolding with_fields parse_request_head take_request
  handle_broker_new_request m = with_fields (parse_request_head m) take_request

  -- the part of `handleProcessorMessage` for a request in progress
  unfoldable pub finish_request :
      WorkerRequestTypeContext → ClientRequestContext F → ℕ → ℕ → ℕ → Message F → Act (Worker F) ℤ
  unfolding send update_worker_last_active put_type_context request_has_finished set_exit_state pure
      ◌>>=◌ finished_message status_number
  finish_request types c type id status m = do
    ret ← send messaging (finished_message c.envelope m)
    if is_zero ret then update_worker_last_active else pure tt
    put_type_context type (request_has_finished id types)
    if nat_beq status (status_number fatal_error)
        then (do set_exit_state processor_fatal_error; pure (negsuc 0))
        else pure ret

  -- `handleProcessorMessage` behind the frames that it reads
  unfoldable pub take_response : ℕ → ℕ → ℕ → Message F → Act (Worker F) ℤ
  unfolding find_type_context find_context erase_context put_type_context request_has_finished
      finish_request pure ◌>>=◌ contains
  take_response type id status m = do
    type_context ← find_type_context type
    context ← find_context (type, id)
    elim type_context [
      | none ↦ elim context [
        | none ↦ pure (pos 0)
        | some _ ↦ do erase_context (type, id); pure (pos 0)
      ]
      | some types ↦ elim context [
        | none ↦ do
          if contains types.in_progress_requests id
              then put_type_context type (request_has_finished id types)
              else pure tt
          pure (pos 0)
        | some c ↦ do
          ret ←
              if contains types.in_progress_requests id
              then finish_request types c type id status m
              else pure (pos 0)
          erase_context (type, id)
          pure ret
      ]
    ]

  unfoldable pub handle_processor_message : Message F → Act (Worker F) ℤ
  unfolding with_fields parse_response take_response
  handle_processor_message m =
      with_fields (parse_response m) λ r. take_response r.0.request_type r.0.request_id r.1 m
