-- ===== src/Worker/Outcomes.antt =====
-- What the worker of liblhcluster/src/worker.cxx has done when it has taken a request from the broker,
-- a request that it has already, or a response from the processor.
use lhcluster.Common.{
  ℕ, ◌^◌, ◌<◌, ◌≡◌, refl, Bool, true, false, inl, inr, Option, some, none, ◌∷◌, ◌++◌, contains,
  nat_beq, nat_eq, pair_eq, Bool-cases, if◌then◌else◌,
}
use lhcluster.Common.Int.{pos, negsuc, is_zero}
use lhcluster.Common.Assoc
use lhcluster.Common.Assoc.{lookup-update, lookup-erase}
use lhcluster.Cluster.{status_number, fatal_error}
use lhcluster.Wire.{Wire, Message}
use lhcluster.Wire.Envelope.{AllFilled}
use lhcluster.Broker.Parse.{RequestKey}
use lhcluster.Broker.Reading.{FitsWire, request_frames}
use lhcluster.Action.{
  returned, pure, gets, modify, continue, ◌>>=◌, ◌>>◌, next_answer, network_send,
}
use lhcluster.Worker.Requests.{
  finished_message, request_redirected, send_receipt, forward_request, handle_broker_new_request,
  take_response, finish_request, handle_processor_message,
}
use lhcluster.Worker.State.{
  Worker, processor_fatal_error, processor_inaccessable, messaging, request_processor,
  ClientRequestContext, WorkerRequestTypeContext, add_in_progress, request_has_finished, send,
  find_type_context, find_context, put_type_context, put_context, insert_context, erase_context,
  set_exit_state, update_worker_last_active, update_envelope, key,
}
use lhcluster.Worker.Service.{
  context_of, receipt_of, response_frames, handle_broker_new_request-forward,
  handle_processor_message-take,
}

abbrev pub is_fatal : ℕ → Bool
is_fatal status = nat_beq status (status_number fatal_error)

module _ {F : Type 0} where
  -- The receipt sent, if there is one.
  abbrev pub with_receipt : Option (Message F) → Worker F → Worker F
  with_receipt none s = s
  with_receipt (some m) s = record s { network = network_send messaging m s.network }

  -- The request handed to the processor, and known from now on.
  abbrev pub accepted :
      WorkerRequestTypeContext → ClientRequestContext F → Message F → Worker F → Worker F
  accepted types c body s = record s {
    network = network_send request_processor body s.network;
    request_type_contexts =
        Assoc.update c.request_type (add_in_progress c.request_id types) s.request_type_contexts;
    request_contexts = Assoc.emplace (key c) c s.request_contexts;
  }

  -- The request under another envelope and with other flags.
  abbrev pub redirected : ClientRequestContext F → ClientRequestContext F → Worker F → Worker F
  redirected old c s = record s {
    request_contexts =
        Assoc.update (key c) (record old { vfs = c.vfs; envelope = c.envelope }) s.request_contexts;
  }

  send_receipt_lem :
      (receipt : Option (Message F)) (s : Worker F)
      → (send_receipt receipt >> pure (pos 0)) s ≡ (returned (pos 0), with_receipt receipt s)
  unfolding send_receipt ◌>>=◌ gets modify continue send pure
  send_receipt_lem none s = refl
  send_receipt_lem (some m) s = refl

module _ {F : Type 0} ⦃w : Wire F⦄ where
  -- A request of a type that the worker serves, which it does not have yet and which the processor
  -- takes: the frames behind the envelope go to the processor as they are, the id is in progress, the
  -- context keeps the envelope, and the receipt goes to the broker if the request asks for it.
  pub handle_broker_new_request-accepted :
      (first : F) (env : Message F) (k : RequestKey) (rest : Message F) (s : Worker F)
      (types : WorkerRequestTypeContext)
      → AllFilled (first ∷ env)
      → FitsWire k
      → Assoc.lookup k.request_type s.request_type_contexts ≡ some types
      → Assoc.lookup (k.request_type, k.request_id) s.request_contexts ≡ none
      → is_zero (next_answer s.network) ≡ true
      → handle_broker_new_request (first ∷ env ++ w.null_frame ∷ request_frames k rest) s ≡ (
        returned (pos 0),
        with_receipt
            (receipt_of (first ∷ env) k)
            (accepted types (context_of (first ∷ env) k) (request_frames k rest) s),
      )
  unfolding forward_request request_redirected ◌>>=◌ gets modify continue find_context send pure
      put_type_context insert_context
  handle_broker_new_request-accepted first env k rest s types filled fits known missing sent =
      rw
        (
          handle_broker_new_request-forward first env k rest s types filled fits known,
          missing,
          continue,
          sent,
        )
        (send_receipt_lem (receipt_of (first ∷ env) k) _)

  -- A request that the worker has already is not given to the processor again: its context gets the
  -- new envelope and flags, and the receipt goes to the broker if the request asks for it.
  pub handle_broker_new_request-redirected :
      (first : F) (env : Message F) (k : RequestKey) (rest : Message F) (s : Worker F)
      (types : WorkerRequestTypeContext) (old : ClientRequestContext F)
      → AllFilled (first ∷ env)
      → FitsWire k
      → Assoc.lookup k.request_type s.request_type_contexts ≡ some types
      → Assoc.lookup (k.request_type, k.request_id) s.request_contexts ≡ some old
      → handle_broker_new_request (first ∷ env ++ w.null_frame ∷ request_frames k rest) s ≡ (
        returned (pos 0),
        with_receipt (receipt_of (first ∷ env) k) (redirected old (context_of (first ∷ env) k) s),
      )
  unfolding forward_request request_redirected ◌>>=◌ gets modify continue find_context send pure
      put_context update_envelope
  handle_broker_new_request-redirected first env k rest s types old filled fits known found =
      rw
        (
          handle_broker_new_request-forward first env k rest s types filled fits known,
          found,
          continue,
        )
        (send_receipt_lem (receipt_of (first ∷ env) k) _)

  -- A request that the processor cannot be given ends the worker, and leaves no trace in its records.
  pub handle_broker_new_request-inaccessable :
      (first : F) (env : Message F) (k : RequestKey) (rest : Message F) (s : Worker F)
      (types : WorkerRequestTypeContext)
      → AllFilled (first ∷ env)
      → FitsWire k
      → Assoc.lookup k.request_type s.request_type_contexts ≡ some types
      → Assoc.lookup (k.request_type, k.request_id) s.request_contexts ≡ none
      → is_zero (next_answer s.network) ≡ false
      → handle_broker_new_request (first ∷ env ++ w.null_frame ∷ request_frames k rest) s ≡ (
        returned (negsuc 0),
        record s {
          network = network_send request_processor (request_frames k rest) s.network;
          exit_state = processor_inaccessable;
        },
      )
  unfolding forward_request request_redirected ◌>>=◌ gets modify continue find_context send pure
      set_exit_state
  handle_broker_new_request-inaccessable first env k rest s types filled fits known missing failed =
      rw
        (
          handle_broker_new_request-forward first env k rest s types filled fits known,
          missing,
          continue,
          failed,
        )
        refl

  -- The response sent by the envelope of the request, which is forgotten.
  abbrev pub responded :
      WorkerRequestTypeContext
      → ClientRequestContext F
      → RequestKey
      → ℕ
      → Message F
      → Worker F
      → Worker F
  responded types c k status m s = record s {
    network = network_send messaging (finished_message c.envelope m) s.network;
    worker_last_active =
        if is_zero (next_answer s.network) then s.current_time else s.worker_last_active;
    request_type_contexts =
        Assoc.update k.request_type (request_has_finished k.request_id types)
          s.request_type_contexts;
    request_contexts = Assoc.erase (k.request_type, k.request_id) s.request_contexts;
    exit_state = if is_fatal status then processor_fatal_error else s.exit_state;
  }

  -- The response of the processor to a request in progress goes to the broker behind the envelope of
  -- the request, and the request is forgotten, whether the response could be sent or not. A fatal
  -- status ends the worker; otherwise the result is that of `Send`.
  pub handle_processor_message-responded :
      (k : RequestKey) (status : ℕ) (rest : Message F) (s : Worker F)
      (types : WorkerRequestTypeContext) (c : ClientRequestContext F)
      → FitsWire k
      → status < 2 ^ 32
      → Assoc.lookup k.request_type s.request_type_contexts ≡ some types
      → Assoc.lookup (k.request_type, k.request_id) s.request_contexts ≡ some c
      → contains types.in_progress_requests k.request_id ≡ true
      → handle_processor_message (response_frames k status rest) s ≡ (
        returned (if is_fatal status then negsuc 0 else next_answer s.network),
        responded types c k status (response_frames k status rest) s,
      )
  unfolding take_response finish_request ◌>>=◌ gets modify continue send pure find_type_context
      find_context put_type_context erase_context set_exit_state update_worker_last_active
  handle_processor_message-responded k status rest s types c fits small known found there =
      elim (Bool-cases (is_zero (next_answer s.network))) [
        | inl sent ↦ elim (Bool-cases (is_fatal status)) [
          | inl fatal ↦
              rw
                (
                  handle_processor_message-take k status rest s fits small,
                  known,
                  found,
                  continue,
                  there,
                  sent,
                  continue,
                  fatal,
                )
                refl
          | inr other ↦
              rw
                (
                  handle_processor_message-take k status rest s fits small,
                  known,
                  found,
                  continue,
                  there,
                  sent,
                  continue,
                  other,
                )
                refl
        ]
        | inr failed ↦ elim (Bool-cases (is_fatal status)) [
          | inl fatal ↦
              rw
                (
                  handle_processor_message-take k status rest s fits small,
                  known,
                  found,
                  continue,
                  there,
                  failed,
                  continue,
                  fatal,
                )
                refl
          | inr other ↦
              rw
                (
                  handle_processor_message-take k status rest s fits small,
                  known,
                  found,
                  continue,
                  there,
                  failed,
                  continue,
                  other,
                )
                refl
        ]
      ]
