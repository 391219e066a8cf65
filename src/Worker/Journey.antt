-- ===== src/Worker/Journey.antt =====
-- Two messages one after the other at the worker of liblhcluster/src/worker.cxx: a request, and what
-- becomes of its response.
use lhcluster.Common.{
  ℕ, ◌^◌, ◌<◌, ◌≡◌, refl, ◌∙◌, true, Option, some, none, ◌∷◌, ◌++◌, contains, contains-add, nat_eq,
  pair_eq, eq_refl,
}
use lhcluster.Common.Int.{is_zero}
use lhcluster.Common.Assoc
use lhcluster.Common.Assoc.{lookup-update, lookup-emplace, lookup-erase}
use lhcluster.Wire.{Wire, Message}
use lhcluster.Wire.Envelope.{AllFilled}
use lhcluster.Broker.Parse.{RequestKey}
use lhcluster.Broker.Reading.{FitsWire, request_frames}
use lhcluster.Action.{Network, next_answer, network_send}
use lhcluster.Worker.Requests.{
  finished_message, handle_broker_new_request, handle_processor_message,
}
use lhcluster.Worker.State.{
  Worker, Socket, messaging, request_processor, ClientRequestContext, WorkerRequestTypeContext,
  add_in_progress,
}
use lhcluster.Worker.Service.{context_of, receipt_of, response_frames}
use lhcluster.Worker.Outcomes.{
  with_receipt, accepted, redirected, handle_broker_new_request-accepted,
  handle_broker_new_request-redirected, handle_processor_message-responded,
}

module _ {F : Type 0} where
  receipt_keeps :
      (receipt : Option (Message F)) (s : Worker F)
      → ((with_receipt receipt s).request_type_contexts ≡ s.request_type_contexts)
        × ((with_receipt receipt s).request_contexts ≡ s.request_contexts)
  receipt_keeps none s = (refl, refl)
  receipt_keeps (some m) s = (refl, refl)

  -- The calls of `Send` after the receipt, if there is one: it is the last call.
  abbrev pub receipt_sent : Option (Message F) → Network Socket F → Network Socket F
  receipt_sent none n = n
  receipt_sent (some m) n = network_send messaging m n

  receipt_network :
      (receipt : Option (Message F)) (s : Worker F)
      → (with_receipt receipt s).network ≡ receipt_sent receipt s.network
  receipt_network none s = refl
  receipt_network (some m) s = refl

module _ {F : Type 0} ⦃w : Wire F⦄ where
  -- The worker after a request.
  abbrev pub after_request : Message F → RequestKey → Message F → Worker F → Worker F
  after_request env k rest s =
      (handle_broker_new_request (env ++ w.null_frame ∷ request_frames k rest) s).1

  -- The worker after a response.
  abbrev pub after_response : RequestKey → ℕ → Message F → Worker F → Worker F
  after_response k status rest s = (handle_processor_message (response_frames k status rest) s).1

  -- The last call of `Send` carried the response by this envelope, and the request is forgotten.
  pub record IsAnswered (env : Message F) (k : RequestKey) (status : ℕ) (rest : Message F)
      (s s₁ : Worker F) : Type 0 where
    pub calls :
        s₁.network.calls
        ≡ record {
          socket = messaging;
          message = finished_message env (response_frames k status rest);
          result = next_answer s.network;
        }
          ∷ s.network.calls
    pub forgotten : Assoc.lookup (k.request_type, k.request_id) s₁.request_contexts ≡ none

  answered :
      (k : RequestKey) (status : ℕ) (rest : Message F) (s : Worker F)
      (types : WorkerRequestTypeContext) (c : ClientRequestContext F)
      → FitsWire k
      → status < 2 ^ 32
      → Assoc.lookup k.request_type s.request_type_contexts ≡ some types
      → Assoc.lookup (k.request_type, k.request_id) s.request_contexts ≡ some c
      → contains types.in_progress_requests k.request_id ≡ true
      → IsAnswered c.envelope k status rest s (after_response k status rest s)
  unfolding network_send
  answered k status rest s types c fits small known found there =
      rw
        (
          after_response,
          handle_processor_message-responded k status rest s types c fits small known found there,
        )
        (record {
          calls = refl;
          forgotten =
              let id : ℕ × ℕ = (k.request_type, k.request_id) in
              lookup-erase id id s.request_contexts ∙ rw (eq_refl id) refl;
        })

  -- A request that the worker takes is handed to the processor with the frames behind its envelope, and
  -- nothing else is sent but the receipt that it asks for. It is answered by its own envelope, with the
  -- frames of the response as the processor gave them, and is then forgotten.
  pub request-response :
      (first : F) (env : Message F) (k : RequestKey) (data_frames answer : Message F) (status : ℕ)
      (s : Worker F) (types : WorkerRequestTypeContext)
      → AllFilled (first ∷ env)
      → FitsWire k
      → status < 2 ^ 32
      → Assoc.lookup k.request_type s.request_type_contexts ≡ some types
      → Assoc.lookup (k.request_type, k.request_id) s.request_contexts ≡ none
      → is_zero (next_answer s.network) ≡ true
      → let s₁ = after_request (first ∷ env) k data_frames s in
        (s₁.network
          ≡ receipt_sent
              (receipt_of (first ∷ env) k)
              (network_send request_processor (request_frames k data_frames) s.network))
        × IsAnswered (first ∷ env) k status answer s₁ (after_response k status answer s₁)
  unfolding add_in_progress
  request-response first env k data_frames answer status s types filled fits small known missing
        sent =
      let c : ClientRequestContext F = context_of (first ∷ env) k in
      let receipt = receipt_of (first ∷ env) k in
      let s₁ = accepted types c (request_frames k data_frames) s in
      let id : ℕ × ℕ = (k.request_type, k.request_id) in
      let e =
        handle_broker_new_request-accepted first env k data_frames s types filled fits known missing
          sent in
      let kept = receipt_keeps receipt s₁ in
      rw (after_request, e)
        (
          receipt_network receipt s₁,
          answered k status answer (with_receipt receipt s₁) (add_in_progress k.request_id types) c
              fits small
              (rw kept.0 (
                lookup-update k.request_type k.request_type (add_in_progress k.request_id types)
                  s.request_type_contexts
                ∙ rw (known, eq_refl k.request_type) refl))
              (rw kept.1
                (lookup-emplace id id c s.request_contexts ∙ rw (missing, eq_refl id) refl))
              (contains-add k.request_id k.request_id types.in_progress_requests
                ∙ rw (eq_refl k.request_id) refl),
        )

  -- A request that the broker sends again, by another envelope, while the processor has it: the worker
  -- sends the receipt that it asks for and nothing else, so that the processor does not get it again;
  -- and the processor's response goes by the new envelope, and not by the old one.
  pub redirect-response :
      (first : F) (env : Message F) (k : RequestKey) (data_frames answer : Message F) (status : ℕ)
      (s : Worker F) (types : WorkerRequestTypeContext) (old : ClientRequestContext F)
      → AllFilled (first ∷ env)
      → FitsWire k
      → status < 2 ^ 32
      → Assoc.lookup k.request_type s.request_type_contexts ≡ some types
      → Assoc.lookup (k.request_type, k.request_id) s.request_contexts ≡ some old
      → contains types.in_progress_requests k.request_id ≡ true
      → let s₁ = after_request (first ∷ env) k data_frames s in
        (s₁.network ≡ receipt_sent (receipt_of (first ∷ env) k) s.network)
        × IsAnswered (first ∷ env) k status answer s₁ (after_response k status answer s₁)
  redirect-response first env k data_frames answer status s types old filled fits small known found
        there =
      let c : ClientRequestContext F = context_of (first ∷ env) k in
      let receipt = receipt_of (first ∷ env) k in
      let s₁ = redirected old c s in
      let id : ℕ × ℕ = (k.request_type, k.request_id) in
      let new : ClientRequestContext F = record old { vfs = c.vfs; envelope = c.envelope } in
      let e =
        handle_broker_new_request-redirected first env k data_frames s types old filled fits known
          found in
      let kept = receipt_keeps receipt s₁ in
      rw (after_request, e)
        (
          receipt_network receipt s₁,
          answered k status answer (with_receipt receipt s₁) types new fits small (rw kept.0 known)
              (rw kept.1 (lookup-update id id new s.request_contexts ∙ rw (found, eq_refl id) refl))
              there,
        )
