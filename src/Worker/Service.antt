-- ===== src/Worker/Service.antt =====
-- A request's way through the worker of liblhcluster/src/worker.cxx: from the broker to the processor,
-- and the response back, by the envelope of the latest request.
use lhcluster.Common.{
  ℕ, ◌^◌, ◌<◌, ◌≡◌, refl, Option, some, none, ◌∷◌, ◌++◌, nat_eq, pair_eq, arith, if◌then◌else◌,
}
use lhcluster.Common.Assoc
use lhcluster.Common.Assoc.{lookup-update, lookup-emplace, lookup-erase}
use lhcluster.Cluster.{has_any}
use lhcluster.Cluster.MessageFlag
use lhcluster.Wire.{Wire, Message}
use lhcluster.Wire.Envelope.{AllFilled, pop_envelope-append}
use lhcluster.Broker.Parse.{RequestKey, parsed}
use lhcluster.Broker.Reading.{FitsWire, request_frames}
use lhcluster.Action.{gets, continue, ◌>>=◌, with_fields}
use lhcluster.Worker.Parse.{parse_request_head, parse_request_id, parse_response}
use lhcluster.Worker.Requests.{
  receipt_message, forward_request, handle_broker_new_request, take_request, take_response,
  handle_processor_message, new_context,
}
use lhcluster.Worker.State.{
  Worker, ClientRequestContext, WorkerRequestTypeContext, find_type_context,
}

module _ {F : Type 0} ⦃w : Wire F⦄ where
  abbrev pub context_of : Message F → RequestKey → ClientRequestContext F
  context_of env k = record {
    request_type = k.request_type;
    request_id = k.request_id;
    vfs = k.vfs;
    envelope = env;
  }

  abbrev pub receipt_of : Message F → RequestKey → Option (Message F)
  receipt_of env k =
      if has_any k.vfs MessageFlag.receipt_on_receive
      then some (receipt_message env (w.put_u32 k.request_type) (w.put_u64 k.request_id))
      else none

  head_lem :
      (first : F) (env : Message F) (k : RequestKey) (rest : Message F)
      → AllFilled (first ∷ env)
      → FitsWire k
      → parse_request_head (first ∷ env ++ w.null_frame ∷ request_frames k rest)
        ≡ parsed (record {
          envelope = first ∷ env;
          vfs = k.vfs;
          body = request_frames k rest;
          type_frame = w.put_u32 k.request_type;
          request_type = k.request_type;
          behind = w.put_u64 k.request_id ∷ rest;
        })
  unfolding parse_request_head
  head_lem first env k rest filled fits =
      rw (pop_envelope-append (first ∷ env) (request_frames k rest) filled) (
        ground (
          arith,
          filled.0,
          w.get_vfs-put_vfs k.vfs fits.0 fits.1 fits.2,
          w.get_u32-put_u32 k.request_type fits.3,
          w.size-put_vfs k.vfs,
          w.size-put_u32 k.request_type,
        ))

  id_lem :
      (k : RequestKey) (rest : Message F)
      → FitsWire k
      → parse_request_id (w.put_u64 k.request_id ∷ rest)
        ≡ parsed (w.put_u64 k.request_id, k.request_id)
  unfolding parse_request_id
  id_lem k rest fits =
      ground (arith, w.get_u64-put_u64 k.request_id fits.4, w.size-put_u64 k.request_id)

  -- A well-formed request of a type that the worker serves is handed on with its context.
  pub handle_broker_new_request-forward :
      (first : F) (env : Message F) (k : RequestKey) (rest : Message F) (s : Worker F)
      (types : WorkerRequestTypeContext)
      → AllFilled (first ∷ env)
      → FitsWire k
      → Assoc.lookup k.request_type s.request_type_contexts ≡ some types
      → handle_broker_new_request (first ∷ env ++ w.null_frame ∷ request_frames k rest) s
        ≡ forward_request types
            (context_of (first ∷ env) k)
            (request_frames k rest)
            (receipt_of (first ∷ env) k)
            s
  unfolding handle_broker_new_request take_request with_fields ◌>>=◌ find_type_context gets
      new_context
  handle_broker_new_request-forward first env k rest s types filled fits known =
      rw (head_lem first env k rest filled fits, known, continue, id_lem k rest fits) refl

  -- The frames of a processor's response.
  abbrev pub response_frames : RequestKey → ℕ → Message F → Message F
  response_frames k status rest = request_frames k (w.put_u32 status ∷ rest)

  response_lem :
      (k : RequestKey) (status : ℕ) (rest : Message F)
      → FitsWire k
      → status < 2 ^ 32
      → parse_response (response_frames k status rest) ≡ parsed (k, status)
  unfolding parse_response
  response_lem k status rest fits small = ground (
    arith,
    w.get_vfs-put_vfs k.vfs fits.0 fits.1 fits.2,
    w.get_u32-put_u32 k.request_type fits.3,
    w.get_u64-put_u64 k.request_id fits.4,
    w.get_u32-put_u32 status small,
    w.size-put_vfs k.vfs,
    w.size-put_u32 k.request_type,
    w.size-put_u64 k.request_id,
    w.size-put_u32 status,
  )

  pub handle_processor_message-take :
      (k : RequestKey) (status : ℕ) (rest : Message F) (s : Worker F)
      → FitsWire k
      → status < 2 ^ 32
      → handle_processor_message (response_frames k status rest) s
        ≡ take_response k.request_type k.request_id status (response_frames k status rest) s
  unfolding handle_processor_message with_fields
  handle_processor_message-take k status rest s fits small =
      rw (response_lem k status rest fits small) refl
