-- ===== src/Processor/Served.antt =====
-- A request through the worker and the processor, and back: liblhcluster/src/requestprocessor.cxx and
-- liblhcluster/src/worker.cxx.
use lhcluster.Common.{ℕ, ◌^◌, ◌<◌, ◌≡◌, refl, some, none, ◌∷◌, arith, true, nat_eq, pair_eq}
use lhcluster.Common.Int.{is_zero}
use lhcluster.Common.Assoc
use lhcluster.Wire.{Wire, Message}
use lhcluster.Wire.Envelope.{AllFilled}
use lhcluster.Broker.Parse.{RequestKey, parsed}
use lhcluster.Broker.Reading.{FitsWire, request_frames}
use lhcluster.Action.{
  transmit, returned, pure, gets, modify, value, with_fields, continue, ◌>>=◌, Network, next_answer,
  network_send,
}
use lhcluster.Worker.State.{Worker, request_processor, WorkerRequestTypeContext}
use lhcluster.Worker.Service.{response_frames, receipt_of}
use lhcluster.Worker.Journey.{
  after_request, after_response, receipt_sent, IsAnswered, request-response,
}
use lhcluster.Processor.Parse.{parse_request_frames}
use lhcluster.Processor.{Process, Socket, self_messaging, handle_request, response_message}

module _ {F : Type 0} ⦃w : Wire F⦄ where
  frames_lem :
      (k : RequestKey) (rest : Message F)
      → parse_request_frames (request_frames k rest)
        ≡ parsed (record {
          vfs_frame = w.put_vfs k.vfs;
          type_frame = w.put_u32 k.request_type;
          id_frame = w.put_u64 k.request_id;
          data_frames = rest;
        })
  unfolding parse_request_frames
  frames_lem k rest =
      ground
        (arith, w.size-put_vfs k.vfs, w.size-put_u32 k.request_type, w.size-put_u64 k.request_id)

  -- What the handler makes of a request.
  abbrev pub answer_of : Process F → RequestKey → Message F → ℕ × Message F
  answer_of process k rest = process k.vfs k.request_type k.request_id rest

  -- The processor answers a request with the request's own key, the handler's status and the handler's
  -- frames.
  pub handle_request-response_frames :
      (process : Process F) (k : RequestKey) (rest : Message F) (n : Network Socket F)
      → FitsWire k
      → let answer = answer_of process k rest in
        handle_request process (request_frames k rest) n ≡ (
          returned (next_answer n),
          network_send self_messaging (response_frames k answer.0 answer.1) n,
        )
  unfolding handle_request transmit with_fields ◌>>=◌ value gets modify pure response_message
  handle_request-response_frames process k rest n fits =
      rw
        (
          frames_lem k rest,
          w.get_vfs-put_vfs k.vfs fits.0 fits.1 fits.2,
          w.get_u32-put_u32 k.request_type fits.3,
          w.get_u64-put_u64 k.request_id fits.4,
          continue,
        )
        refl

  -- A request of the broker that the worker takes comes back to the broker with what the handler makes
  -- of its frames, by the request's envelope and under its key, whatever the handler is: the worker
  -- sends the request's frames to the processor, and nothing else but a receipt; the processor, given
  -- these frames, sends the response; and the worker, given it, sends it on and forgets the request.
  pub request-handler-response :
      (process : Process F) (first : F) (env : Message F) (k : RequestKey) (rest : Message F)
      (s : Worker F) (types : WorkerRequestTypeContext) (n : Network Socket F)
      → AllFilled (first ∷ env)
      → FitsWire k
      → (answer_of process k rest).0 < 2 ^ 32
      → Assoc.lookup k.request_type s.request_type_contexts ≡ some types
      → Assoc.lookup (k.request_type, k.request_id) s.request_contexts ≡ none
      → is_zero (next_answer s.network) ≡ true
      → let answer = answer_of process k rest in
        let s₁ = after_request (first ∷ env) k rest s in
        (s₁.network
          ≡ receipt_sent
              (receipt_of (first ∷ env) k)
              (network_send request_processor (request_frames k rest) s.network))
        × (handle_request process (request_frames k rest) n ≡ (
          returned (next_answer n),
          network_send self_messaging (response_frames k answer.0 answer.1) n,
        ))
        × IsAnswered (first ∷ env) k answer.0 answer.1 s₁ (after_response k answer.0 answer.1 s₁)
  request-handler-response process first env k rest s types n filled fits small known missing sent =
      let served =
        request-response first env k rest (answer_of process k rest).1 (answer_of process k rest).0
          s types filled fits small known missing sent in
      (served.0, handle_request-response_frames process k rest n fits, served.1)
