-- ===== src/Worker/Broker.antt =====
-- The worker's messages (liblhcluster/src/worker.cxx) as the broker reads them
-- (liblhcluster/src/broker.cxx), and the broker's heartbeat as the worker reads it.
use lhcluster.Common.{ℕ, ◌^◌, ◌<◌, ◌≡◌, refl, List, [], ◌∷◌, ◌++◌, map, arith}
use lhcluster.Common.Int.{pos}
use lhcluster.Cluster.{message_of, message_number}
use lhcluster.Wire.{Wire, Message}
use lhcluster.Wire.Envelope.{AllFilled, envelope_split}
use lhcluster.Broker.Parse.{
  RequestKey, parsed, parse_worker_finished, parse_worker_ready, parse_request_types,
}
use lhcluster.Broker.Reading.{FitsWire, request_frames, handle_backend_message-dispatch}
use lhcluster.Broker.Worker.{handle_worker_finished, handle_worker_ready}
use lhcluster.Broker.Reactor.{handle_backend_message, dispatch_backend}
use lhcluster.Worker.Messages.{ready_frames, ready_message, free_capacity, default_flags}
use lhcluster.Worker.Requests.{finished_message}
use lhcluster.Worker.State.{Worker}

-- A list of request types, each of 32 bits.
abbrev pub AreTypes : List ℕ → Type 0
AreTypes [] = Unit {0}
AreTypes (t ∷ ts) = (t < 2 ^ 32) × AreTypes ts

parse_request_types-map :
    {F : Type 0} (w : Wire F) (ts : List ℕ)
    → AreTypes ts
    → parse_request_types ⦃w = w⦄ (map w.put_u32 ts) ≡ parsed ts
unfolding parse_request_types
parse_request_types-map w [] h = refl
parse_request_types-map w (t ∷ ts) h =
    ground (arith, w.get_u32-put_u32 t h.0, w.size-put_u32 t, parse_request_types-map w ts h.1)

module _ {F : Type 0} ⦃w : Wire F⦄ where
  -- The broker hands a worker's response to `handleWorkerFinished`, which finds the key of the request
  -- in it, and behind the envelope the type of message that the client is to read.
  pub handle_backend_message-finished_message :
      (identity first : F) (env : Message F) (k : RequestKey) (rest : Message F)
      → 0 < w.size identity
      → AllFilled (first ∷ env)
      → FitsWire k
      → let body = first ∷ env ++ w.null_frame ∷ w.put_u32 7 ∷ request_frames k rest in
        (handle_backend_message (identity ∷ finished_message (first ∷ env) (request_frames k rest))
          ≡ handle_worker_finished identity body)
        × (parse_worker_finished body ≡ parsed k)
  unfolding finished_message message_number parse_worker_finished dispatch_backend message_of
  handle_backend_message-finished_message identity first env k rest known filled fits = (
    handle_backend_message-dispatch identity 3 _ known (omega arith),
    rw ((envelope_split (first ∷ env) (w.put_u32 7 ∷ request_frames k rest) filled).2) (
        ground (
          arith,
          filled.0,
          w.size-put_u32 7,
          w.get_vfs-put_vfs k.vfs fits.0 fits.1 fits.2,
          w.get_u32-put_u32 k.request_type fits.3,
          w.get_u64-put_u64 k.request_id fits.4,
          w.size-put_vfs k.vfs,
          w.size-put_u32 k.request_type,
          w.size-put_u64 k.request_id,
        )),
  )

  -- The broker hands the ready message of a worker that serves at least one type to
  -- `handleWorkerReady`, which reads the capacity and the types as they were sent. The delay is lost:
  -- it is written as a time and read as an `int`, as 0.
  pub handle_backend_message-ready_message :
      (identity : F) (s : Worker F) (t : ℕ) (ts : List ℕ)
      → 0 < w.size identity
      → s.supported_request_types ≡ t ∷ ts
      → AreTypes (t ∷ ts)
      → free_capacity s.capacity s.request_type_contexts < 2 ^ 31
      → let free = free_capacity s.capacity s.request_type_contexts in
        let body = ready_frames {F = F} free s.self_heartbeat_delay (t ∷ ts) in
        (handle_backend_message (identity ∷ ready_message s) ≡ handle_worker_ready identity body)
        × (parse_worker_ready body
            ≡ parsed (record {
              ready_flags = default_flags;
              free_capacity = pos free;
              send_delay = pos 0;
              types = t ∷ ts;
            }))
  unfolding ready_message message_number dispatch_backend message_of parse_worker_ready ready_frames
  handle_backend_message-ready_message identity s t ts known served fits small = (
    rw served (handle_backend_message-dispatch identity 2 _ known (omega arith)),
    ground (
      arith,
      parse_request_types-map w (t ∷ ts) fits,
      w.size-put_vfs default_flags,
      w.get_vfs-put_vfs default_flags (omega arith) (omega arith) (omega arith),
      w.size-put_u32 (free_capacity s.capacity s.request_type_contexts),
      w.get_i32-put_u32 (free_capacity s.capacity s.request_type_contexts) small,
      w.size-put_time s.self_heartbeat_delay,
      w.get_i32-put_time s.self_heartbeat_delay,
    ),
  )
