-- ===== src/Tests/Workers.antt =====
-- The worker of liblhcluster/src/worker.cxx and its processor, at small examples.
use lhcluster.Common.{ℕ, ◌≡◌, refl, [], ◌∷◌, some, contains, arith, true, nat_eq, pair_eq}
use lhcluster.Common.Int.{ℤ, pos, negsuc, ◌+ℤ◌}
use lhcluster.Common.Assoc
use lhcluster.Cluster.{message_number}
use lhcluster.Wire.Envelope.{AllFilled}
use lhcluster.Wire.Plain.{PlainFrame, plain_wire, peer}
use lhcluster.Broker.Parse.{parsed, parse_worker_finished, parse_worker_ready}
use lhcluster.Broker.Reading.{request_frames}
use lhcluster.Broker.Worker.{handle_worker_finished, handle_worker_ready}
use lhcluster.Broker.Reactor.{handle_backend_message}
use lhcluster.Action.{returned, Network, next_answer, network_send}
use lhcluster.Worker.State.{
  Worker, ClientRequestContext, WorkerRequestTypeContext, new_worker, request_processor, no_exit,
  processor_inaccessable,
}
use lhcluster.Worker.Messages.{ready_frames, ready_message, free_capacity, default_flags}
use lhcluster.Worker.Requests.{finished_message, handle_broker_new_request}
use lhcluster.Worker.Service.{response_frames, context_of, receipt_of}
use lhcluster.Worker.Outcomes.{handle_broker_new_request-inaccessable}
use lhcluster.Worker.Journey.{
  after_request, after_response, receipt_sent, IsAnswered, redirect-response,
}
use lhcluster.Worker.Broker.{
  handle_backend_message-finished_message, handle_backend_message-ready_message,
}
use lhcluster.Worker.Life.{free_capacity-in_progress_count, handle_broker_message-heartbeat_frames}
use lhcluster.Worker.Messages.{heartbeat_frames}
use lhcluster.Worker.Handlers.{IsTracking}
use lhcluster.Worker.Invariant.{start_as_primary-IsTracking}
use lhcluster.Worker.Reactor.{
  Round, broker_message, pulse_timer, start_as_primary, handle_broker_message,
}
use lhcluster.Worker.Rounds.{IsSilent, dead_at, sent_messages, start_as_primary-silent}
use lhcluster.Processor
use lhcluster.Processor.{Process, handle_request}
use lhcluster.Processor.Served.{request-handler-response}
use lhcluster.Tests.Data
use lhcluster.Tests.Messages.{key-FitsWire}

abbrev network_of : {K : Type 0} → (ℕ → ℤ) → Network K PlainFrame
network_of answers = record { answers = answers; calls = [] }

-- A worker for requests of type 3.
abbrev idle : (ℕ → ℤ) → Worker PlainFrame
idle answers = record {
  supported_request_types = 3 ∷ [];
  capacity = 1;
  exit_state = no_exit;
  broker_heartbeat_delay = pos 7;
  self_heartbeat_delay = pos 5;
  broker_death_delay = pos 10;
  broker_last_active = pos 0;
  worker_last_active = pos 0;
  current_time = pos 100;
  request_type_contexts = (3, record { request_type = 3; in_progress_requests = [] }) ∷ [];
  request_contexts = [];
  network = network_of answers;
}

-- A request of the client `peer 1`, by the proxy `peer 2`.
abbrev old_context : ClientRequestContext PlainFrame
old_context = context_of (peer 2 ∷ peer 1 ∷ []) Data.key

abbrev busy_types : WorkerRequestTypeContext
busy_types = record { request_type = 3; in_progress_requests = 9 ∷ [] }

abbrev busy : Worker PlainFrame
busy = record (idle (Data.always (pos 0))) {
  request_type_contexts = (3, busy_types) ∷ [];
  request_contexts = ((3, 9), old_context) ∷ [];
}

new_env-AllFilled : AllFilled (peer 5 ∷ peer 1 ∷ [])
new_env-AllFilled = (omega arith, (omega arith, tt))

redirect-response_example :
    let s₁ = after_request (peer 5 ∷ peer 1 ∷ []) Data.key Data.data_frames busy in
    (s₁.network ≡ receipt_sent (receipt_of (peer 5 ∷ peer 1 ∷ []) Data.key) busy.network)
    × IsAnswered
        (peer 5 ∷ peer 1 ∷ [])
        Data.key
        3
        Data.data_frames
        s₁
        (after_response Data.key 3 Data.data_frames s₁)
unfolding Assoc.lookup contains
redirect-response_example =
    redirect-response (peer 5) (peer 1 ∷ []) Data.key Data.data_frames Data.data_frames 3 busy
      busy_types old_context new_env-AllFilled key-FitsWire (omega arith) refl refl refl

-- A handler that answers with status 3 and the frames of the request.
abbrev echo : Process PlainFrame
echo vfs type id rest = (3, rest)

request-handler-response_example :
    let s₁ =
      after_request (peer 5 ∷ peer 1 ∷ []) Data.key Data.data_frames (idle (Data.always (pos 0))) in
    (s₁.network
      ≡ receipt_sent (receipt_of (peer 5 ∷ peer 1 ∷ []) Data.key) (
          network_send request_processor
            (request_frames Data.key Data.data_frames)
            (network_of (Data.always (pos 0)))))
    × (handle_request echo
          (request_frames Data.key Data.data_frames)
          (network_of (Data.always (pos 0)))
        ≡ (
          returned (pos 0),
          network_send Processor.self_messaging
              (response_frames Data.key 3 Data.data_frames)
              (network_of (Data.always (pos 0))),
        ))
    × IsAnswered
        (peer 5 ∷ peer 1 ∷ [])
        Data.key
        3
        Data.data_frames
        s₁
        (after_response Data.key 3 Data.data_frames s₁)
unfolding Assoc.lookup next_answer
request-handler-response_example =
    request-handler-response echo (peer 5) (peer 1 ∷ []) Data.key Data.data_frames
      (idle (Data.always (pos 0))) (record { request_type = 3; in_progress_requests = [] })
      (network_of (Data.always (pos 0))) new_env-AllFilled key-FitsWire (omega arith) refl refl refl

handle_broker_new_request-inaccessable_example :
    handle_broker_new_request
      (peer 5 ∷ peer 1 ∷ [] ∷ request_frames Data.key Data.data_frames)
      (idle (Data.always Data.failing))
    ≡ (
      returned (negsuc 0),
      record (idle (Data.always Data.failing)) {
        network =
            network_send request_processor
              (request_frames Data.key Data.data_frames)
              (network_of (Data.always Data.failing));
        exit_state = processor_inaccessable;
      },
    )
unfolding Assoc.lookup next_answer
handle_broker_new_request-inaccessable_example =
    handle_broker_new_request-inaccessable (peer 5) (peer 1 ∷ []) Data.key Data.data_frames
      (idle (Data.always Data.failing)) (record { request_type = 3; in_progress_requests = [] })
      new_env-AllFilled key-FitsWire refl refl refl

handle_backend_message-finished_message_example :
    let body = peer 5 ∷ peer 1 ∷ [] ∷ (1 ∷ 7 ∷ []) ∷ request_frames Data.key Data.data_frames in
    (handle_backend_message (
        peer 7 ∷ finished_message (peer 5 ∷ peer 1 ∷ []) (request_frames Data.key Data.data_frames))
      ≡ handle_worker_finished (peer 7) body)
    × (parse_worker_finished body ≡ parsed Data.key)
handle_backend_message-finished_message_example =
    handle_backend_message-finished_message (peer 7) (peer 5) (peer 1 ∷ []) Data.key
      Data.data_frames (omega arith) new_env-AllFilled key-FitsWire

handle_backend_message-ready_message_example :
    let s = idle (Data.always (pos 0)) in
    let free = free_capacity s.capacity s.request_type_contexts in
    let body = ready_frames {F = PlainFrame} free (pos 5) (3 ∷ []) in
    (handle_backend_message (peer 7 ∷ ready_message s) ≡ handle_worker_ready (peer 7) body)
    × (parse_worker_ready body
        ≡ parsed (record {
          ready_flags = default_flags;
          free_capacity = pos free;
          send_delay = pos 0;
          types = 3 ∷ [];
        }))
unfolding free_capacity
handle_backend_message-ready_message_example =
    handle_backend_message-ready_message (peer 7) (idle (Data.always (pos 0))) 3 [] (omega arith)
      refl (omega arith, tt) (omega arith)

handle_broker_message-heartbeat_frames_example :
    handle_broker_message (heartbeat_frames 5 (pos 99) (pos 30)) (idle (Data.always (pos 0)))
    ≡ (returned (pos 0), record (idle (Data.always (pos 0))) { broker_heartbeat_delay = pos 0 })
unfolding message_number
handle_broker_message-heartbeat_frames_example =
    handle_broker_message-heartbeat_frames (pos 99) (pos 30) (idle (Data.always (pos 0)))

free_capacity-in_progress_count_example : free_capacity 1 ((3, busy_types) ∷ []) ≡ 0
free_capacity-in_progress_count_example =
    free_capacity-in_progress_count 1 ((3, busy_types) ∷ []) (omega arith) (omega arith)

-- A round in which the broker sends a request, then is silent.
abbrev serving : Round PlainFrame
serving = record {
  starts_at = pos 1;
  setup_failures = 0;
  ready_at = pos 1;
  events =
      broker_message (pos 2)
        (some ([] ∷ (1 ∷ 6 ∷ []) ∷ peer 5 ∷ [] ∷ request_frames Data.key Data.data_frames))
      ∷ pulse_timer (pos 200)
      ∷ [];
  ends_at = pos 200;
}

start_as_primary-IsTracking_example :
    IsTracking
      (start_as_primary
        (serving ∷ serving ∷ [])
        (new_worker (3 ∷ []) (pos 5) (pos 7) (pos 0) (network_of (Data.always (pos 0))))).1
start_as_primary-IsTracking_example =
    start_as_primary-IsTracking (3 ∷ []) (pos 5) (pos 7) (pos 0) (network_of (Data.always (pos 0)))
      (serving ∷ serving ∷ [])

abbrev silent : Round PlainFrame
silent = record serving { events = pulse_timer (pos 200) ∷ [] }

silent-IsSilent : IsSilent (dead_at (idle (Data.always (pos 0)))) silent
unfolding ◌+ℤ◌
silent-IsSilent = record { at = pos 200; later = []; set_up = refl; woken = refl; late = refl }

start_as_primary-silent_example :
    let s = idle (Data.always (pos 0)) in
    ((start_as_primary (silent ∷ silent ∷ []) s).0 ≡ returned true)
    × (sent_messages (start_as_primary (silent ∷ silent ∷ []) s).1
        ≡ ready_message s ∷ ready_message s ∷ [])
start_as_primary-silent_example =
    start_as_primary-silent (silent ∷ silent ∷ []) (idle (Data.always (pos 0)))
      (silent-IsSilent, (silent-IsSilent, tt)) (λ n. refl)
