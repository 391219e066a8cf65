-- ===== src/Tests/Messages.antt =====
-- Requests and messages of broker.cxx, at small brokers.
use lhcluster.Common.{◌≡◌, refl, some, [], ◌∷◌, ◌++◌, arith}
use lhcluster.Common.Int.{pos}
use lhcluster.Common.Assoc
use lhcluster.Cluster.{has_any, status_number}
use lhcluster.Wire.Plain.{PlainFrame, plain_wire, plain_beq, peer}
use lhcluster.Context
use lhcluster.Broker.State.{Broker, returned, frontend, backend}
use lhcluster.Broker.Reactor.{handle_frontend_message}
use lhcluster.Wire.Envelope.{AllFilled}
use lhcluster.Broker.Parse.{RequestKey, parsed, parse_client_request}
use lhcluster.Broker.Replies.{request_header}
use lhcluster.Broker.Forward.{for_worker, forward_pending}
use lhcluster.Broker.Client.{handle_client_request}
use lhcluster.Broker.Reading.{
  FitsWire, request_frames, parse_client_request-request_frames, request_header-request_frames,
}
use lhcluster.Broker.Requests.{
  after_sending, with_context, handle_client_request-duplicate, handle_client_request-failed_send,
}
use lhcluster.WorkerInfo
use lhcluster.Broker.Undo.{forward_pending-failed}
use lhcluster.Broker.Dispatch.{handle_frontend_message-handled}
use lhcluster.Broker.State.{pure, continue}
use lhcluster.Broker.Replies.{handle_client_heartbeat}
use lhcluster.Wire.{Message}
use lhcluster.Broker.Waiting.{waits, handle_client_request-waits}
use lhcluster.WorkerInfo.{WorkerInfo}
use lhcluster.Tests.Data

filled_env : AllFilled Data.client_env
filled_env = (omega arith, tt)

pub key-FitsWire : FitsWire Data.key
key-FitsWire = (omega arith, omega arith, omega arith, omega arith, omega arith)

handle_client_request-failed_send_example :
    handle_client_request Data.client_request
      (Data.broker_of (Data.no_requests (peer 7 ∷ [])) (Data.always Data.failing))
    ≡ (
      returned (pos 0),
      with_context 3
          (Context.add_pending_request 9
            (Data.flags_of 4)
            (some Data.client_request)
            (Data.no_requests (peer 7 ∷ [])))
          (after_sending
            (record {
              socket = backend;
              message = for_worker (peer 7) Data.client_request;
              result = Data.failing;
            })
            (Data.broker_of (Data.no_requests (peer 7 ∷ [])) (Data.always Data.failing))),
    )
unfolding Assoc.lookup plain_beq Context.get_request_state Context.get_next_available_worker
handle_client_request-failed_send_example =
    handle_client_request-failed_send Data.client_env Data.key Data.data_frames
      (Data.broker_of (Data.no_requests (peer 7 ∷ [])) (Data.always Data.failing))
      (Data.no_requests (peer 7 ∷ [])) filled_env key-FitsWire refl (peer 7) Data.worker refl refl
      refl refl

handle_client_request-waits_example :
    handle_client_request Data.client_request
      (Data.broker_of (Data.no_requests []) (Data.always (pos 0)))
    ≡ (
      returned (pos 0),
      waits
          (some (Data.no_requests []))
          3
          9
          (Data.flags_of 4)
          Data.client_request
          (Data.broker_of (Data.no_requests []) (Data.always (pos 0))),
    )
unfolding Assoc.lookup
handle_client_request-waits_example =
    handle_client_request-waits (some (Data.no_requests [])) Data.client_env Data.key
      Data.data_frames (Data.broker_of (Data.no_requests []) (Data.always (pos 0))) filled_env
      key-FitsWire refl (refl, refl)

handle_client_request-duplicate_example :
    handle_client_request Data.client_request
      (Data.broker_of Data.queue_of_one (Data.always (pos 0)))
    ≡ (
      returned (pos 0),
      after_sending
          (record {
            socket = frontend;
            message = (Data.client_env ++ [] ∷ request_frames Data.key []) ++ (1 ∷ 6 ∷ []) ∷ [];
            result = pos 0;
          })
          (Data.broker_of Data.queue_of_one (Data.always (pos 0))),
    )
unfolding Assoc.lookup has_any status_number Context.get_request_state
handle_client_request-duplicate_example =
    handle_client_request-duplicate Data.client_env Data.key Data.data_frames
      (Data.broker_of Data.queue_of_one (Data.always (pos 0))) Data.queue_of_one filled_env
      key-FitsWire refl Data.waiting refl refl

forward_pending-failed_example :
    forward_pending (peer 7) 3 9 (Data.broker_of Data.queue_of_one (Data.always Data.failing)) ≡ (
      returned Data.failing,
      after_sending
          (record {
            socket = backend;
            message = for_worker (peer 7) Data.client_request;
            result = Data.failing;
          })
          (Data.broker_of Data.queue_of_one (Data.always Data.failing)),
    )
unfolding Assoc.lookup plain_beq Context.get_request_state
forward_pending-failed_example =
    forward_pending-failed (peer 7) 3 9 Data.client_request
      (Data.broker_of Data.queue_of_one (Data.always Data.failing)) Data.queue_of_one Data.waiting
      Data.worker refl refl refl refl refl

parse_client_request-request_frames_example :
    parse_client_request Data.client_request ≡ parsed Data.key
parse_client_request-request_frames_example =
    parse_client_request-request_frames Data.client_env Data.key Data.data_frames filled_env
      key-FitsWire

request_header-request_frames_example :
    request_header Data.client_request ≡ some (Data.client_env ++ [] ∷ request_frames Data.key [])
request_header-request_frames_example =
    request_header-request_frames Data.client_env Data.key Data.data_frames filled_env

handle_frontend_message-handled_example :
    let m = Data.client_env ++ [] ∷ Data.data_frames in
    let b = Data.broker_with (Data.always (pos 0)) in
    (handle_frontend_message (Data.client_env ++ [] ∷ (1 ∷ 12 ∷ []) ∷ Data.data_frames) b
      ≡ continue (handle_client_request m b).0 (λ _. pure (pos 0)) (handle_client_request m b).1)
    × (handle_frontend_message (Data.client_env ++ [] ∷ (1 ∷ 11 ∷ []) ∷ Data.data_frames) b
        ≡ handle_client_heartbeat m b)
    × (handle_frontend_message (Data.client_env ++ [] ∷ (1 ∷ 3 ∷ []) ∷ Data.data_frames) b
        ≡ (returned (pos 0), b))
handle_frontend_message-handled_example =
    handle_frontend_message-handled Data.client_env Data.data_frames 3
      (Data.broker_with (Data.always (pos 0))) filled_env (omega arith) refl refl

-- A request without flags.
abbrev plain_key : RequestKey
plain_key = record Data.key { vfs = Data.flags_of 0 }

-- A worker with one place.
abbrev small_worker : WorkerInfo PlainFrame
small_worker = record Data.worker { free_capacity = 1 }

abbrev ready_broker : Broker PlainFrame
ready_broker = record (Data.broker_of (Data.no_requests (peer 7 ∷ [])) (Data.always (pos 0))) {
  worker_info_lookup = (peer 7, small_worker) ∷ [];
}

abbrev plain_request : Message PlainFrame
plain_request = Data.client_env ++ [] ∷ request_frames plain_key Data.data_frames
