-- ===== src/Tests/Clients.antt =====
-- The client of liblhcluster/src/client.cxx, at small examples.
use lhcluster.Common.{◌≡◌, refl, List, [], ◌∷◌, arith}
use lhcluster.Common.Int.{◌-ℤ◌, pos}
use lhcluster.Cluster.{has_any, client_new_request, message_number}
use lhcluster.Wire.{Message}
use lhcluster.Wire.Plain.{PlainFrame, plain_wire, peer}
use lhcluster.Action.{returned, next_answer, network_send}
use lhcluster.Broker.Parse.{parsed, parse_client_request}
use lhcluster.Broker.Reading.{request_frames}
use lhcluster.Broker.State
use lhcluster.Broker.State.{Broker, frontend, ◌>>◌}
use lhcluster.Broker.Requests.{after_sending}
use lhcluster.Broker.Worker.{finish_request}
use lhcluster.Broker.Reactor.{handle_frontend_message, dispatch_frontend, handle_backend_message}
use lhcluster.Worker.Service.{response_frames}
use lhcluster.Worker.Requests.{finished_message}
use lhcluster.Proxy.State.{client_messaging}
use lhcluster.Proxy.Handlers.{handle_client_message, handle_broker_message}
use lhcluster.Proxy.Passage.{sent_to_broker, kept}
use lhcluster.Client.{request_message}
use lhcluster.Client.Response.{RequestResponse, fill_from_message}
use lhcluster.Client.Retrieve.{Wake, retrieved, bad_response, still_waiting, retrieve_responses}
use lhcluster.Client.Waiting.{IsCounted, retrieve_responses-IsCounted, retrieve_responses-ends}
use lhcluster.Client.Journey.{client_key, request_message-arrives, finished_message-arrives}
use lhcluster.Tests.Data
use lhcluster.Tests.Messages.{key-FitsWire}
use lhcluster.Tests.Proxies.{waiting}

request_message-arrives_example :
    (handle_client_message (peer 1 ∷ request_message 3 9 4 Data.data_frames) waiting ≡ (
      returned (pos 0),
      sent_to_broker
          (peer 1 ∷ request_message 3 9 4 Data.data_frames)
          (kept (client_key 3 9 4) (peer 1 ∷ request_message 3 9 4 Data.data_frames) waiting),
    ))
    × (handle_frontend_message (peer 5 ∷ peer 1 ∷ request_message 3 9 4 Data.data_frames)
        ≡ dispatch_frontend client_new_request
            (peer 5 ∷ peer 1 ∷ [] ∷ request_frames (client_key 3 9 4) Data.data_frames))
    × (parse_client_request
          (peer 5 ∷ peer 1 ∷ [] ∷ request_frames (client_key 3 9 4) Data.data_frames)
        ≡ parsed (client_key 3 9 4))
unfolding next_answer
request_message-arrives_example =
    request_message-arrives (peer 5) (peer 1) 3 9 4 Data.data_frames waiting (omega arith)
      (omega arith) (omega arith) (omega arith) (omega arith)

abbrev answer : Message PlainFrame
answer = response_frames Data.key 1 Data.data_frames

abbrev delivered : RequestResponse PlainFrame
delivered = record {
  id = 9;
  type = 3;
  status = 1;
  message = Data.data_frames;
  vfs = Data.flags_of 4;
}

abbrev broker : Broker PlainFrame
broker = Data.broker_with (Data.always (pos 0))

finished_message-arrives_example :
    (handle_backend_message (peer 7 ∷ finished_message (peer 5 ∷ peer 1 ∷ []) answer) broker
      ≡ (finish_request (peer 7) 3 9 >> State.pure (pos 0)) (
          after_sending
            (record {
              socket = frontend;
              message = peer 5 ∷ peer 1 ∷ [] ∷ (1 ∷ 7 ∷ []) ∷ answer;
              result = pos 0;
            })
            broker))
    × ((handle_broker_message 2 (peer 1 ∷ [] ∷ (1 ∷ 7 ∷ []) ∷ answer) waiting).1.network
        ≡ network_send client_messaging (peer 1 ∷ [] ∷ answer) waiting.network)
    × (fill_from_message ([] ∷ answer) ≡ parsed delivered)
unfolding message_number has_any
finished_message-arrives_example =
    finished_message-arrives (peer 7) (peer 5) (peer 1) Data.key 1 Data.data_frames 2 broker waiting
      (omega arith) (omega arith) (omega arith) key-FitsWire refl (omega arith)

-- A response comes after 4 milliseconds, then nothing for 10. The clock starts at 5.
abbrev passes : List (Wake PlainFrame)
passes =
    record { arrived = ([] ∷ answer) ∷ []; current_time = pos 4000005 }
    ∷ record { arrived = []; current_time = pos 14000005 }
    ∷ []

retrieve_responses-IsCounted_example :
    IsCounted (pos 2) 1 (retrieve_responses (pos 5) (pos 2) (pos 12) passes (delivered ∷ []))
retrieve_responses-IsCounted_example =
    retrieve_responses-IsCounted (pos 5) (pos 2) (pos 12) passes (delivered ∷ [])

retrieve_responses-ends_example :
    ¬ ((retrieve_responses (pos 5) (pos 2) (pos 10) passes []).0 ≡ still_waiting)
unfolding ◌-ℤ◌
retrieve_responses-ends_example =
    retrieve_responses-ends (pos 5) (pos 2) (pos 10) passes []
      ((λ e. ground (arith, e)), ((λ e. omega arith), tt)) (omega arith)

-- The first response does not fill the limit; the time runs out in the second pass.
retrieves_one : (retrieve_responses (pos 5) (pos 2) (pos 12) passes []).0 ≡ retrieved 1
unfolding retrieve_responses
retrieves_one = refl

-- Two passes of less than a millisecond each do not take anything from a time of one millisecond.
loses_time :
    (retrieve_responses
      (pos 0)
      (pos 3)
      (pos 1)
      (record { arrived = ([] ∷ answer) ∷ []; current_time = pos 900000 }
        ∷ record { arrived = ([] ∷ answer) ∷ []; current_time = pos 1800000 }
        ∷ [])
      []).0
    ≡ still_waiting
unfolding retrieve_responses
loses_time = refl

refuses_empty :
    (retrieve_responses {F = PlainFrame}
      (pos 5)
      (pos 2)
      (pos 12)
      (record { arrived = ([] ∷ []) ∷ []; current_time = pos 9 } ∷ [])
      []).0
    ≡ bad_response
unfolding retrieve_responses
refuses_empty = refl
