-- ===== src/Tests/Proxies.antt =====
-- The client proxy of liblhcluster/src/clientproxy.cxx, at small examples.
use lhcluster.Common.{ℕ, ◌≡◌, refl, List, [], ◌∷◌, some, none, arith, nat_eq, pair_eq}
use lhcluster.Common.Int.{ℤ, pos}
use lhcluster.Common.Assoc
use lhcluster.Cluster.{message_number, broker_received_receipt, broker_sent_receipt}
use lhcluster.Wire.{Message}
use lhcluster.Wire.Plain.{PlainFrame, plain_wire, peer}
use lhcluster.Broker.Reading.{request_frames}
use lhcluster.Action.{returned, Network, next_answer, network_send}
use lhcluster.Proxy.Buffer.{erase_request}
use lhcluster.Proxy.Pending.{BufferCall, adds, receives, view, call_all, mean_all, call_all-refines}
use lhcluster.Proxy.State
use lhcluster.Proxy.State.{ClientProxy, Socket, new_proxy, client_messaging}
use lhcluster.Proxy.Handlers.{handle_client_message, handle_broker_message, receive_from_broker}
use lhcluster.Proxy.Reactor.{Round, broker_message, pulse_timer, start_as_primary}
use lhcluster.Proxy.Kept.{IsFresh, receive_from_broker-requests_buffer}
use lhcluster.Proxy.Life.{IsBuffered}
use lhcluster.Proxy.Lasting.{start_as_primary-IsBuffered}
use lhcluster.Proxy.Passage.{
  sent_to_broker, kept, handle_client_message-sent, handle_broker_message-response,
}
use lhcluster.Tests.Data
use lhcluster.Tests.Messages.{key-FitsWire}

abbrev pub network_of : {K : Type 0} → (ℕ → ℤ) → Network K PlainFrame
network_of answers = record { answers = answers; calls = [] }

abbrev request : Message PlainFrame
request = peer 1 ∷ [] ∷ (1 ∷ 12 ∷ []) ∷ request_frames Data.key Data.data_frames

-- One request is added, asking for both receipts, which come one after the other.
abbrev calls : List (BufferCall PlainFrame)
calls =
    adds 3 9 0 (Data.flags_of 6) request
    ∷ receives broker_sent_receipt 3 9 0
    ∷ receives broker_received_receipt 3 9 0
    ∷ []

call_all-refines_example : view (call_all calls []) (3, (9, 0)) ≡ none
unfolding view mean_all
call_all-refines_example = call_all-refines calls [] (3, (9, 0))

-- A proxy that has sent a request of `peer 1`, and keeps a copy.
abbrev pub waiting : ClientProxy PlainFrame
waiting = record {
  exit_state = State.no_exit;
  broker_heartbeat_delay = pos 7;
  self_heartbeat_delay = pos 5;
  broker_death_delay = pos 10;
  broker_last_active = pos 0;
  client_last_active = pos 0;
  current_time = pos 1;
  requests_buffer =
      ((3, (9, 1)), record { vfs = Data.flags_of 4; current_flags = 4; message = request }) ∷ [];
  next_address = 2;
  network = network_of (Data.always (pos 0));
}

waiting-IsFresh : IsFresh waiting
unfolding Assoc.lookup
waiting-IsFresh = record { below = λ k v e. ground (arith, e) }

abbrev receipt : Message PlainFrame
receipt = peer 1 ∷ [] ∷ (1 ∷ 8 ∷ []) ∷ (1 ∷ 3 ∷ []) ∷ (2 ∷ 9 ∷ []) ∷ []

receive_from_broker-requests_buffer_example :
    (receive_from_broker (pos 2) (some receipt) waiting).1.requests_buffer ≡ waiting.requests_buffer
receive_from_broker-requests_buffer_example =
    receive_from_broker-requests_buffer (pos 2) (some receipt) waiting waiting-IsFresh

abbrev receiving : Round PlainFrame
receiving = record {
  starts_at = pos 1;
  setup_failures = 0;
  events = broker_message (pos 2) (some receipt) ∷ pulse_timer (pos 100) ∷ [];
  ends_at = pos 100;
}

waiting-IsBuffered : IsBuffered (3, (9, 1)) request waiting
unfolding Assoc.lookup
waiting-IsBuffered = record { fresh = waiting-IsFresh; there = refl }

start_as_primary-IsBuffered_example :
    IsBuffered (3, (9, 1)) request (start_as_primary (receiving ∷ receiving ∷ []) waiting).1
start_as_primary-IsBuffered_example =
    start_as_primary-IsBuffered (3, (9, 1)) request waiting (receiving ∷ receiving ∷ [])
      waiting-IsBuffered

handle_client_message-sent_example :
    handle_client_message request waiting
    ≡ (returned (pos 0), sent_to_broker request (kept Data.key request waiting))
unfolding next_answer
handle_client_message-sent_example =
    handle_client_message-sent (peer 1) (1 ∷ 12 ∷ []) Data.key Data.data_frames waiting
      (omega arith) key-FitsWire

handle_broker_message-response_example :
    handle_broker_message 2
      (peer 1 ∷ [] ∷ (1 ∷ 7 ∷ []) ∷ request_frames Data.key Data.data_frames)
      waiting
    ≡ (
      returned (pos 0),
      record waiting {
        requests_buffer = erase_request 3 9 2 waiting.requests_buffer;
        network =
            network_send client_messaging
              (peer 1 ∷ [] ∷ request_frames Data.key Data.data_frames)
              (network_of (Data.always (pos 0)));
      },
    )
unfolding next_answer message_number
handle_broker_message-response_example =
    handle_broker_message-response 2 (peer 1) Data.key Data.data_frames waiting (omega arith)
      key-FitsWire
