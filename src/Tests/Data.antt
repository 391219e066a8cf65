-- ===== src/Tests/Data.antt =====
-- Small brokers and messages for the tests, in plain frames.
use lhcluster.Common.{ℕ, some, List, [], ◌∷◌}
use lhcluster.Common.Int.{ℤ, pos, negsuc}
use lhcluster.Cluster.{VersionFlags, default_version}
use lhcluster.Wire.{Message}
use lhcluster.Wire.Plain.{PlainFrame, plain_wire, peer, plain_i32}
use lhcluster.RequestState
use lhcluster.RequestState.{RequestState}
use lhcluster.Context.{Context}
use lhcluster.WorkerInfo.{WorkerInfo}
use lhcluster.Broker.State.{Broker}
use lhcluster.Broker.Parse.{RequestKey}
use lhcluster.Broker.Reading.{request_frames}
use lhcluster.Broker.Reactor.{
  Event, frontend_message, backend_message, heartbeat_timer, pulse_timer,
}

abbrev pub flags_of : ℕ → VersionFlags
flags_of n = record { version = default_version; flags = n }

-- A broker at its start; `answers` are the results of `Send`.
abbrev pub broker_with : (ℕ → ℤ) → Broker PlainFrame
broker_with answers = record {
  worker_info_lookup = [];
  request_type_context_lookup = [];
  self_heartbeat_delay = pos 5;
  worker_death_delay = pos 60;
  minimum_worker_heartbeat_delay = pos 1;
  current_time = pos 10;
  answers = answers;
  sent = [];
}

abbrev pub always : ℤ → ℕ → ℤ
always r n = r

abbrev pub failing : ℤ
failing = negsuc 0

-- A worker, called `peer 7`, with room for two requests of type 3.
abbrev pub worker : WorkerInfo PlainFrame
worker = record {
  free_capacity = 2;
  supported_request_types = 3 ∷ [];
  identity = peer 7;
  broker_last_active = pos 10;
  worker_last_active = pos 10;
  heartbeat_send_delay = pos 5;
  in_progress_requests = [];
  vfs = flags_of 0;
}

abbrev pub key : RequestKey
key = record { vfs = flags_of 4; request_type = 3; request_id = 9 }

abbrev pub client_env : Message PlainFrame
client_env = peer 1 ∷ []

abbrev pub data_frames : Message PlainFrame
data_frames = peer 42 ∷ []

abbrev pub client_request : Message PlainFrame
client_request = peer 1 ∷ [] ∷ request_frames key data_frames

-- The request of `key`, waiting at the iterator 0.
abbrev pub waiting : RequestState PlainFrame
waiting = record {
  request_id = 9;
  flag = RequestState.pending;
  vfs = flags_of 4;
  msg = some client_request;
  try_count = 0;
  state = RequestState.list_it 0;
}

abbrev pub queue_of_one : Context PlainFrame
queue_of_one = record {
  total_workers = pos 0;
  request_type = 3;
  available_workers = [];
  pending_client_requests = (0, 9) ∷ [];
  next_it = 1;
  requests = (9, waiting) ∷ [];
}

abbrev pub no_requests : List PlainFrame → Context PlainFrame
no_requests available = record {
  total_workers = pos 1;
  request_type = 3;
  available_workers = available;
  pending_client_requests = [];
  next_it = 0;
  requests = [];
}

-- A broker with the worker and one context, of type 3.
abbrev pub broker_of : Context PlainFrame → (ℕ → ℤ) → Broker PlainFrame
broker_of c answers = record (broker_with answers) {
  worker_info_lookup = (peer 7, worker) ∷ [];
  request_type_context_lookup = (3, c) ∷ [];
}

abbrev pub ready_message : Message PlainFrame
ready_message =
    peer 7
    ∷ []
    ∷ (1 ∷ 2 ∷ [])
    ∷ (5 ∷ 0 ∷ 1 ∷ 0 ∷ [])
    ∷ plain_i32 (pos 1)
    ∷ plain_i32 (pos 5)
    ∷ (1 ∷ 3 ∷ [])
    ∷ []

-- A worker becomes ready, a client sends a request, the timers fire, and the worker has died.
abbrev pub events : List (Event PlainFrame)
events =
    backend_message (pos 10) (some ready_message)
    ∷ frontend_message (pos 11)
        (some (peer 1 ∷ [] ∷ (1 ∷ 12 ∷ []) ∷ request_frames key data_frames))
    ∷ heartbeat_timer (pos 20)
    ∷ pulse_timer (pos 100)
    ∷ []
