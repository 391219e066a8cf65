-- ===== src/Tests/Parts.antt =====
-- Contexts, workers, envelopes and the protocol's numbers, at small values.
use lhcluster.Common.{ℕ, ◌≡◌, refl, false, some, [], ◌∷◌, ◌++◌, arith, nat_beq, if◌then◌else◌}
use lhcluster.Common.Assoc
use lhcluster.Cluster.{Version}
use lhcluster.Wire.Plain.{PlainFrame, plain_wire, peer}
use lhcluster.Wire.Envelope.{env_copy, env_move, skip_envelope, envelope_split}
use lhcluster.RequestState
use lhcluster.Context
use lhcluster.Context.{Context}
use lhcluster.Context.Queue.{IsLinked, queued, has_it}
use lhcluster.Context.Links.{
  add_pending-IsLinked, assign_worker-IsLinked, next_pending-assign, queue_of,
}
use lhcluster.WorkerInfo
use lhcluster.WorkerInfo.{WorkerInfo}
use lhcluster.WorkerInfo.Capacity.{request_of, finish-add}
use lhcluster.Tests.Data

abbrev old_version : Version
old_version = record { lhcmajor = 0; lhcminor = 1 }

abbrev new_version : Version
new_version = record { lhcmajor = 1; lhcminor = 0 }

envelope_split_example :
    (env_copy (Data.client_env ++ [] ∷ Data.data_frames) ≡ Data.client_env)
    × (env_move (Data.client_env ++ [] ∷ Data.data_frames) ≡ (Data.client_env, Data.data_frames))
    × (skip_envelope (Data.client_env ++ [] ∷ Data.data_frames) ≡ some Data.data_frames)
envelope_split_example = envelope_split Data.client_env Data.data_frames (omega arith, tt)

queue_of_one-IsLinked : IsLinked Data.queue_of_one
unfolding queued has_it Context.get_request_state Assoc.lookup RequestState.queue_cursor
queue_of_one-IsLinked = record {
  linked = λ it id p. ground (arith, p);
  waiting = λ it id p. ground (arith, p);
  distinct = (refl, tt);
  fresh = λ it p. ground (arith, p);
}

abbrev longer_queue : Context PlainFrame
longer_queue =
    Context.add_pending_request 5 (Data.flags_of 0) (some Data.client_request) Data.queue_of_one

add_pending-IsLinked_example :
    IsLinked longer_queue × (longer_queue.pending_client_requests ≡ (0, 9) ∷ (1, 5) ∷ [])
unfolding Context.get_request_state Assoc.lookup
add_pending-IsLinked_example =
    add_pending-IsLinked 5 (Data.flags_of 0) (some Data.client_request) Data.queue_of_one refl
      queue_of_one-IsLinked

next_pending-assign_example :
    (Context.get_next_pending_request Data.queue_of_one ≡ some 9)
    × (queue_of (Context.assign_worker_from_pending 9 (peer 7) Data.queue_of_one) ≡ some [])
next_pending-assign_example =
    next_pending-assign 0 9 [] (peer 7) Data.queue_of_one refl queue_of_one-IsLinked

abbrev served : Context PlainFrame
served = record Data.queue_of_one {
  pending_client_requests = [];
  requests = (9, RequestState.assign (peer 7) Data.waiting) ∷ [];
}

assign_worker-IsLinked_example :
    IsLinked served
    × ((it j : ℕ)
        → queued it j served.pending_client_requests ≡ (
            if nat_beq 9 j then false else queued it j (Data.queue_of_one).pending_client_requests))
unfolding Context.assign_worker_from_pending Context.get_request_state Context.put_request
    Context.erase_it Assoc.lookup Assoc.update RequestState.queue_cursor
assign_worker-IsLinked_example =
    assign_worker-IsLinked 9 (peer 7) Data.queue_of_one served refl queue_of_one-IsLinked

abbrev finished : WorkerInfo PlainFrame
finished =
    WorkerInfo.remove_in_progress_request 3 9
      (WorkerInfo.add_in_progress_request 3 (3, 9) Data.worker)

finish-add_example :
    (finished.free_capacity ≡ 2)
    × ((t j : ℕ) → request_of t j finished ≡ request_of t j Data.worker)
unfolding request_of WorkerInfo.requests_of_type Assoc.lookup
finish-add_example = finish-add 3 9 3 Data.worker refl (omega arith)
