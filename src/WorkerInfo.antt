-- ===== src/WorkerInfo.antt =====
-- liblhcluster/src/workerinfo.cxx and workerinfo.h: what the broker knows of one worker.
pub mod Capacity
use lhcluster.Common.{
  ℕ, ◌+◌, ◌-◌, ◌%◌, ◌^◌, Bool, true, false, not, ◌&&◌, Option, some, none, List, [], ◌∷◌, leb, ltb,
  nat_eq,
}
use lhcluster.Common.Int.{ℤ, ◌+ℤ◌, ltb_ℤ}
use lhcluster.Common.Assoc
use lhcluster.Cluster.{VersionFlags, has_all}
use lhcluster.Cluster.MessageFlag

-- A `RequestState*`: the type whose context owns the object, and its id there.
abbrev pub RequestRef : Type 0
RequestRef = ℕ × ℕ

pub record WorkerInfo (F : Type 0) : Type 0 where
  pub free_capacity : ℕ  -- `unsigned int`
  pub supported_request_types : List ℕ
  pub identity : F
  pub broker_last_active : ℤ
  pub worker_last_active : ℤ
  pub heartbeat_send_delay : ℤ
  pub in_progress_requests : List (ℕ × List (ℕ × RequestRef))
  pub vfs : VersionFlags

-- `FreeCapacity() > 0`, where `FreeCapacity` converts the `unsigned int` to `int`
abbrev pub has_capacity : ℕ → Bool
has_capacity n = ltb 0 n && ltb n (2 ^ 31)

module _ {F : Type 0} where
  unfoldable pub new_worker_info : F → ℤ → ℕ → List ℕ → ℤ → VersionFlags → WorkerInfo F
  new_worker_info identity received_at free_capacity types delay vfs = record {
    free_capacity = free_capacity;
    supported_request_types = types;
    identity = identity;
    broker_last_active = received_at;
    worker_last_active = received_at;
    heartbeat_send_delay = delay;
    in_progress_requests = [];
    vfs = vfs;
  }

  -- `localtime_r`, `tm_sec += delay`, `mktime`: the sum, as a calendar time
  unfoldable pub is_alive_as_of : ℤ → ℤ → WorkerInfo F → Bool
  unfolding ◌+ℤ◌
  is_alive_as_of as_of death_delay i = ltb_ℤ as_of (i.worker_last_active +ℤ death_delay)

  unfoldable pub is_heartbeat_needed_as_of : ℤ → WorkerInfo F → Bool
  unfolding ◌+ℤ◌
  is_heartbeat_needed_as_of as_of i =
      not (ltb_ℤ as_of (i.broker_last_active +ℤ i.heartbeat_send_delay))

  unfoldable pub is_other_broker : WorkerInfo F → Bool
  unfolding has_all
  is_other_broker i = has_all i.vfs MessageFlag.broker

  unfoldable pub update_broker_last_active : ℤ → WorkerInfo F → WorkerInfo F
  update_broker_last_active as_of i = record i { broker_last_active = as_of }

  unfoldable pub update_worker_last_active : ℤ → WorkerInfo F → WorkerInfo F
  update_worker_last_active as_of i = record i { worker_last_active = as_of }

  unfoldable pub update_with_heartbeat : ℤ → ℤ → ℤ → WorkerInfo F → WorkerInfo F
  unfolding update_worker_last_active
  update_with_heartbeat received_at sent_at delay i =
      record (update_worker_last_active received_at i) { heartbeat_send_delay = delay }

  -- `inProgressRequests.find( type )`
  unfoldable pub requests_of_type : ℕ → WorkerInfo F → Option (List (ℕ × RequestRef))
  unfolding Assoc.lookup
  requests_of_type type i = Assoc.lookup type i.in_progress_requests

  unfoldable pub add_in_progress_request : ℕ → RequestRef → WorkerInfo F → WorkerInfo F
  unfolding Assoc.emplace Assoc.lookup Assoc.update requests_of_type
  add_in_progress_request type ref i =
      let found : List (ℕ × RequestRef) = elim (requests_of_type type i) [
        | none ↦ []
        | some l ↦ l
      ] in
      record i {
        in_progress_requests =
            Assoc.update type (Assoc.emplace ref.1 ref found)
              (Assoc.emplace type [] i.in_progress_requests);
        free_capacity = (i.free_capacity + 2 ^ 32 - 1) % 2 ^ 32;
      }

  unfoldable pub remove_in_progress_request : ℕ → ℕ → WorkerInfo F → WorkerInfo F
  unfolding Assoc.erase Assoc.update requests_of_type
  remove_in_progress_request type id i = record i {
    in_progress_requests = elim (requests_of_type type i) [
      | none ↦ i.in_progress_requests
      | some l ↦ Assoc.update type (Assoc.erase id l) i.in_progress_requests
    ];
    free_capacity = (i.free_capacity + 1) % 2 ^ 32;
  }
