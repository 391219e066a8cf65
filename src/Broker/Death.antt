-- ===== src/Broker/Death.antt =====
-- How broker.cxx treats a worker that has died: `checkWorkersPulse`, `handleWorkerDeath` and
-- `updateContextsForDeadWorker`; and `sendWorkerHeartbeats`, the other loop over the workers.
use Prim.Native.Nat.{bit_or}
use lhcluster.Common.{ℕ, Bool, ◌&&◌, some, none, List, [], ◌∷◌, map, if◌then◌else◌}
use lhcluster.Common.Int.{ℤ, pos, is_zero}
use lhcluster.Cluster.{worker_death, has_any}
use lhcluster.Cluster.MessageFlag
use lhcluster.Wire.{Wire, identity_eq}
use lhcluster.RequestState
use lhcluster.RequestState.{RequestState, try_lt}
use lhcluster.Context
use lhcluster.WorkerInfo
use lhcluster.WorkerInfo.{RequestRef}
use lhcluster.Broker.State.{
  Op, pure, gets, ◌>>=◌, ◌>>◌, find_context, the_context, on_context, the_request, on_request,
  remove_worker_info, the_worker,
}
use lhcluster.Broker.Replies.{reject_with_key, reject_request, send_worker_heartbeat}
use lhcluster.Broker.Forward.{forward_new}
use lhcluster.Broker.Client.{remove_if_full}

-- `MAX_TRY_COUNT`
abbrev pub max_try_count : ℕ
max_try_count = 2

module _ {F : Type 0} ⦃w : Wire F⦄ where
  -- `BackToPending( requestState )`
  unfoldable pub requeue : ℕ → ℕ → Op F (Unit {0})
  unfolding the_request on_context ◌>>=◌ Context.back_to_pending
  requeue t id = do r ← the_request t id; on_context t (Context.back_to_pending id r)

  -- a request that may be tried again: to another worker, or to the end of the queue
  unfoldable pub retry_request : ℕ → ℕ → RequestState F → Op F ℤ
  unfolding the_context forward_new on_request remove_if_full requeue pure ◌>>=◌
      Context.get_next_available_worker RequestState.update_message
  retry_request t id r = do
    c ← the_context t
    elim (Context.get_next_available_worker c) [
      | none ↦ do requeue t id; pure (pos 0)
      | some other ↦ do
        (ret, _) ←
            forward_new other id r.vfs r.msg (λ m. on_request t id (RequestState.update_message m))
              t
        if is_zero ret then (do remove_if_full other; pure ret) else (do requeue t id; pure (pos 0))
    ]

  -- a request that is not tried again, and whose client is told: `retry` says whether the whole
  -- message was kept, or its envelope only
  unfoldable pub fail_request : ℕ → ℕ → RequestState F → Bool → Op F ℤ
  unfolding reject_request reject_with_key on_request on_context pure ◌>>=◌
      RequestState.update_message Context.remove_in_progress_request
  fail_request t id r retry = do
    ret ←
        if retry
        then reject_request r.msg worker_death
        else reject_with_key r.vfs t id r.msg worker_death
    on_request t id (RequestState.update_message none)
    on_context t (Context.remove_in_progress_request id)
    pure ret

  -- one request that the dead worker had; `ret` is the result so far
  unfoldable pub recover_request : ℕ → ℕ → RequestRef → ℤ → Op F ℤ
  unfolding the_request retry_request fail_request on_context pure ◌>>=◌ has_any
      Context.remove_in_progress_request
  recover_request t id ref ret = do
    r ← the_request ref.0 ref.1
    let retry = has_any r.vfs MessageFlag.retry_on_death
    if has_any r.vfs (bit_or MessageFlag.retry_on_death MessageFlag.notify_on_death)
        then (if retry && try_lt r.try_count max_try_count
            then retry_request t id r
            else if has_any r.vfs MessageFlag.notify_on_death
            then fail_request t id r retry
            else pure ret)
        else (do on_context t (Context.remove_in_progress_request id); pure ret)

  unfoldable pub recover_requests : ℕ → List (ℕ × RequestRef) → ℤ → Op F ℤ
  unfolding recover_request pure ◌>>=◌
  recover_requests t [] ret = pure ret
  recover_requests t ((id, ref) ∷ rest) ret = do
    ret' ← recover_request t id ref ret
    recover_requests t rest ret'

  -- one request type that the dead worker supported
  unfoldable pub leave_type : F → ℕ → ℤ → Op F ℤ
  unfolding find_context the_worker on_context recover_requests pure ◌>>=◌
      Context.decrement_num_workers Context.remove_available_worker WorkerInfo.requests_of_type
  leave_type worker t ret = do
    found ← find_context t
    elim found [
      | none ↦ pure ret
      | some _ ↦ do
        i ← the_worker worker
        on_context t Context.decrement_num_workers
        on_context t (Context.remove_available_worker worker)
        elim (WorkerInfo.requests_of_type t i) [
          | none ↦ pure ret
          | some refs ↦ recover_requests t refs ret
        ]
    ]

  unfoldable pub leave_types : F → List ℕ → ℤ → Op F ℤ
  unfolding leave_type pure ◌>>=◌
  leave_types worker [] ret = pure ret
  leave_types worker (t ∷ ts) ret = do ret' ← leave_type worker t ret; leave_types worker ts ret'

  unfoldable pub update_contexts_for_dead_worker : F → Op F ℤ
  unfolding the_worker leave_types ◌>>=◌
  update_contexts_for_dead_worker worker = do
    i ← the_worker worker
    leave_types worker i.supported_request_types (pos 0)

  unfoldable pub handle_worker_death : F → Op F ℤ
  unfolding update_contexts_for_dead_worker
  handle_worker_death worker = update_contexts_for_dead_worker worker

  -- The loop of `checkWorkersPulse`: the entries of the map, of which it erases the current one only.
  unfoldable pub check_pulses : List F → ℤ → Op F ℤ
  unfolding gets the_worker handle_worker_death remove_worker_info pure ◌>>=◌
      WorkerInfo.is_alive_as_of
  check_pulses [] ret = pure ret
  check_pulses (worker ∷ rest) ret = do
    i ← the_worker worker
    now ← gets (λ b. b.current_time)
    death_delay ← gets (λ b. b.worker_death_delay)
    ret' ←
        if WorkerInfo.is_alive_as_of now death_delay i
        then pure ret
        else (do r ← handle_worker_death worker; remove_worker_info worker; pure r)
    check_pulses rest ret'

  unfoldable pub check_workers_pulse : Op F ℤ
  unfolding gets check_pulses ◌>>=◌
  check_workers_pulse = do
    workers ← gets (λ b. map (λ e. e.0) b.worker_info_lookup)
    check_pulses workers (pos 0)

  unfoldable pub send_heartbeats : List F → ℤ → Op F ℤ
  unfolding gets the_worker send_worker_heartbeat pure ◌>>=◌ WorkerInfo.is_heartbeat_needed_as_of
  send_heartbeats [] ret = pure ret
  send_heartbeats (worker ∷ rest) ret = do
    i ← the_worker worker
    now ← gets (λ b. b.current_time)
    ret' ←
        if WorkerInfo.is_heartbeat_needed_as_of now i
        then send_worker_heartbeat worker
        else pure ret
    send_heartbeats rest ret'

  unfoldable pub send_worker_heartbeats : Op F ℤ
  unfolding gets send_heartbeats ◌>>=◌
  send_worker_heartbeats = do
    workers ← gets (λ b. map (λ e. e.0) b.worker_info_lookup)
    send_heartbeats workers (pos 0)
