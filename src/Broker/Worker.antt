-- ===== src/Broker/Worker.antt =====
-- The messages of workers in broker.cxx: ready, heartbeat, finished, receipt.
use lhcluster.Common.{ℕ, some, none, if◌then◌else◌}
use lhcluster.Common.Int.{ℤ, pos, pos_part}
use lhcluster.Cluster.{has_any}
use lhcluster.Cluster.MessageFlag
use lhcluster.Wire.{Wire, Message, identity_eq}
use lhcluster.WorkerInfo
use lhcluster.Broker.State.{
  Op, frontend, pure, gets, ◌>>=◌, ◌>>◌, lookup_worker_info, insert_worker_info, on_worker, send,
}
use lhcluster.Broker.Parse.{parse_worker_ready, parse_worker_heartbeat, parse_worker_finished}
use lhcluster.Broker.Client.{with_fields}
use lhcluster.Broker.Availability.{
  update_contexts_for_new_worker, update_contexts_for_finished_worker,
}

module _ {F : Type 0} ⦃w : Wire F⦄ where
  -- A worker that is known already is left as it is. The result of
  -- `updateContextsForNewWorker` is not used.
  unfoldable pub handle_worker_ready : F → Message F → Op F ℤ
  unfolding lookup_worker_info with_fields parse_worker_ready gets insert_worker_info
      update_contexts_for_new_worker pure ◌>>=◌ WorkerInfo.new_worker_info
  handle_worker_ready identity m = do
    found ← lookup_worker_info identity
    elim found [
      | some _ ↦ pure (pos 0)
      | none ↦ with_fields (parse_worker_ready m) λ ready. do
        now ← gets (λ b. b.current_time)
        insert_worker_info (
            WorkerInfo.new_worker_info identity now (pos_part ready.free_capacity) ready.types
              ready.send_delay ready.ready_flags)
        update_contexts_for_new_worker identity
        pure (pos 0)
    ]

  unfoldable pub handle_worker_heartbeat : F → Message F → Op F ℤ
  unfolding lookup_worker_info with_fields parse_worker_heartbeat gets on_worker pure ◌>>=◌
      WorkerInfo.update_with_heartbeat
  handle_worker_heartbeat identity m = do
    found ← lookup_worker_info identity
    elim found [
      | none ↦ pure (pos 1)
      | some _ ↦ do
        now ← gets (λ b. b.current_time)
        minimum ← gets (λ b. b.minimum_worker_heartbeat_delay)
        with_fields (parse_worker_heartbeat now minimum m) λ fields. do
          on_worker identity (WorkerInfo.update_with_heartbeat now fields.0 fields.1)
          pure (pos 0)
    ]

  -- `workerInfo`, or null: what a finished message does to the worker and to the contexts
  unfoldable pub finish_request : F → ℕ → ℕ → Op F (Unit {0})
  unfolding lookup_worker_info gets on_worker update_contexts_for_finished_worker pure ◌>>=◌
      WorkerInfo.update_worker_last_active WorkerInfo.remove_in_progress_request
  finish_request identity type id = do
    found ← lookup_worker_info identity
    elim found [
      | none ↦ pure tt
      | some _ ↦ do
        now ← gets (λ b. b.current_time)
        on_worker identity (WorkerInfo.update_worker_last_active now)
        on_worker identity (WorkerInfo.remove_in_progress_request type id)
        update_contexts_for_finished_worker identity type id
        pure tt
    ]

  -- The response goes to the client unless the request was asynchronous.
  unfoldable pub handle_worker_finished : F → Message F → Op F ℤ
  unfolding with_fields parse_worker_finished send finish_request pure ◌>>=◌ has_any
  handle_worker_finished identity m = with_fields (parse_worker_finished m) λ k. do
    ret ←
        if has_any k.vfs MessageFlag.asynchronous
        then pure (pos 0)
        else (do (ret, _) ← send frontend m; pure ret)
    finish_request identity k.request_type k.request_id
    pure ret

  unfoldable pub handle_worker_receipt : F → Message F → Op F ℤ
  unfolding lookup_worker_info gets on_worker send pure ◌>>=◌ WorkerInfo.update_worker_last_active
  handle_worker_receipt identity m = do
    found ← lookup_worker_info identity
    now ← gets (λ b. b.current_time)
    elim found [
      | none ↦ pure tt
      | some _ ↦ on_worker identity (WorkerInfo.update_worker_last_active now)
    ]
    (ret, _) ← send frontend m
    pure ret
