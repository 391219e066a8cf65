-- ===== src/Broker/Forward.antt =====
-- How broker.cxx hands a request to a worker: the two overloads of
-- `forwardWorkerParsedClientRequest`.
use lhcluster.Common.{ℕ, Option, some, none, ◌∷◌, drop, if◌then◌else◌}
use lhcluster.Common.Int.{ℤ, is_zero}
use lhcluster.Cluster.{VersionFlags, message_number, broker_new_request}
use lhcluster.Wire.{Wire, Message, identity_eq}
use lhcluster.RequestState
use lhcluster.Context
use lhcluster.WorkerInfo
use lhcluster.Broker.State.{
  Op, backend, null_message, bad_iterator, pure, gets, deref, ◌>>=◌, ◌>>◌, the_context, set_context,
  on_context, the_request, on_request, the_worker, on_worker, send,
}
use lhcluster.Broker.Replies.{copy_request_for_flags, handle_copied_request, put_message}

module _ {F : Type 0} ⦃w : Wire F⦄ where
  -- The frames for a worker: its identity, the delimiter, the message type, and the request.
  abbrev pub for_worker : F → Message F → Message F
  for_worker identity m = identity ∷ w.null_frame ∷ put_message broker_new_request ∷ m

  -- `copiedRequest`, handled if there is one; the result is kept if there is none.
  unfoldable pub handle_copy : ℕ → ℕ → VersionFlags → ℕ → Option (Message F) → ℤ → Op F ℤ
  unfolding handle_copied_request pure
  handle_copy context_type id vfs type none ret = pure ret
  handle_copy context_type id vfs type (some copied) ret =
      handle_copied_request context_type id vfs type copied

  -- The three frames taken off again from the message that `Send` left.
  abbrev pub undo : Option (Message F) → Option (Message F)
  undo none = none
  undo (some m) = some (drop 3 m)

  -- `AssignWorkerFromPending`
  unfoldable pub assign_pending : ℕ → ℕ → F → Op F (Unit {0})
  unfolding the_context deref set_context ◌>>=◌ Context.assign_worker_from_pending
  assign_pending type id worker = do
    c ← the_context type
    c' ← deref bad_iterator (Context.assign_worker_from_pending id worker c)
    set_context type c'

  -- the overload for a request that waits in the context's queue
  unfoldable pub forward_pending : F → ℕ → ℕ → Op F ℤ
  unfolding the_context the_request the_worker deref copy_request_for_flags send on_request
      on_worker assign_pending handle_copy gets pure ◌>>=◌ message_number
      RequestState.update_message WorkerInfo.add_in_progress_request
      WorkerInfo.update_broker_last_active
  forward_pending worker context_type id = do
    c ← the_context context_type
    r ← the_request context_type id
    i ← the_worker worker
    m ← deref null_message r.msg
    (ret, left) ← send backend (for_worker i.identity m)
    on_request context_type id (RequestState.update_message left)
    if is_zero ret
        then (do
          on_worker worker
              (WorkerInfo.add_in_progress_request c.request_type (context_type, r.request_id))
          assign_pending context_type id worker
          now ← gets (λ b. b.current_time)
          on_worker worker (WorkerInfo.update_broker_last_active now)
          handle_copy context_type id r.vfs c.request_type (copy_request_for_flags r.vfs m) ret)
        else (do on_request context_type id (RequestState.update_message (undo left)); pure ret)

  -- The overload for a request that the caller holds: `store` writes the caller's pointer. The
  -- result comes with what the pointer holds then.
  unfoldable pub forward_new :
      F
      → ℕ
      → VersionFlags
      → Option (Message F)
      → (Option (Message F) → Op F (Unit {0}))
      → ℕ
      → Op F (ℤ × Option (Message F))
  unfolding the_context the_worker deref copy_request_for_flags send on_context on_worker
      handle_copy gets pure ◌>>=◌ message_number Context.add_in_progress_request
      WorkerInfo.add_in_progress_request WorkerInfo.update_worker_last_active
  forward_new worker id vfs msg store context_type = do
    c ← the_context context_type
    i ← the_worker worker
    m ← deref null_message msg
    (ret, left) ← send backend (for_worker i.identity m)
    store left
    if is_zero ret
        then (do
          on_context context_type (Context.add_in_progress_request id vfs worker)
          on_worker worker (WorkerInfo.add_in_progress_request c.request_type (context_type, id))
          now ← gets (λ b. b.current_time)
          on_worker worker (WorkerInfo.update_worker_last_active now)
          ret' ← handle_copy context_type id vfs c.request_type (copy_request_for_flags vfs m) ret
          pure (ret', left))
        else (do store (undo left); pure (ret, undo left))
