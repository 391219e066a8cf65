-- ===== src/Broker/Client.antt =====
-- How broker.cxx treats a client's request: `forwardParsedClientRequest` and `handleClientRequest`.
use lhcluster.Common.{ℕ, Option, some, none, List, [], ◌∷◌, if◌then◌else◌}
use lhcluster.Common.Int.{ℤ, pos, is_zero}
use lhcluster.Cluster.{VersionFlags, message_number, rejected, has_any}
use lhcluster.Cluster.MessageFlag
use lhcluster.Wire.{Wire, Message, identity_eq}
use lhcluster.RequestState
use lhcluster.RequestState.{RequestState}
use lhcluster.Context
use lhcluster.WorkerInfo.{has_capacity}
use lhcluster.Broker.State.{
  Op, backend, dangling_assigned_worker, pure, deref, ◌>>=◌, ◌>>◌, find_context, the_context,
  insert_context, on_context, on_request, lookup_worker_info, the_worker, send,
}
use lhcluster.Broker.Parse.{Parsed, parsed, malformed, unparsable, parse_client_request}
use lhcluster.Broker.State
use lhcluster.Broker.Replies.{copy_request_for_flags, notify_on_redirect, reject_request}
use lhcluster.Broker.Forward.{for_worker, handle_copy, forward_new}

module _ {F : Type 0} ⦃w : Wire F⦄ where
  -- `find( type )`, and `RemoveAvailableWorker` where there is a context
  unfoldable pub remove_if_context : F → ℕ → Op F (Unit {0})
  unfolding find_context on_context pure ◌>>=◌ Context.remove_available_worker
  remove_if_context worker t = do
    found ← find_context t
    elim found [ none ↦ pure tt | some _ ↦ on_context t (Context.remove_available_worker worker) ]

  -- the loop over a worker's request types that takes it out of the contexts that exist
  unfoldable pub remove_from_contexts : F → List ℕ → Op F (Unit {0})
  unfolding remove_if_context pure ◌>>=◌
  remove_from_contexts worker [] = pure tt
  remove_from_contexts worker (t ∷ ts) = do
    remove_if_context worker t
    remove_from_contexts worker ts

  -- `if ( worker->FreeCapacity() <= 0 )`, and that loop
  unfoldable pub remove_if_full : F → Op F (Unit {0})
  unfolding the_worker remove_from_contexts pure ◌>>=◌
  remove_if_full worker = do
    i ← the_worker worker
    if has_capacity i.free_capacity
        then pure tt
        else remove_from_contexts worker i.supported_request_types

  -- `*requestState->GetMessage()` after the worker got the new request: the copy takes its place,
  -- or the old one is freed
  unfoldable pub keep_copy : ℕ → ℕ → VersionFlags → Option (Message F) → ℤ → Op F ℤ
  unfolding handle_copy on_request pure ◌>>=◌ RequestState.update_message
  keep_copy type id vfs none ret = do
    on_request type id (RequestState.update_message none)
    pure ret
  keep_copy type id vfs (some copied) ret = handle_copy type id vfs type (some copied) ret

  -- the request is in progress and may be redirected: its worker gets the new one
  unfoldable pub redirect_in_progress : RequestState F → VersionFlags → ℕ → ℕ → Message F → Op F ℤ
  unfolding deref lookup_worker_info copy_request_for_flags send notify_on_redirect keep_copy
      on_request pure ◌>>=◌ has_any message_number RequestState.get_assigned_worker
      RequestState.update_flags
  redirect_in_progress r vfs type id m = do
    worker ← deref dangling_assigned_worker (RequestState.get_assigned_worker r)
    found ← lookup_worker_info worker
    i ← deref dangling_assigned_worker found
    (ret, _) ← send backend (for_worker i.identity m)
    if is_zero ret
        then (do
          ret₁ ←
              if has_any r.vfs MessageFlag.notify_on_redirect
              then notify_on_redirect type id
              else pure ret
          ret₂ ← keep_copy type id vfs (copy_request_for_flags vfs m) ret₁
          on_request type id (RequestState.update_flags vfs)
          pure ret₂)
        else pure (pos 0)

  -- the request waits and may be redirected: the new message takes its place in the queue
  unfoldable pub redirect_pending : RequestState F → VersionFlags → ℕ → ℕ → Message F → Op F ℤ
  unfolding notify_on_redirect on_request pure ◌>>=◌ has_any RequestState.set_request
      RequestState.update_request
  redirect_pending r vfs type id m =
      if has_any r.vfs MessageFlag.notify_on_redirect
      then (do
        ret ← notify_on_redirect type id
        on_request type id (RequestState.set_request (some m) vfs)
        pure ret)
      else (do on_request type id (RequestState.update_request (some m) vfs); pure (pos 0))

  -- a request under a type and id that the broker has already
  unfoldable pub forward_known : RequestState F → VersionFlags → ℕ → ℕ → Message F → Op F ℤ
  unfolding redirect_in_progress redirect_pending reject_request has_any RequestState.is_in_progress
  forward_known r vfs type id m =
      if has_any r.vfs MessageFlag.allow_redirect
      then (if RequestState.is_in_progress r
          then redirect_in_progress r vfs type id m
          else redirect_pending r vfs type id m)
      else reject_request (some m) rejected

  -- a request under a new id, of a type that the broker has
  unfoldable pub forward_unknown : Option F → VersionFlags → ℕ → ℕ → Message F → Op F ℤ
  unfolding forward_new remove_if_full on_context pure ◌>>=◌ Context.add_pending_request
  forward_unknown none vfs type id m = do
    on_context type (Context.add_pending_request id vfs (some m))
    pure (pos 0)
  forward_unknown (some worker) vfs type id m = do
    (ret, left) ← forward_new worker id vfs (some m) (λ _. pure tt) type
    if is_zero ret
        then (do remove_if_full worker; pure ret)
        else (do on_context type (Context.add_pending_request id vfs left); pure (pos 0))

  unfoldable pub forward_parsed_client_request : VersionFlags → ℕ → ℕ → Message F → Op F ℤ
  unfolding find_context forward_known forward_unknown insert_context on_context pure ◌>>=◌
      Context.get_request_state Context.get_next_available_worker Context.add_pending_request
  forward_parsed_client_request vfs type id m = do
    found ← find_context type
    elim found [
      | none ↦ do
        insert_context type
        on_context type (Context.add_pending_request id vfs (some m))
        pure (pos 0)
      | some c ↦ elim (Context.get_request_state id c) [
        | none ↦ forward_unknown (Context.get_next_available_worker c) vfs type id m
        | some r ↦ forward_known r vfs type id m
      ]
    ]

  -- A handler's return code where its message is malformed.
  unfoldable pub with_fields : {A : Type 0} → Parsed A → (A → Op F ℤ) → Op F ℤ
  unfolding pure State.throw
  with_fields (parsed a) k = k a
  with_fields (malformed code) k = pure (pos code)
  with_fields unparsable k = State.throw

  unfoldable pub handle_client_request : Message F → Op F ℤ
  unfolding with_fields parse_client_request forward_parsed_client_request
  handle_client_request m =
      with_fields (parse_client_request m)
        λ k. forward_parsed_client_request k.vfs k.request_type k.request_id m
