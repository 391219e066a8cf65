-- ===== src/Safety/Handlers.antt =====
-- The rules for the functions of broker.cxx that give a request to a worker.
use lhcluster.Common.{
  ℕ, ◌≡◌, refl, true, Option, some, none, List, [], ◌∷◌, contains, contains-remove, arith, nat_eq,
}
use lhcluster.Common.Int.{ℤ}
use lhcluster.Cluster.{VersionFlags, RequestStatus}
use lhcluster.Wire.{Wire, Message, identity_eq}
use lhcluster.Context
use lhcluster.Context.{Context}
use lhcluster.WorkerInfo
use lhcluster.WorkerInfo.{WorkerInfo, RequestRef, has_capacity}
use lhcluster.Broker.State.{
  Broker, Op, null_message, bad_iterator, dangling_assigned_worker, deref, on_context, on_worker,
}
use lhcluster.Broker.Replies.{
  handle_copied_request, notify_on_redirect, reject_request, reject_with_key,
}
use lhcluster.Broker.Forward.{handle_copy, assign_pending, forward_pending, forward_new}
use lhcluster.Broker.Client.{remove_if_context, remove_from_contexts, remove_if_full}
use lhcluster.Safety.Rules.{
  IsBenign, is_some, has_context, types_of, Stays, Stays-pure, Stays-throw, Stays-gets, Stays-deref,
  Stays-send, Stays-if, Stays-bind, Stays-find, Stays-deref_bind, Stays-option,
}
use lhcluster.Safety.Actions.{
  Stays-the_context, set_context-Stays, on_context-Stays, add_available-Stays, the_request-Stays,
  on_request-Stays, Stays-the_worker, Stays-lookup, on_worker-Stays,
}

module _ {F : Type 0} ⦃w : Wire F⦄ where
  same_available :
      (id : ℕ) (worker v : F) (c c' : Context F)
      → Context.assign_worker_from_pending id worker c ≡ some c'
      → contains c'.available_workers v ≡ true
      → contains c.available_workers v ≡ true
  unfolding Context.assign_worker_from_pending
  same_available id worker v c c' e h = ground arith

module _ {F : Type 0} ⦃w : Wire F⦄ {b₀ : Broker F} {Bound : ℕ → F → Type 0} where
  pub null-Stays : {A : Type 0} (o : Option A) → Stays b₀ Bound (deref null_message o)
  null-Stays o = Stays-deref null_message o tt

  pub iterator-Stays : {A : Type 0} (o : Option A) → Stays b₀ Bound (deref bad_iterator o)
  iterator-Stays o = Stays-deref bad_iterator o tt

  pub assigned-Stays :
      {A : Type 0} (o : Option A) → Stays b₀ Bound (deref dangling_assigned_worker o)
  assigned-Stays o = Stays-deref dangling_assigned_worker o tt

pub ruleset basic = (
  Stays-pure, Stays-throw, Stays-gets, Stays-send, Stays-if, Stays-bind, null-Stays, iterator-Stays,
  assigned-Stays, on_request-Stays, the_request-Stays,
)

module _ {F : Type 0} ⦃w : Wire F⦄ {b₀ : Broker F} {Bound : ℕ → F → Type 0} where
  pub handle_copied_request-Stays :
      (t id : ℕ) (vfs : VersionFlags) (type : ℕ) (copied : Message F)
      → has_context t b₀ ≡ true
      → Stays b₀ Bound (handle_copied_request t id vfs type copied)
  unfolding handle_copied_request
  handle_copied_request-Stays t id vfs type copied there = search basic depth 12

  pub handle_copy-Stays :
      (t id : ℕ) (vfs : VersionFlags) (type : ℕ) (copied : Option (Message F)) (ret : ℤ)
      → has_context t b₀ ≡ true
      → Stays b₀ Bound (handle_copy t id vfs type copied ret)
  unfolding handle_copy
  handle_copy-Stays t id vfs type none ret there = Stays-pure ret
  handle_copy-Stays t id vfs type (some copied) ret there =
      handle_copied_request-Stays t id vfs type copied there

  pub reject_request-Stays :
      (msg : Option (Message F)) (status : RequestStatus)
      → Stays b₀ Bound (reject_request msg status)
  unfolding reject_request
  reject_request-Stays msg status = search basic depth 8

  pub reject_with_key-Stays :
      (vfs : VersionFlags) (t id : ℕ) (msg : Option (Message F)) (status : RequestStatus)
      → Stays b₀ Bound (reject_with_key vfs t id msg status)
  unfolding reject_with_key
  reject_with_key-Stays vfs t id msg status = search basic depth 8

  pub notify_on_redirect-Stays :
      (t id : ℕ) → has_context t b₀ ≡ true → Stays b₀ Bound (notify_on_redirect t id)
  unfolding notify_on_redirect
  notify_on_redirect-Stays t id there =
      Stays-bind _ _ (the_request-Stays t id)
        (λ r. Stays-option r.msg _ _ (λ e. Stays-pure _) (λ m e. search basic depth 8))

  pub assign_pending-Stays :
      (t id : ℕ) (worker : F)
      → has_context t b₀ ≡ true
      → Stays b₀ Bound (assign_pending t id worker)
  unfolding assign_pending
  assign_pending-Stays t id worker there = Stays-the_context t _ there λ c bound.
      Stays-deref_bind bad_iterator _ _ tt
        λ c' e. set_context-Stays t c' (λ v p. bound v (same_available id worker v c c' e p))

  pub add_in_progress-Stays :
      (worker : F) (type : ℕ) (ref : RequestRef)
      → is_some (types_of worker b₀) ≡ true
      → Stays b₀ Bound (on_worker worker (WorkerInfo.add_in_progress_request type ref))
  unfolding WorkerInfo.add_in_progress_request
  add_in_progress-Stays worker type ref known = on_worker-Stays worker _ known (λ i. refl)

  pub broker_active-Stays :
      (worker : F) (now : ℤ)
      → is_some (types_of worker b₀) ≡ true
      → Stays b₀ Bound (on_worker worker (WorkerInfo.update_broker_last_active now))
  unfolding WorkerInfo.update_broker_last_active
  broker_active-Stays worker now known = on_worker-Stays worker _ known (λ i. refl)

  pub worker_active-Stays :
      (worker : F) (now : ℤ)
      → is_some (types_of worker b₀) ≡ true
      → Stays b₀ Bound (on_worker worker (WorkerInfo.update_worker_last_active now))
  unfolding WorkerInfo.update_worker_last_active
  worker_active-Stays worker now known = on_worker-Stays worker _ known (λ i. refl)

  pub add_request-Stays :
      (t id : ℕ) (vfs : VersionFlags) (worker : F)
      → has_context t b₀ ≡ true
      → Stays b₀ Bound (on_context t (Context.add_in_progress_request id vfs worker))
  unfolding Context.add_in_progress_request
  add_request-Stays t id vfs worker there = on_context-Stays t _ there (λ c v p. p)

  pub remove_request-Stays :
      (t id : ℕ)
      → has_context t b₀ ≡ true
      → Stays b₀ Bound (on_context t (Context.remove_in_progress_request id))
  unfolding Context.remove_in_progress_request
  remove_request-Stays t id there = on_context-Stays t _ there (λ c v p. p)

  pub add_pending-Stays :
      (t id : ℕ) (vfs : VersionFlags) (msg : Option (Message F))
      → has_context t b₀ ≡ true
      → Stays b₀ Bound (on_context t (Context.add_pending_request id vfs msg))
  unfolding Context.add_pending_request
  add_pending-Stays t id vfs msg there = on_context-Stays t _ there (λ c v p. ground arith)

  pub remove_available-Stays :
      (t : ℕ) (worker : F)
      → has_context t b₀ ≡ true
      → Stays b₀ Bound (on_context t (Context.remove_available_worker worker))
  unfolding Context.remove_available_worker
  remove_available-Stays t worker there =
      on_context-Stays t _ there
        (λ c v p. ground (arith, contains-remove worker v c.available_workers))

pub ruleset forward_rules = (
  basic, handle_copy-Stays, assign_pending-Stays, add_in_progress-Stays, broker_active-Stays,
  worker_active-Stays, add_request-Stays,
)

module _ {F : Type 0} ⦃w : Wire F⦄ {b₀ : Broker F} {Bound : ℕ → F → Type 0} where
  pub forward_pending-Stays :
      (worker : F) (t id : ℕ)
      → is_some (types_of worker b₀) ≡ true
      → has_context t b₀ ≡ true
      → Stays b₀ Bound (forward_pending worker t id)
  unfolding forward_pending
  forward_pending-Stays worker t id known there = Stays-the_context t _ there λ c bound.
      Stays-bind _ _ (the_request-Stays t id)
        λ r. Stays-the_worker worker _ known λ i e. search forward_rules depth 20

  pub forward_new-Stays :
      (worker : F) (id : ℕ) (vfs : VersionFlags) (msg : Option (Message F))
      (store : Option (Message F) → Op F (Unit {0})) (t : ℕ)
      → is_some (types_of worker b₀) ≡ true
      → has_context t b₀ ≡ true
      → ((m : Option (Message F)) → Stays b₀ Bound (store m))
      → Stays b₀ Bound (forward_new worker id vfs msg store t)
  unfolding forward_new
  forward_new-Stays worker id vfs msg store t known there stores =
      Stays-the_context t _ there
        λ c bound. Stays-the_worker worker _ known λ i e. search (forward_rules, stores) depth 20

  pub remove_if_context-Stays : (worker : F) (t : ℕ) → Stays b₀ Bound (remove_if_context worker t)
  unfolding remove_if_context
  remove_if_context-Stays worker t =
      Stays-find t _ _ (λ e. Stays-pure tt) (λ c there bound. remove_available-Stays t worker there)

  pub remove_from_contexts-Stays :
      (worker : F) (ts : List ℕ) → Stays b₀ Bound (remove_from_contexts worker ts)
  unfolding remove_from_contexts
  remove_from_contexts-Stays worker [] = Stays-pure tt
  remove_from_contexts-Stays worker (t ∷ ts) =
      Stays-bind _ _ (remove_if_context-Stays worker t) (λ _. remove_from_contexts-Stays worker ts)

  pub remove_if_full-Stays :
      (worker : F) → is_some (types_of worker b₀) ≡ true → Stays b₀ Bound (remove_if_full worker)
  unfolding remove_if_full
  remove_if_full-Stays worker known = Stays-the_worker worker _ known λ i e.
      Stays-if _ _ _ (Stays-pure tt) (remove_from_contexts-Stays worker i.supported_request_types)
