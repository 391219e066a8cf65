-- ===== src/Broker/Handover.antt =====
-- `forwardWorkerParsedClientRequest` of broker.cxx on a waiting request, and the worker's room.
use lhcluster.Common.{
  ℕ, ◌^◌, ◌<◌, ◌≤◌, ◌≡◌, refl, ap, subst, ◌∙◌, Bool, true, false, Option, some, none, List, [], ◌∷◌,
  arith, nat_eq, eq_iff, if◌then◌else◌, Option-cases, inl, inr,
}
use lhcluster.Common.Int.{ℤ, is_zero}
use lhcluster.Common.Assoc
use lhcluster.Common.Assoc.{lookup-update}
use lhcluster.Cluster.{VersionFlags}
use lhcluster.Wire.{Wire, Message, identity_eq}
use lhcluster.RequestState
use lhcluster.RequestState.{RequestState}
use lhcluster.Context
use lhcluster.Context.{Context}
use lhcluster.WorkerInfo
use lhcluster.WorkerInfo.{WorkerInfo, RequestRef, has_capacity}
use lhcluster.Broker.State.{
  Broker, continue, Op, ◌>>=◌, ◌>>◌, pure, deref, modify, find_context, on_request,
  lookup_worker_info, the_worker, on_worker,
}
use lhcluster.Broker.Replies.{copy_request_for_flags, handle_copied_request, send_receipt}
use lhcluster.Broker.Forward.{handle_copy, assign_pending, forward_pending, undo}
use lhcluster.Broker.Client.{remove_if_context, remove_from_contexts}
use lhcluster.Broker.Room.{
  capacity_in, capacity_of, spent, Takes, Keeps, Takes-weaken, Takes-bind, Takes-pure,
}
use lhcluster.Broker.Keeping.{
  Keeps-pure, Keeps-gets, Keeps-send, Keeps-bind, Keeps-option, Keeps-the_context, Keeps-on_context,
  Keeps-the_request, Keeps-on_request, Keeps-the_worker, Keeps-null, keeping,
}

-- What a hand-over takes: one place, if it reports success, and at most one.
abbrev pub GaveOne : ℤ → ℕ → Type 0
GaveOne ret n = (n ≤ 1) × (is_zero ret ≡ true → n ≡ 1)

module _ {F : Type 0} ⦃w : Wire F⦄ {v : F} where
  Keeps-handle_copied_request :
      (t id : ℕ) (vfs : VersionFlags) (type : ℕ) (copied : Message F)
      → Keeps v (handle_copied_request t id vfs type copied)
  unfolding handle_copied_request send_receipt
  Keeps-handle_copied_request t id vfs type copied = search keeping depth 12

  Keeps-handle_copy :
      (t id : ℕ) (vfs : VersionFlags) (type : ℕ) (copied : Option (Message F)) (ret : ℤ)
      → Keeps v (handle_copy t id vfs type copied ret)
  unfolding handle_copy
  Keeps-handle_copy t id vfs type none ret = Keeps-pure ret
  Keeps-handle_copy t id vfs type (some copied) ret =
      Keeps-handle_copied_request t id vfs type copied

  Keeps-assign_pending : (t id : ℕ) (u : F) → Keeps v (assign_pending t id u)
  unfolding assign_pending
  Keeps-assign_pending t id u = search keeping depth 12

  Keeps-find_context : (t : ℕ) → Keeps v (find_context {F = F} t)
  unfolding find_context
  Keeps-find_context t = Keeps-gets _

  Keeps-remove_if_context : (u : F) (t : ℕ) → Keeps v (remove_if_context u t)
  unfolding remove_if_context
  Keeps-remove_if_context u t = Keeps-bind _ _ (Keeps-find_context t) (λ o.
      Keeps-option o _ _ (Keeps-pure tt)
        (λ c. Keeps-on_context t (Context.remove_available_worker u)))

  pub Keeps-remove_from_contexts : (u : F) (ts : List ℕ) → Keeps v (remove_from_contexts u ts)
  unfolding remove_from_contexts
  Keeps-remove_from_contexts u [] = Keeps-pure tt
  Keeps-remove_from_contexts u (t ∷ ts) =
      Keeps-bind _ _ (Keeps-remove_if_context u t) (λ _. Keeps-remove_from_contexts u ts)

  on_worker-Takes :
      (f : WorkerInfo F → WorkerInfo F) (k : ℕ)
      → ((i : WorkerInfo F)
          → i.free_capacity < 2 ^ 32
          → (f i).free_capacity ≡ spent k i.free_capacity)
      → Takes v (λ a n. n ≡ k) (on_worker v f)
  unfolding on_worker the_worker lookup_worker_info deref modify ◌>>=◌ capacity_of
  on_worker-Takes f k less = record {
    at = λ b c e small. elim (Option-cases (Assoc.lookup v b.worker_info_lookup)) [
      | inl none_there ↦ ground (arith, e, none_there)
      | inr (i, there) ↦
          let capacity : i.free_capacity ≡ c = ground (arith, e, there) in
          let after = ap capacity_in (lookup-update v v (f i) b.worker_info_lookup) in
          rw (there, continue, deref)
            (
              tt,
              λ a q. (
                k,
                refl,
                after
                    ∙ ground (
                      arith,
                      there,
                      less i (ground (arith, capacity, small)),
                      capacity,
                      eq_iff v v,
                    ),
              ),
            )
    ];
  }

  add_in_progress-Takes :
      (type : ℕ) (ref : RequestRef)
      → Takes v (λ a n. n ≡ 1) (on_worker v (WorkerInfo.add_in_progress_request type ref))
  unfolding WorkerInfo.add_in_progress_request
  add_in_progress-Takes type ref = on_worker-Takes _ 1 (λ i small. omega (arith, small))

  Keeps-broker_active : (now : ℤ) → Keeps v (on_worker v (WorkerInfo.update_broker_last_active now))
  unfolding WorkerInfo.update_broker_last_active
  Keeps-broker_active now = on_worker-Takes _ 0 (λ i small. omega (arith, small))

  pub Keeps-then :
      {A B : Type 0} {Q : B → ℕ → Type 0} (m : Op F A) (k : A → Op F B)
      → Keeps v m
      → ((a : A) → Takes v Q (k a))
      → Takes v Q (m >>= k)
  Keeps-then {Q = Q} m k km kk =
      Takes-bind m k km
        λ a n e. Takes-weaken (k a) (λ x i q. subst (λ z. Q x z) (omega (arith, e)) q) (kk a)

  pub Takes-Keeps :
      {A B : Type 0} {Q : B → ℕ → Type 0} (j : ℕ) (m : Op F A) (k : A → Op F B)
      → Takes v (λ a n. n ≡ j) m
      → ((a : A) → Keeps v (k a))
      → ((b : B) → Q b j)
      → Takes v Q (m >>= k)
  Takes-Keeps {Q = Q} j m k km kk q =
      Takes-bind m k km
        λ a n e. Takes-weaken (k a) (λ x i z. subst (λ y. Q x y) (omega (arith, e, z)) (q x)) (kk a)

  pub Takes-if :
      {A : Type 0} {Q : A → ℕ → Type 0} (test : Bool) (m n : Op F A)
      → (test ≡ true → Takes v Q m)
      → (test ≡ false → Takes v Q n)
      → Takes v Q (if test then m else n)
  Takes-if true m n km kn = km refl
  Takes-if false m n km kn = kn refl

  pub forward_pending-Takes : (t id : ℕ) → Takes v GaveOne (forward_pending v t id)
  unfolding forward_pending
  forward_pending-Takes t id = Keeps-then _ _ (Keeps-the_context t) λ c.
      Keeps-then _ _ (Keeps-the_request t id) λ r. Keeps-then _ _ (Keeps-the_worker v) λ i.
        Keeps-then _ _ (Keeps-null r.msg) λ m. Keeps-then _ _ (Keeps-send _ _) λ answer.
          Keeps-then _ _ (Keeps-on_request t id (RequestState.update_message answer.1)) λ _.
            Takes-if (is_zero answer.0) _
              (do on_request t id (RequestState.update_message (undo answer.1)); pure answer.0)
              (λ zero_ret.
                Takes-Keeps 1 _ _ (add_in_progress-Takes c.request_type (t, r.request_id))
                  (λ _. Keeps-bind _ _ (Keeps-assign_pending t id v) λ _.
                    Keeps-bind _ _ (Keeps-gets (λ (b : Broker F). b.current_time)) λ now.
                      Keeps-bind _ _ (Keeps-broker_active now) λ _.
                        Keeps-handle_copy t id r.vfs c.request_type (copy_request_for_flags r.vfs m)
                          answer.0)
                  (λ x. (omega arith, λ q. refl)))
              (λ failed.
                Keeps-then _ _ (Keeps-on_request t id _)
                  (λ _. Takes-pure answer.0 (omega arith, λ q. ground (arith, q, failed))))
