-- ===== src/Safety/Answers.antt =====
-- The rules for the parts of the message handlers of broker.cxx.
use lhcluster.Common.{ℕ, ◌≡◌, refl, sym, ap, ◌∙◌, true, nat_eq, Option-cases, inl, inr}
use lhcluster.Common.Int.{ℤ}
use lhcluster.Common.Assoc
use lhcluster.Common.Assoc.{lookup-emplace}
use lhcluster.Wire.{Wire, Message, identity_eq}
use lhcluster.WorkerInfo
use lhcluster.WorkerInfo.{WorkerInfo}
use lhcluster.Broker.State.{
  Broker, Op, continue, ◌>>=◌, pure, gets, lookup_worker_info, on_worker, send, frontend,
}
use lhcluster.Broker.Parse.{Parsed, parsed, malformed, unparsable}
use lhcluster.Broker.Client.{with_fields}
use lhcluster.Broker.Worker.{handle_worker_receipt}
use lhcluster.Safety.Rules.{is_some, types_in, types_of, Stays, Stays-bind, Stays-pure, Stays-throw}
use lhcluster.Safety.Actions.{on_worker-Stays}
use lhcluster.Safety.Handlers.{basic, worker_active-Stays}

abbrev pub answer : {F : Type 0} ⦃w : Wire F⦄ → Message F → Op F ℤ
answer m = do (ret, _) ← send frontend m; pure ret

module _ {F : Type 0} ⦃w : Wire F⦄ {b₀ : Broker F} {Bound : ℕ → F → Type 0} where
  pub finished-Stays :
      (worker : F) (type id : ℕ)
      → is_some (types_of worker b₀) ≡ true
      → Stays b₀ Bound (on_worker worker (WorkerInfo.remove_in_progress_request type id))
  unfolding WorkerInfo.remove_in_progress_request
  finished-Stays worker type id known = on_worker-Stays worker _ known (λ i. refl)

  pub with_fields-Stays :
      {A : Type 0} (p : Parsed A) (k : A → Op F ℤ)
      → ((a : A) → Stays b₀ Bound (k a))
      → Stays b₀ Bound (with_fields p k)
  unfolding with_fields
  with_fields-Stays (parsed a) k h = h a
  with_fields-Stays (malformed code) k h = Stays-pure _
  with_fields-Stays unparsable k h = Stays-throw

  pub answer-Stays : (m : Message F) → Stays b₀ Bound (answer m)
  answer-Stays m = search basic depth 8

  pub heartbeat-Stays :
      (worker : F) (now sent_at delay : ℤ)
      → is_some (types_of worker b₀) ≡ true
      → Stays b₀ Bound (on_worker worker (WorkerInfo.update_with_heartbeat now sent_at delay))
  unfolding WorkerInfo.update_with_heartbeat WorkerInfo.update_worker_last_active
  heartbeat-Stays worker now sent_at delay known = on_worker-Stays worker _ known (λ i. refl)

  pub receipt-Stays : (worker : F) (m : Message F) → Stays b₀ Bound (handle_worker_receipt worker m)
  unfolding handle_worker_receipt ◌>>=◌ lookup_worker_info gets types_of
  receipt-Stays worker m = record {
    at = λ b h. elim (Option-cases (Assoc.lookup worker b.worker_info_lookup)) [
      | inl e ↦ rw (e, continue) ((answered (pure tt) (Stays-pure tt)).at b h)
      | inr (i, e) ↦
          let known = sym (h.workers worker) ∙ ap types_in e in
          rw (e, continue)
            ((answered (on_worker worker (WorkerInfo.update_worker_last_active b.current_time))
                (worker_active-Stays worker _ (ap is_some known))).at
              b h)
    ];
  }
    where
      answered :
          (act : Op F (Unit {0})) → Stays b₀ Bound act → Stays b₀ Bound (act >>= λ _. answer m)
      answered act s = Stays-bind act (λ _. answer m) s (λ _. answer-Stays m)
