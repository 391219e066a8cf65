-- ===== src/Safety/Leaving.antt =====
-- `updateContextsForDeadWorker` of broker.cxx, and who is available afterwards.
use lhcluster.Common.{
  ℕ, ◌≡◌, refl, sym, ap, subst, ◌∙◌, true, false, ◌&&◌, some, List, [], ◌∷◌, contains,
  contains-remove, arith, nat_eq, eq_iff, ◌==◌, Option-cases, inl, inr,
}
use lhcluster.Common.Int.{ℤ, pos}
use lhcluster.Common.Assoc
use lhcluster.Common.Assoc.{lookup-update}
use lhcluster.Wire.{Wire, identity_eq}
use lhcluster.Context
use lhcluster.Context.{Context}
use lhcluster.WorkerInfo
use lhcluster.Broker.State.{
  Broker, deref, continue, ◌>>=◌, modify, find_context, the_context, set_context, on_context,
  the_worker, lookup_worker_info, Op,
}
use lhcluster.Broker.Death.{
  leave_type, leave_types, update_contexts_for_dead_worker, handle_worker_death,
}
use lhcluster.Safety.Rules.{
  is_some, has_context, types_in, types_of, available_in, is_available, Within, Stays, Stays-pure,
  Stays-option,
}
use lhcluster.Safety.Actions.{on_context-Stays}
use lhcluster.Safety.Deaths.{
  Moves, Within-weaken, Moves-Stays, Moves-bind, Moves-find, recover_requests-Stays,
}

-- Within the bound, and not the worker for one of the types.
abbrev pub Left : {F : Type 0} ⦃w : Wire F⦄ → (ℕ → F → Type 0) → F → List ℕ → ℕ → F → Type 0
Left Bound worker ts t v = Bound t v × ((contains ts t && (worker == v)) ≡ false)

module _ {F : Type 0} ⦃w : Wire F⦄ {b₀ : Broker F} {Bound : ℕ → F → Type 0} where
  Within-remove :
      (t : ℕ) (worker : F) (c : Context F) (b : Broker F)
      → Assoc.lookup t b.request_type_context_lookup ≡ some c
      → Within b₀ Bound b
      → Within b₀ (Left Bound worker (t ∷ [])) (record b {
        request_type_context_lookup =
            Assoc.update t (Context.remove_available_worker worker c) b.request_type_context_lookup;
      })
  unfolding has_context types_of is_available Context.remove_available_worker contains
  Within-remove t worker c b e h = record {
    contexts = λ j.
        ap is_some (lookup-update t j _ b.request_type_context_lookup)
        ∙ ground (arith, h.contexts j);
    workers = h.workers;
    available = λ j v p.
        let q =
          sym (ap (λ o. available_in o v) (lookup-update t j _ b.request_type_context_lookup))
          ∙ p in
        ground
          (arith, q, e, h.available j v, contains-remove worker v c.available_workers, eq_iff t j);
    keys = h.keys;
  }

  remove-Moves :
      (t : ℕ) (worker : F)
      → has_context t b₀ ≡ true
      → Moves b₀ Bound
          (Left Bound worker (t ∷ []))
          (on_context t (Context.remove_available_worker worker))
  unfolding on_context the_context set_context modify find_context deref ◌>>=◌ has_context
  remove-Moves t worker there = record {
    at = λ b h. elim (Option-cases (Assoc.lookup t b.request_type_context_lookup)) [
      | inl e ↦ cc (h.contexts t, ap is_some e, there)
      | inr (c, e) ↦
          let after = Within-remove t worker c b e h in
          rw (e, continue, deref) (Within-weaken _ (λ j v p. p.0) after, tt, λ a r. after)
    ];
  }

  the_worker-Stays :
      (worker : F) → is_some (types_of worker b₀) ≡ true → Stays b₀ Bound (the_worker worker)
  unfolding the_worker lookup_worker_info deref ◌>>=◌ types_of
  the_worker-Stays worker known = record {
    at = λ b h. elim (Option-cases (Assoc.lookup worker b.worker_info_lookup)) [
      | inl e ↦ cc (h.workers worker, ap types_in e, known)
      | inr (i, e) ↦ rw (e, continue, deref) (h, tt)
    ];
  }

  leave_type-Moves :
      (knows : (t : ℕ) (v : F) → Bound t v → is_some (types_of v b₀) ≡ true) (worker : F) (t : ℕ)
      (ret : ℤ)
      → is_some (types_of worker b₀) ≡ true
      → has_context t b₀ ≡ true
      → Moves b₀ Bound (Left Bound worker (t ∷ [])) (leave_type worker t ret)
  unfolding leave_type Context.decrement_num_workers
  leave_type-Moves knows worker t ret known there = Moves-find t _ _ there λ _.
      Moves-bind (the_worker worker) _ (λ j v p. p) (Moves-Stays _ (the_worker-Stays worker known))
        λ i.
          Moves-bind (on_context t Context.decrement_num_workers) _ (λ j v p. p)
            (Moves-Stays _ (on_context-Stays t _ there (λ c v p. p)))
            λ _.
              Moves-bind (on_context t (Context.remove_available_worker worker)) _ (λ j v p. p.0)
                (remove-Moves t worker there)
                λ _. Moves-Stays _ (
                  Stays-option (WorkerInfo.requests_of_type t i) _ _ (λ e. Stays-pure ret)
                    (λ refs e. recover_requests-Stays (λ j v p. knows j v p.0) t refs ret there))

-- The contexts of the types exist.
abbrev pub AllThere : {F : Type 0} ⦃w : Wire F⦄ → Broker F → List ℕ → Type 0
AllThere b₀ [] = Unit {0}
AllThere b₀ (t ∷ ts) = (has_context t b₀ ≡ true) × AllThere b₀ ts

module _ {F : Type 0} ⦃w : Wire F⦄ {b₀ : Broker F} where
  Moves-weaken :
      {B₁ B₂ B₃ : ℕ → F → Type 0} {A : Type 0} (m : Op F A)
      → ((t : ℕ) (v : F) → B₂ t v → B₃ t v)
      → Moves b₀ B₁ B₂ m
      → Moves b₀ B₁ B₃ m
  Moves-weaken m wider k = record {
    at = λ b h. let r = k.at b h in (r.0, r.1, λ a e. Within-weaken (m b).1 wider (r.2 a e));
  }

  Moves-the_worker :
      {B₁ B₂ : ℕ → F → Type 0} {A : Type 0} (worker : F) (ts : List ℕ) (k : List ℕ → Op F A)
      → types_of worker b₀ ≡ some ts
      → Moves b₀ B₁ B₂ (k ts)
      → Moves b₀ B₁ B₂ (the_worker worker >>= λ i. k i.supported_request_types)
  unfolding ◌>>=◌ the_worker lookup_worker_info deref types_of
  Moves-the_worker {B₁ = B₁} {B₂ = B₂} worker ts k known found = record {
    at = λ b h. elim (Option-cases (Assoc.lookup worker b.worker_info_lookup)) [
      | inl e ↦ cc (h.workers worker, ap types_in e, known)
      | inr (i, e) ↦
          let same : some ts ≡ some i.supported_request_types =
            sym known ∙ sym (h.workers worker) ∙ ap types_in e in
          rw (e, continue, deref)
            ((subst (λ l. Moves b₀ B₁ B₂ (k l)) (ground (arith, same)) found).at b h)
    ];
  }

  leave_types-Moves :
      (worker : F) (ts : List ℕ) (Bound : ℕ → F → Type 0) (ret : ℤ)
      → ((t : ℕ) (v : F) → Bound t v → is_some (types_of v b₀) ≡ true)
      → is_some (types_of worker b₀) ≡ true
      → AllThere b₀ ts
      → Moves b₀ Bound (Left Bound worker ts) (leave_types worker ts ret)
  unfolding leave_types contains
  leave_types-Moves worker [] Bound ret knows known there =
      Moves-weaken _ (λ t v p. (p, refl)) (Moves-Stays _ (Stays-pure ret))
  leave_types-Moves worker (t ∷ ts) Bound ret knows known there =
      Moves-bind _ _ (λ j v p. p.0) (leave_type-Moves knows worker t ret known there.0)
        λ ret'.
          Moves-weaken _ (λ j v p. (p.0.0, ground (arith, p.0.1, p.1)))
            (leave_types-Moves worker ts (Left Bound worker (t ∷ [])) ret' (λ j v p. knows j v p.0)
              known there.1)

  pub handle_worker_death-Moves :
      {Bound : ℕ → F → Type 0}
      (knows : (t : ℕ) (v : F) → Bound t v → is_some (types_of v b₀) ≡ true) (worker : F)
      (ts : List ℕ)
      → types_of worker b₀ ≡ some ts
      → AllThere b₀ ts
      → Moves b₀ Bound (Left Bound worker ts) (handle_worker_death worker)
  unfolding handle_worker_death update_contexts_for_dead_worker
  handle_worker_death-Moves knows worker ts known there =
      Moves-the_worker worker ts (λ types. leave_types worker types (pos 0)) known
        (leave_types-Moves worker ts _ (pos 0) knows (ap is_some known) there)
