-- ===== src/Safety/Actions.antt =====
-- The rules for the actions that read or change a context, a request or a worker.
use lhcluster.Common.{
  ℕ, ◌≡◌, sym, ap, ◌∙◌, true, inl, inr, some, none, contains, contains-add, Option-cases, arith,
  nat_eq, eq_iff,
}
use lhcluster.Common.Assoc
use lhcluster.Common.Assoc.{lookup-update, keys-update}
use lhcluster.Wire.{Wire, identity_eq}
use lhcluster.RequestState.{RequestState}
use lhcluster.Context
use lhcluster.Context.{Context}
use lhcluster.WorkerInfo.{WorkerInfo}
use lhcluster.Broker.State.{
  Broker, dangling_request, Op, deref, continue, ◌>>=◌, modify, find_context, the_context,
  set_context, on_context, the_request, on_request, lookup_worker_info, the_worker, on_worker,
}
use lhcluster.Safety.Rules.{
  is_some, has_context, types_in, types_of, available_in, is_available, Within, Stays, Stays-deref,
  Stays-deref_bind, Stays-find,
}

module _ {F : Type 0} ⦃w : Wire F⦄ {b₀ : Broker F} {Bound : ℕ → F → Type 0} where
  pub Within-set_context :
      (t : ℕ) (c : Context F) (b : Broker F)
      → ((v : F) → contains c.available_workers v ≡ true → Bound t v)
      → Within b₀ Bound b
      → Within b₀ Bound (record b {
        request_type_context_lookup = Assoc.update t c b.request_type_context_lookup;
      })
  unfolding has_context types_of is_available
  Within-set_context t c b bound h = record {
    contexts = λ j.
        ap is_some (lookup-update t j c b.request_type_context_lookup)
        ∙ ground (arith, h.contexts j);
    workers = h.workers;
    available = λ j v p.
        let q =
          sym (ap (λ o. available_in o v) (lookup-update t j c b.request_type_context_lookup))
          ∙ p in
        ground (arith, q, h.available j v, bound v, eq_iff t j);
    keys = h.keys;
  }

  pub Stays-the_context :
      {A : Type 0} (t : ℕ) (k : Context F → Op F A)
      → has_context t b₀ ≡ true
      → ((c : Context F)
          → ((v : F) → contains c.available_workers v ≡ true → Bound t v)
          → Stays b₀ Bound (k c))
      → Stays b₀ Bound (the_context t >>= k)
  unfolding ◌>>=◌ the_context find_context deref has_context is_available
  Stays-the_context t k there found = record {
    at = λ b h. elim (Option-cases (Assoc.lookup t b.request_type_context_lookup)) [
      | inl e ↦ cc (h.contexts t, ap is_some e, there)
      | inr (c, e) ↦
          rw (e, continue, deref)
            ((found c (λ v p. h.available t v (ap (λ o. available_in o v) e ∙ p))).at b h)
    ];
  }

  pub set_context-Stays :
      (t : ℕ) (c : Context F)
      → ((v : F) → contains c.available_workers v ≡ true → Bound t v)
      → Stays b₀ Bound (set_context t c)
  unfolding set_context modify
  set_context-Stays t c bound = record { at = λ b h. (Within-set_context t c b bound h, tt) }

  -- A method that makes nobody available who was not.
  pub on_context-Stays :
      (t : ℕ) (f : Context F → Context F)
      → has_context t b₀ ≡ true
      → ((c : Context F) (v : F)
          → contains (f c).available_workers v ≡ true
          → contains c.available_workers v ≡ true)
      → Stays b₀ Bound (on_context t f)
  unfolding on_context
  on_context-Stays t f there less =
      Stays-the_context t _ there
        (λ c bound. set_context-Stays t (f c) (λ v p. bound v (less c v p)))

  pub add_available-Stays :
      (t : ℕ) (worker : F)
      → has_context t b₀ ≡ true
      → Bound t worker
      → Stays b₀ Bound (on_context t (Context.add_available_worker worker))
  unfolding on_context Context.add_available_worker
  add_available-Stays t worker there ok = Stays-the_context t _ there λ c bound.
      set_context-Stays t _
        λ v p. ground (arith, contains-add worker v c.available_workers, bound v, eq_iff worker v)

  pub the_request-Stays : (t id : ℕ) → Stays b₀ Bound (the_request t id)
  unfolding the_request
  the_request-Stays t id =
      Stays-find t _ _ (λ e. Stays-deref dangling_request none tt)
        (λ c there _. Stays-deref dangling_request (Context.get_request_state id c) tt)

  -- The context of a request that is there exists.
  pub Stays-the_request :
      {A : Type 0} (t id : ℕ) (k : RequestState F → Op F A)
      → ((r : RequestState F) → has_context t b₀ ≡ true → Stays b₀ Bound (k r))
      → Stays b₀ Bound (the_request t id >>= k)
  unfolding ◌>>=◌ the_request find_context deref has_context
  Stays-the_request t id k found = record {
    at = λ b h. elim (Option-cases (Assoc.lookup t b.request_type_context_lookup)) [
      | inl e ↦ rw (e, continue, deref) (h, tt)
      | inr (c, e) ↦
          rw (e, continue)
            ((Stays-deref_bind dangling_request (Context.get_request_state id c) k tt
                (λ r _. found r (sym (h.contexts t) ∙ ap is_some e))).at
              b h)
    ];
  }

  pub on_request-Stays :
      (t id : ℕ) (f : RequestState F → RequestState F) → Stays b₀ Bound (on_request t id f)
  unfolding on_request
  on_request-Stays t id f = Stays-the_request t id _ (λ r there.
      on_context-Stays t (Context.put_request id (f r)) there
        (λ c v p. unfold Context.put_request in p))

  Within-update_worker :
      (v : F) (i j : WorkerInfo F) (b : Broker F)
      → Assoc.lookup v b.worker_info_lookup ≡ some i
      → j.supported_request_types ≡ i.supported_request_types
      → Within b₀ Bound b
      → Within b₀ Bound (record b { worker_info_lookup = Assoc.update v j b.worker_info_lookup })
  unfolding has_context types_of is_available
  Within-update_worker v i j b e same h = record {
    contexts = h.contexts;
    workers = λ u.
        ap types_in (lookup-update v u j b.worker_info_lookup)
        ∙ ground (arith, h.workers u, eq_iff v u);
    available = h.available;
    keys = keys-update v j b.worker_info_lookup ∙ h.keys;
  }

  -- A worker that `b₀` knows; its record names the request types that it has there.
  pub Stays-the_worker :
      {A : Type 0} (v : F) (k : WorkerInfo F → Op F A)
      → is_some (types_of v b₀) ≡ true
      → ((i : WorkerInfo F) → types_of v b₀ ≡ some i.supported_request_types → Stays b₀ Bound (k i))
      → Stays b₀ Bound (the_worker v >>= k)
  unfolding ◌>>=◌ the_worker lookup_worker_info deref types_of
  Stays-the_worker v k known found = record {
    at = λ b h. elim (Option-cases (Assoc.lookup v b.worker_info_lookup)) [
      | inl e ↦ cc (h.workers v, ap types_in e, known)
      | inr (i, e) ↦ rw (e, continue, deref) ((found i (sym (h.workers v) ∙ ap types_in e)).at b h)
    ];
  }

  pub Stays-lookup :
      {A : Type 0} (v : F) (m : Op F A) (k : WorkerInfo F → Op F A)
      → (types_of v b₀ ≡ none → Stays b₀ Bound m)
      → ((i : WorkerInfo F) → types_of v b₀ ≡ some i.supported_request_types → Stays b₀ Bound (k i))
      → Stays b₀ Bound (lookup_worker_info v >>= λ found. elim found [ none ↦ m | some i ↦ k i ])
  unfolding ◌>>=◌ lookup_worker_info types_of
  Stays-lookup v m k missing found = record {
    at = λ b h. elim (Option-cases (Assoc.lookup v b.worker_info_lookup)) [
      | inl e ↦ rw (e, continue) ((missing (sym (h.workers v) ∙ ap types_in e)).at b h)
      | inr (i, e) ↦ rw (e, continue) ((found i (sym (h.workers v) ∙ ap types_in e)).at b h)
    ];
  }

  pub on_worker-Stays :
      (v : F) (f : WorkerInfo F → WorkerInfo F)
      → is_some (types_of v b₀) ≡ true
      → ((i : WorkerInfo F) → (f i).supported_request_types ≡ i.supported_request_types)
      → Stays b₀ Bound (on_worker v f)
  unfolding ◌>>=◌ on_worker the_worker lookup_worker_info deref modify types_of
  on_worker-Stays v f known same = record {
    at = λ b h. elim (Option-cases (Assoc.lookup v b.worker_info_lookup)) [
      | inl e ↦ cc (h.workers v, ap types_in e, known)
      | inr (i, e) ↦ rw (e, continue, deref) (Within-update_worker v i (f i) b e (same i) h, tt)
    ];
  }
