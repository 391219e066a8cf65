-- ===== src/Safety/Deaths.antt =====
-- The rules for the requests of a dead worker, in `updateContextsForDeadWorker` of broker.cxx.
use lhcluster.Common.{
  ℕ, ◌≡◌, refl, ap, Bool, true, some, none, List, [], ◌∷◌, arith, nat_eq, Option-cases, inl, inr,
}
use lhcluster.Common.Int.{ℤ}
use lhcluster.Common.Assoc
use lhcluster.Common.Assoc.{lookup-update}
use lhcluster.Wire.{Wire, identity_eq}
use lhcluster.RequestState
use lhcluster.RequestState.{RequestState}
use lhcluster.Context
use lhcluster.Context.{Context}
use lhcluster.WorkerInfo.{RequestRef}
use lhcluster.Broker.State.{
  Broker, Op, Outcome, returned, thrown, undefined, continue, ◌>>=◌, find_context,
}
use lhcluster.Broker.Death.{requeue, retry_request, fail_request, recover_request, recover_requests}
use lhcluster.Safety.Rules.{
  EndsWell, is_some, has_context, types_of, Within, Stays, Stays-pure, Stays-bind, Stays-option,
}
use lhcluster.Safety.Actions.{
  Stays-the_context, Stays-the_request, on_context-Stays, on_request-Stays,
}
use lhcluster.Safety.Handlers.{
  basic, forward_new-Stays, remove_if_full-Stays, reject_request-Stays, reject_with_key-Stays,
  remove_request-Stays,
}
use lhcluster.Safety.Clients.{picked_available}

module _ {F : Type 0} ⦃w : Wire F⦄ {b₀ : Broker F} {Bound : ℕ → F → Type 0}
    (knows : (t : ℕ) (v : F) → Bound t v → is_some (types_of v b₀) ≡ true) where
  requeue-Stays : (t id : ℕ) → Stays b₀ Bound (requeue t id)
  unfolding requeue Context.back_to_pending
  requeue-Stays t id = Stays-the_request t id _ (λ r there. on_context-Stays t _ there (λ c v p. p))

  retry_request-Stays :
      (t id : ℕ) (r : RequestState F)
      → has_context t b₀ ≡ true
      → Stays b₀ Bound (retry_request t id r)
  unfolding retry_request
  retry_request-Stays t id r there = Stays-the_context t _ there λ c bound.
      Stays-option (Context.get_next_available_worker c) _ _
        (λ e. Stays-bind _ _ (requeue-Stays t id) (λ _. Stays-pure _))
        λ other e.
          let known = knows t other (bound other (picked_available c other e)) in
          Stays-bind _ _
            (forward_new-Stays other id r.vfs r.msg _ t known there
              (λ m. on_request-Stays t id (RequestState.update_message m)))
            λ x. search (basic, remove_if_full-Stays, requeue-Stays, known) depth 8

  fail_request-Stays :
      (t id : ℕ) (r : RequestState F) (retry : Bool)
      → has_context t b₀ ≡ true
      → Stays b₀ Bound (fail_request t id r retry)
  unfolding fail_request
  fail_request-Stays t id r retry there =
      search (basic, reject_request-Stays, reject_with_key-Stays, remove_request-Stays) depth 12

  recover_request-Stays :
      (t id : ℕ) (ref : RequestRef) (ret : ℤ)
      → has_context t b₀ ≡ true
      → Stays b₀ Bound (recover_request t id ref ret)
  unfolding recover_request
  recover_request-Stays t id ref ret there =
      Stays-the_request ref.0 ref.1 _ λ r _.
        search (basic, retry_request-Stays, fail_request-Stays, remove_request-Stays) depth 12

  pub recover_requests-Stays :
      (t : ℕ) (refs : List (ℕ × RequestRef)) (ret : ℤ)
      → has_context t b₀ ≡ true
      → Stays b₀ Bound (recover_requests t refs ret)
  unfolding recover_requests
  recover_requests-Stays t [] ret there = Stays-pure ret
  recover_requests-Stays t ((id, ref) ∷ rest) ret there =
      Stays-bind _ _ (recover_request-Stays t id ref ret there)
        (λ ret'. recover_requests-Stays t rest ret' there)

module _ {F : Type 0} ⦃w : Wire F⦄ {A : Type 0} where
  -- The action stays within the first bound, and is within the second one when it returns.
  pub record Moves (b₀ : Broker F) (Before After : ℕ → F → Type 0) (m : Op F A) : Type 0 where
    pub at :
        (b : Broker F)
        → Within b₀ Before b
        → Within b₀ Before (m b).1
          × EndsWell (m b).0
          × ((a : A) → (m b).0 ≡ returned a → Within b₀ After (m b).1)

module _ {F : Type 0} ⦃w : Wire F⦄ {b₀ : Broker F} where
  pub Within-weaken :
      {Bound Wider : ℕ → F → Type 0} (b : Broker F)
      → ((t : ℕ) (v : F) → Bound t v → Wider t v)
      → Within b₀ Bound b
      → Within b₀ Wider b
  Within-weaken b wider h = record {
    contexts = h.contexts;
    workers = h.workers;
    available = λ t v p. wider t v (h.available t v p);
    keys = h.keys;
  }

  pub Moves-Stays :
      {Bound : ℕ → F → Type 0} {A : Type 0} (m : Op F A) → Stays b₀ Bound m → Moves b₀ Bound Bound m
  Moves-Stays m s = record { at = λ b h. let r = s.at b h in (r.0, r.1, λ a e. r.0) }

  continue-Moves :
      {B₁ B₂ B₃ : ℕ → F → Type 0} {A B : Type 0} (r : Outcome A) (k : A → Op F B) (b : Broker F)
      → ((t : ℕ) (v : F) → B₂ t v → B₁ t v)
      → Within b₀ B₁ b
      → EndsWell r
      → ((a : A) → r ≡ returned a → Within b₀ B₂ b)
      → ((a : A) → Moves b₀ B₂ B₃ (k a))
      → Within b₀ B₁ (continue r k b).1
        × EndsWell (continue r k b).0
        × ((x : B) → (continue r k b).0 ≡ returned x → Within b₀ B₃ (continue r k b).1)
  unfolding continue
  continue-Moves (returned a) k b wider h e second f =
      let r = (f a).at b (second a refl) in (Within-weaken (k a b).1 wider r.0, r.1, r.2)
  continue-Moves thrown k b wider h e second f = (h, tt, λ x absurd. ground (arith, absurd))
  continue-Moves (undefined x) k b wider h e second f = (h, e, λ x absurd. ground (arith, absurd))

  pub Moves-bind :
      {B₁ B₂ B₃ : ℕ → F → Type 0} {A B : Type 0} (m : Op F A) (k : A → Op F B)
      → ((t : ℕ) (v : F) → B₂ t v → B₁ t v)
      → Moves b₀ B₁ B₂ m
      → ((a : A) → Moves b₀ B₂ B₃ (k a))
      → Moves b₀ B₁ B₃ (m >>= k)
  unfolding ◌>>=◌
  Moves-bind m k wider km kk = record {
    at = λ b h. let r = km.at b h in continue-Moves (m b).0 k (m b).1 wider r.0 r.1 r.2 kk;
  }

  pub Moves-find :
      {B₁ B₂ : ℕ → F → Type 0} {A : Type 0} (t : ℕ) (m : Op F A) (k : Context F → Op F A)
      → has_context t b₀ ≡ true
      → ((c : Context F) → Moves b₀ B₁ B₂ (k c))
      → Moves b₀ B₁ B₂ (find_context t >>= λ found. elim found [ none ↦ m | some c ↦ k c ])
  unfolding ◌>>=◌ find_context has_context
  Moves-find t m k there found = record {
    at = λ b h. elim (Option-cases (Assoc.lookup t b.request_type_context_lookup)) [
      | inl e ↦ cc (h.contexts t, ap is_some e, there)
      | inr (c, e) ↦ rw (e, continue) ((found c).at b h)
    ];
  }
