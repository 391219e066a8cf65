-- ===== src/Safety/Rules.antt =====
-- What a handler of broker.cxx is to keep: the contexts that exist, the workers that are known with
-- their request types, and a bound on who is available for what; one rule for each action.
use lhcluster.Common.{
  ℕ, ◌≡◌, refl, sym, ap, ◌∙◌, Bool, true, false, inl, inr, Option, some, none, List, contains, map,
  Option-cases, nat_eq, if◌then◌else◌,
}
use lhcluster.Common.Assoc
use lhcluster.Wire.{Wire, Message, identity_eq}
use lhcluster.Context.{Context}
use lhcluster.WorkerInfo.{WorkerInfo}
use lhcluster.Broker.State.{
  Broker, Socket, Fault, missing_context, dangling_worker, Outcome, returned, thrown, undefined, Op,
  pure, throw, undefined_by, gets, deref, value, continue, ◌>>=◌, find_context, send,
}

-- Not the fault of following an end iterator of the context map, or a pointer to a worker that is
-- gone; the worker that a request in progress keeps has a fault of its own.
abbrev pub IsBenign : Fault → Type 0
IsBenign missing_context = ⊥
IsBenign dangling_worker = ⊥
IsBenign _ = Unit {0}

abbrev pub EndsWell : {A : Type 0} → Outcome A → Type 0
EndsWell (returned a) = Unit {0}
EndsWell thrown = Unit {0}
EndsWell (undefined e) = IsBenign e

abbrev pub is_some : {A : Type 0} → Option A → Bool
is_some none = false
is_some (some a) = true

module _ {F : Type 0} ⦃w : Wire F⦄ where
  unfoldable pub has_context : ℕ → Broker F → Bool
  has_context t b = is_some (Assoc.lookup t b.request_type_context_lookup)

  abbrev pub types_in : Option (WorkerInfo F) → Option (List ℕ)
  types_in none = none
  types_in (some i) = some i.supported_request_types

  -- The request types of a worker, if the broker knows it.
  unfoldable pub types_of : F → Broker F → Option (List ℕ)
  types_of v b = types_in (Assoc.lookup v b.worker_info_lookup)

  abbrev pub available_in : Option (Context F) → F → Bool
  available_in none v = false
  available_in (some c) v = contains c.available_workers v

  unfoldable pub is_available : ℕ → F → Broker F → Bool
  is_available t v b = available_in (Assoc.lookup t b.request_type_context_lookup) v

  abbrev pub worker_keys : Broker F → List F
  worker_keys b = map (λ e. e.0) b.worker_info_lookup

  -- `b` has the contexts and the workers of `b₀`, and who is available for what is within `Bound`.
  pub record Within (b₀ : Broker F) (Bound : ℕ → F → Type 0) (b : Broker F) : Type 0 where
    pub contexts : (t : ℕ) → has_context t b ≡ has_context t b₀
    pub workers : (v : F) → types_of v b ≡ types_of v b₀
    pub available : (t : ℕ) (v : F) → is_available t v b ≡ true → Bound t v
    pub keys : worker_keys b ≡ worker_keys b₀

module _ {F : Type 0} ⦃w : Wire F⦄ {A : Type 0} where
  -- The action stays within the bound, and has none of the faults above.
  pub record Stays (b₀ : Broker F) (Bound : ℕ → F → Type 0) (m : Op F A) : Type 0 where
    pub at : (b : Broker F) → Within b₀ Bound b → Within b₀ Bound (m b).1 × EndsWell (m b).0

module _ {F : Type 0} ⦃w : Wire F⦄ {b₀ : Broker F} {Bound : ℕ → F → Type 0} where
  pub Stays-pure : {A : Type 0} (a : A) → Stays b₀ Bound (pure a)
  unfolding pure
  Stays-pure a = record { at = λ b h. (h, tt) }

  pub Stays-throw : {A : Type 0} → Stays b₀ Bound (throw {A = A})
  unfolding throw
  Stays-throw = record { at = λ b h. (h, tt) }

  pub Stays-undefined_by :
      {A : Type 0} (e : Fault) → IsBenign e → Stays b₀ Bound (undefined_by {A = A} e)
  unfolding undefined_by
  Stays-undefined_by e k = record { at = λ b h. (h, k) }

  pub Stays-gets : {A : Type 0} (f : Broker F → A) → Stays b₀ Bound (gets f)
  unfolding gets
  Stays-gets f = record { at = λ b h. (h, tt) }

  pub Stays-value : {A : Type 0} (o : Option A) → Stays b₀ Bound (value o)
  unfolding value
  Stays-value none = record { at = λ b h. (h, tt) }
  Stays-value (some a) = record { at = λ b h. (h, tt) }

  pub Stays-deref :
      {A : Type 0} (e : Fault) (o : Option A) → IsBenign e → Stays b₀ Bound (deref e o)
  unfolding deref
  Stays-deref e none k = record { at = λ b h. (h, k) }
  Stays-deref e (some a) k = record { at = λ b h. (h, tt) }

  pub Stays-send : (s : Socket) (m : Message F) → Stays b₀ Bound (send s m)
  unfolding send has_context types_of is_available
  Stays-send s m = record {
    at = λ b h. (
      record { contexts = h.contexts; workers = h.workers; available = h.available; keys = h.keys },
      tt,
    );
  }

  pub Stays-if :
      {A : Type 0} (test : Bool) (m n : Op F A)
      → Stays b₀ Bound m
      → Stays b₀ Bound n
      → Stays b₀ Bound (if test then m else n)
  Stays-if true m n km kn = km
  Stays-if false m n km kn = kn

  continue-ends :
      {A B : Type 0} (r : Outcome A) (k : A → Op F B) (b : Broker F)
      → Within b₀ Bound b
      → EndsWell r
      → ((a : A) → r ≡ returned a → Stays b₀ Bound (k a))
      → Within b₀ Bound (continue r k b).1 × EndsWell (continue r k b).0
  unfolding continue
  continue-ends (returned a) k b h e f = (f a refl).at b h
  continue-ends thrown k b h e f = (h, tt)
  continue-ends (undefined x) k b h e f = (h, e)

  pub Stays-bind :
      {A B : Type 0} (m : Op F A) (k : A → Op F B)
      → Stays b₀ Bound m
      → ((a : A) → Stays b₀ Bound (k a))
      → Stays b₀ Bound (m >>= k)
  unfolding ◌>>=◌
  Stays-bind m k km kk = record {
    at = λ b h. let r = km.at b h in continue-ends (m b).0 k (m b).1 r.0 r.1 (λ a _. kk a);
  }

  -- A context that is found is one of those of `b₀`, and its available workers are within the bound.
  pub Stays-find :
      {A : Type 0} (t : ℕ) (m : Op F A) (k : Context F → Op F A)
      → (has_context t b₀ ≡ false → Stays b₀ Bound m)
      → ((c : Context F)
          → has_context t b₀ ≡ true
          → ((v : F) → contains c.available_workers v ≡ true → Bound t v)
          → Stays b₀ Bound (k c))
      → Stays b₀ Bound (find_context t >>= λ found. elim found [ none ↦ m | some c ↦ k c ])
  unfolding ◌>>=◌ find_context has_context is_available
  Stays-find t m k missing found = record {
    at = λ b h. elim (Option-cases (Assoc.lookup t b.request_type_context_lookup)) [
      | inl e ↦ rw (e, continue) ((missing (sym (h.contexts t) ∙ ap is_some e)).at b h)
      | inr (c, e) ↦
          rw (e, continue)
            ((found c (sym (h.contexts t) ∙ ap is_some e)
                (λ v p. h.available t v (ap (λ o. available_in o v) e ∙ p))).at
              b h)
    ];
  }

  -- The rest of a block may use what the pointer gave.
  pub Stays-deref_bind :
      {A B : Type 0} (e : Fault) (o : Option A) (k : A → Op F B)
      → IsBenign e
      → ((a : A) → o ≡ some a → Stays b₀ Bound (k a))
      → Stays b₀ Bound (deref e o >>= k)
  unfolding ◌>>=◌ deref continue
  Stays-deref_bind e none k benign kk = record { at = λ b h. (h, benign) }
  Stays-deref_bind e (some a) k benign kk = kk a refl

  pub Stays-option :
      {A B : Type 0} (o : Option A) (m : Op F B) (k : A → Op F B)
      → (o ≡ none → Stays b₀ Bound m)
      → ((a : A) → o ≡ some a → Stays b₀ Bound (k a))
      → Stays b₀ Bound (elim o [ none ↦ m | some a ↦ k a ])
  Stays-option none m k h hk = h refl
  Stays-option (some a) m k h hk = hk a refl
