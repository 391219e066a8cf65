-- ===== src/Safety/Consistent.antt =====
-- What holds of the broker's state between two events, and the actions that keep it.
use lhcluster.Common.{
  ℕ, ◌≡◌, refl, sym, ap, subst, ◌∙◌, Bool, true, false, Option, some, none, List, [], ◌∷◌, contains,
  arith, nat_eq, eq_iff, if◌then◌else◌,
}
use lhcluster.Wire.{Wire, identity_eq}
use lhcluster.Broker.State.{Broker, Op, Outcome, returned, thrown, undefined, continue, ◌>>=◌, pure}
use lhcluster.Safety.Rules.{
  EndsWell, is_some, has_context, types_of, is_available, worker_keys, Within, Stays,
}
use lhcluster.Safety.Rounds.{AllOpen}
use lhcluster.Safety.Leaving.{AllThere}

abbrev pub lists : Option (List ℕ) → ℕ → Bool
lists none t = false
lists (some ts) t = contains ts t

-- No key twice.
abbrev pub AreDistinct : {F : Type 0} ⦃w : Wire F⦄ → List F → Type 0
AreDistinct [] = Unit {0}
AreDistinct (v ∷ vs) = (contains vs v ≡ false) × AreDistinct vs

module _ {F : Type 0} ⦃w : Wire F⦄ where
  -- The broker knows the worker, with the request type among its types.
  unfoldable pub supports : F → ℕ → Broker F → Bool
  unfolding types_of
  supports v t b = lists (types_of v b) t

  -- A worker that is available for a type is one that the broker knows, with this type among its
  -- types; each type of a known worker has a context; and no worker is known twice.
  pub record IsConsistent (b : Broker F) : Type 0 where
    pub available : (t : ℕ) (v : F) → is_available t v b ≡ true → supports v t b ≡ true
    pub covered : (t : ℕ) (v : F) → supports v t b ≡ true → has_context t b ≡ true
    pub distinct : AreDistinct (worker_keys b)

-- The workers that may be available in a consistent state.
abbrev pub Supported : {F : Type 0} ⦃w : Wire F⦄ → Broker F → ℕ → F → Type 0
Supported b₀ t v = supports v t b₀ ≡ true

-- The action has none of the faults, and what holds of the state when it returns.
abbrev pub Ensures : {F A : Type 0} → (Broker F → Type 0) → Outcome A × Broker F → Type 0
Ensures {A = A} P r = EndsWell r.0 × ((x : A) → r.0 ≡ returned x → P r.1)

module _ {F : Type 0} ⦃w : Wire F⦄ where
  pub continue-Ensures :
      {A B : Type 0} (P : Broker F → Type 0) (r : Outcome A) (k : A → Op F B) (b : Broker F)
      → EndsWell r
      → ((a : A) → r ≡ returned a → Ensures P (k a b))
      → Ensures P (continue r k b)
  unfolding continue
  continue-Ensures P (returned a) k b e f = f a refl
  continue-Ensures P thrown k b e f = (tt, λ x absurd. ground (arith, absurd))
  continue-Ensures P (undefined x) k b e f = (e, λ x absurd. ground (arith, absurd))

module _ {F : Type 0} ⦃w : Wire F⦄ {A : Type 0} where
  -- From a consistent state the action has none of the faults, and it leaves a consistent state
  -- when it returns.
  pub record Preserves (m : Op F A) : Type 0 where
    pub at : (b : Broker F) → IsConsistent b → Ensures IsConsistent (m b)

module _ {F : Type 0} ⦃w : Wire F⦄ where
  pub knows_supported :
      (b₀ : Broker F) (t : ℕ) (v : F) → supports v t b₀ ≡ true → is_some (types_of v b₀) ≡ true
  unfolding supports
  knows_supported b₀ t v h = ground arith

  pub Within-refl : (b : Broker F) → IsConsistent b → Within b (Supported b) b
  Within-refl b h = record {
    contexts = λ t. refl;
    workers = λ v. refl;
    available = h.available;
    keys = refl;
  }

  pub Within-IsConsistent :
      (b₀ b : Broker F) → IsConsistent b₀ → Within b₀ (Supported b₀) b → IsConsistent b
  unfolding supports
  Within-IsConsistent b₀ b h k = record {
    available = λ t v p. ap (λ o. lists o t) (k.workers v) ∙ k.available t v p;
    covered = λ t v p. k.contexts t ∙ h.covered t v (sym (ap (λ o. lists o t) (k.workers v)) ∙ p);
    distinct = subst (λ l. AreDistinct l) (sym k.keys) h.distinct;
  }

  -- An action that stays within the workers that may be available keeps the state consistent.
  pub Stays-Preserves :
      {A : Type 0} (m : Op F A)
      → ((b₀ : Broker F) → IsConsistent b₀ → Stays b₀ (Supported b₀) m)
      → Preserves m
  Stays-Preserves m s = record {
    at = λ b h.
        let r = (s b h).at b (Within-refl b h) in (r.1, λ a e. Within-IsConsistent b (m b).1 h r.0);
  }

  pub Preserves-bind :
      {A B : Type 0} (m : Op F A) (k : A → Op F B)
      → Preserves m
      → ((a : A) → Preserves (k a))
      → Preserves (m >>= k)
  unfolding ◌>>=◌
  Preserves-bind m k km kk = record {
    at = λ b h.
        let r = km.at b h in
        continue-Ensures IsConsistent (m b).0 k (m b).1 r.0 (λ a e. (kk a).at (m b).1 (r.1 a e));
  }

  pub Preserves-if :
      {A : Type 0} (test : Bool) (m n : Op F A)
      → Preserves m
      → Preserves n
      → Preserves (if test then m else n)
  Preserves-if true m n km kn = km
  Preserves-if false m n km kn = kn

  pub Preserves-pure : {A : Type 0} (a : A) → Preserves (pure {F = F} a)
  unfolding pure
  Preserves-pure a = record { at = λ b h. (tt, λ x e. h) }

  -- The types of a known worker have contexts, in a consistent state.
  pub types_open :
      (b₀ : Broker F) (worker : F) (ts all : List ℕ)
      → IsConsistent b₀
      → types_of worker b₀ ≡ some all
      → ((t : ℕ) → contains ts t ≡ true → contains all t ≡ true)
      → AllOpen b₀ (Supported b₀) worker ts
  unfolding supports contains
  types_open b₀ worker [] all h e sub = tt
  types_open b₀ worker (t ∷ ts) all h e sub =
      let s : supports worker t b₀ ≡ true =
        ap (λ o. lists o t) e ∙ sub t (ground (arith, eq_iff t t)) in
      (h.covered t worker s, s, types_open b₀ worker ts all h e (λ j p. sub j (ground (arith, p))))

  pub AllOpen-AllThere :
      (b₀ : Broker F) (Bound : ℕ → F → Type 0) (worker : F) (ts : List ℕ)
      → AllOpen b₀ Bound worker ts
      → AllThere b₀ ts
  AllOpen-AllThere b₀ Bound worker [] h = tt
  AllOpen-AllThere b₀ Bound worker (t ∷ ts) h = (h.0, AllOpen-AllThere b₀ Bound worker ts h.2)
