-- ===== src/Action/Keeps.antt =====
-- Properties of the state that the actions of an actor preserve, one rule for each way to build an
-- action; liblhcluster/src/worker.cxx and clientproxy.cxx are read through them.
use lhcluster.Common.{Bool, true, false, Option, some, none, ◌≡◌, refl, if◌then◌else◌}
use lhcluster.Common.Int.{ℤ, negsuc}
use lhcluster.Broker.Parse.{Parsed, parsed, malformed, unparsable}
use lhcluster.Action.{
  Act, Result, returned, thrown, pure, throw, gets, value, modify, continue, ◌>>=◌, with_fields,
  caught,
}

-- Whatever the action returns, the state has the property after it, if it had it before.
pub record Keeps {S A : Type 0} (P : S → Type 0) (m : Act S A) : Type 0 where
  pub at : (s : S) → P s → P (m s).1

pub caught_at :
    {S : Type 0} (P : S → Type 0) (r : Result ℤ) (s : S)
    → P s
    → P
        (elim r as (λ _. Result ℤ × S) [
          | returned ret ↦ (returned ret, s)
          | thrown ↦ (returned (negsuc 0), s)
        ]).1
caught_at P (returned ret) s h = h
caught_at P thrown s h = h

pub with_fields_at :
    {S A : Type 0} (P : S → Type 0) (fields : Parsed A) (k : A → Act S ℤ) (s : S)
    → P s
    → ((a : A) → P (k a s).1)
    → P (with_fields fields k s).1
unfolding with_fields pure throw
with_fields_at P (parsed a) k s h hk = hk a
with_fields_at P (malformed code) k s h hk = h
with_fields_at P unparsable k s h hk = h

module _ {S : Type 0} {P : S → Type 0} where
  pub Keeps-pure : {A : Type 0} (a : A) → Keeps P (pure a)
  unfolding pure
  Keeps-pure a = record { at = λ s h. h }

  pub Keeps-throw : {A : Type 0} → Keeps P (throw {A = A})
  unfolding throw
  Keeps-throw = record { at = λ s h. h }

  pub Keeps-gets : {A : Type 0} (f : S → A) → Keeps P (gets f)
  unfolding gets
  Keeps-gets f = record { at = λ s h. h }

  pub Keeps-value : {A : Type 0} (o : Option A) → Keeps P (value o)
  unfolding value
  Keeps-value none = record { at = λ s h. h }
  Keeps-value (some a) = record { at = λ s h. h }

  pub Keeps-modify : (f : S → S) → ((s : S) → P s → P (f s)) → Keeps P (modify f)
  unfolding modify
  Keeps-modify f k = record { at = k }

  pub Keeps-if :
      {A : Type 0} (test : Bool) (m n : Act S A)
      → Keeps P m
      → Keeps P n
      → Keeps P (if test then m else n)
  Keeps-if true m n km kn = km
  Keeps-if false m n km kn = kn

  pub Keeps-option :
      {A B : Type 0} (o : Option A) (m : Act S B) (k : A → Act S B)
      → Keeps P m
      → ((a : A) → o ≡ some a → Keeps P (k a))
      → Keeps P (elim o [ none ↦ m | some a ↦ k a ])
  Keeps-option none m k hm hk = hm
  Keeps-option (some a) m k hm hk = hk a refl

  continue_keeps :
      {A B : Type 0} (r : Result A) (k : A → Act S B) (s : S)
      → P s
      → ((a : A) → Keeps P (k a))
      → P (continue r k s).1
  unfolding continue
  continue_keeps (returned a) k s h hk = (hk a).at s h
  continue_keeps thrown k s h hk = h

  pub Keeps-bind :
      {A B : Type 0} (m : Act S A) (k : A → Act S B)
      → Keeps P m
      → ((a : A) → Keeps P (k a))
      → Keeps P (m >>= k)
  unfolding ◌>>=◌
  Keeps-bind m k hm hk = record { at = λ s h. continue_keeps (m s).0 k (m s).1 (hm.at s h) hk }

  pub Keeps-value_bind :
      {A B : Type 0} (o : Option A) (k : A → Act S B)
      → ((a : A) → o ≡ some a → Keeps P (k a))
      → Keeps P (value o >>= k)
  unfolding ◌>>=◌ value continue
  Keeps-value_bind none k h = record { at = λ s p. p }
  Keeps-value_bind (some a) k h = record { at = λ s p. (h a refl).at s p }

  pub Keeps-with_fields :
      {A : Type 0} (fields : Parsed A) (k : A → Act S ℤ)
      → ((a : A) → Keeps P (k a))
      → Keeps P (with_fields fields k)
  unfolding with_fields
  Keeps-with_fields (parsed a) k h = h a
  Keeps-with_fields (malformed code) k h = Keeps-pure _
  Keeps-with_fields unparsable k h = Keeps-throw

  pub Keeps-caught : (m : Act S ℤ) → Keeps P m → Keeps P (caught m)
  unfolding caught
  Keeps-caught m h = record { at = λ s p. caught_at P (m s).0 (m s).1 (h.at s p) }

  pub ruleset keeping = (
    Keeps-pure, Keeps-throw, Keeps-gets, Keeps-value, Keeps-if, Keeps-option, Keeps-bind,
    Keeps-with_fields,
  )
