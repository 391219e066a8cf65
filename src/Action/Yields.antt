-- ===== src/Action/Yields.antt =====
-- What the actions of an actor have as their result from states with a property, which they keep: the
-- loop of StartAsPrimary of liblhcluster/src/notifysubscriber.cxx is read through it.
use lhcluster.Common.{Bool, true, false, if◌then◌else◌}
use lhcluster.Common.Int.{ℤ, negsuc}
use lhcluster.Action.{Act, Result, returned, thrown, pure, gets, modify, continue, ◌>>=◌, caught}
use lhcluster.Action.Keeps.{Keeps, caught_at}

-- An action that returns, and does not throw.
abbrev pub HasReturned : {A : Type 0} → Result A → Type 0
HasReturned (returned a) = Unit {0}
HasReturned thrown = ⊥

-- From a state with the property, the action has a result of this kind, and the state has the property
-- after it.
pub record Yields {S A : Type 0} (P : S → Type 0) (Q : Result A → Type 0) (m : Act S A)
    : Type 0 where
  pub at : (s : S) → P s → Q (m s).0 × P (m s).1

yields_continue :
    {S A B : Type 0} (P : S → Type 0) (Q : Result B → Type 0) (r : Result A) (k : A → Act S B)
    (s : S)
    → HasReturned r
    → P s
    → ((a : A) → Yields P Q (k a))
    → Q (continue r k s).0 × P (continue r k s).1
unfolding continue
yields_continue P Q (returned a) k s done h hk = (hk a).at s h
yields_continue P Q thrown k s done h hk = elim done [ ]

caught_returns :
    {S : Type 0} (r : Result ℤ) (s : S)
    → HasReturned
        (elim r as (λ _. Result ℤ × S) [
          | returned ret ↦ (returned ret, s)
          | thrown ↦ (returned (negsuc 0), s)
        ]).0
caught_returns (returned ret) s = tt
caught_returns thrown s = tt

module _ {S : Type 0} {P : S → Type 0} where
  pub Yields-bind :
      {A B : Type 0} {Q : Result B → Type 0} (m : Act S A) (k : A → Act S B)
      → Yields P HasReturned m
      → ((a : A) → Yields P Q (k a))
      → Yields P Q (m >>= k)
  unfolding ◌>>=◌
  Yields-bind m k hm hk = record {
    at = λ s h. let x = hm.at s h in yields_continue P _ (m s).0 k (m s).1 x.0 x.1 hk;
  }

  pub Yields-caught : (m : Act S ℤ) → Keeps P m → Yields P HasReturned (caught m)
  unfolding caught
  Yields-caught m k = record {
    at = λ s h. (caught_returns (m s).0 (m s).1, caught_at P (m s).0 (m s).1 (k.at s h));
  }

  pub Yields-pure : {A : Type 0} (a : A) → Yields P HasReturned (pure a)
  unfolding pure
  Yields-pure a = record { at = λ s h. (tt, h) }

  pub Yields-gets : {A : Type 0} (f : S → A) → Yields P HasReturned (gets f)
  unfolding gets
  Yields-gets f = record { at = λ s h. (tt, h) }

  pub Yields-modify : (f : S → S) → ((s : S) → P s → P (f s)) → Yields P HasReturned (modify f)
  unfolding modify
  Yields-modify f k = record { at = λ s h. (tt, k s h) }

  pub Yields-if :
      {A : Type 0} {Q : Result A → Type 0} (test : Bool) (m n : Act S A)
      → Yields P Q m
      → Yields P Q n
      → Yields P Q (if test then m else n)
  Yields-if true m n km kn = km
  Yields-if false m n km kn = kn
