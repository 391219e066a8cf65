-- ===== src/Broker/Room.antt =====
-- A worker's room, for the loop `while ( FreeCapacity() > 0 && thereAreMoreRequests )` of
-- broker.cxx, and rules for what an action takes of it.
use lhcluster.Common.{
  ℕ, ◌+◌, ◌-◌, ◌*◌, ◌%◌, ◌^◌, ◌<◌, ◌≡◌, refl, ap, subst, ◌∙◌, Option, some, none, arith, nat_eq,
}
use lhcluster.Common.Assoc
use lhcluster.Common.Assoc.{lookup-update}
use lhcluster.Wire.{Wire, identity_eq}
use lhcluster.WorkerInfo.{WorkerInfo}
use lhcluster.Broker.State.{
  Broker, Fault, out_of_rounds, Outcome, returned, thrown, undefined, continue, Op, ◌>>=◌, pure,
}

abbrev pub capacity_in : {F : Type 0} → Option (WorkerInfo F) → Option ℕ
capacity_in none = none
capacity_in (some i) = some i.free_capacity

module _ {F : Type 0} ⦃w : Wire F⦄ where
  unfoldable pub capacity_of : F → Broker F → Option ℕ
  capacity_of v b = capacity_in (Assoc.lookup v b.worker_info_lookup)

-- `--freeCapacity`, some times
abbrev pub spent : ℕ → ℕ → ℕ
spent n c = (c + n * (2 ^ 32 - 1)) % 2 ^ 32

-- The fault is not that the rounds ran out.
abbrev pub InTime : {A : Type 0} → Outcome A → Type 0
InTime (undefined out_of_rounds) = ⊥
InTime _ = Unit {0}

abbrev pub OtherFault : Fault → Type 0
OtherFault out_of_rounds = ⊥
OtherFault _ = Unit {0}

module _ {F : Type 0} ⦃w : Wire F⦄ {A : Type 0} where
  -- When the action returns, it has taken so much of the worker's room as the condition says.
  pub record Takes (v : F) (Post : A → ℕ → Type 0) (m : Op F A) : Type 0 where
    pub at :
        (b : Broker F) (c : ℕ)
        → capacity_of v b ≡ some c
        → c < 2 ^ 32
        → InTime (m b).0
          × ((a : A)
              → (m b).0 ≡ returned a
              → (n : ℕ) × Post a n × (capacity_of v (m b).1 ≡ some (spent n c)))

  -- The action takes none of the worker's room.
  abbrev pub Keeps : F → Op F A → Type 0
  Keeps v m = Takes v (λ a n. n ≡ 0) m

module _ {F : Type 0} ⦃w : Wire F⦄ {v : F} where
  pub Takes-weaken :
      {A : Type 0} {P Q : A → ℕ → Type 0} (m : Op F A)
      → ((a : A) (n : ℕ) → P a n → Q a n)
      → Takes v P m
      → Takes v Q m
  Takes-weaken m f k = record {
    at = λ b c e small.
        let r = k.at b c e small in (r.0, λ a q. let s = r.1 a q in (s.0, f a s.0 s.1, s.2));
  }

  continue-Takes :
      {A B : Type 0} {P : A → ℕ → Type 0} {Q : B → ℕ → Type 0} (r : Outcome A) (k : A → Op F B)
      (b : Broker F) (c : ℕ)
      → InTime r
      → ((a : A) → r ≡ returned a → (n : ℕ) × P a n × (capacity_of v b ≡ some (spent n c)))
      → ((a : A) (n : ℕ) → P a n → Takes v (λ x i. Q x (n + i)) (k a))
      → InTime (continue r k b).0
        × ((x : B)
            → (continue r k b).0 ≡ returned x
            → (n : ℕ) × Q x n × (capacity_of v (continue r k b).1 ≡ some (spent n c)))
  unfolding continue
  continue-Takes (returned a) k b c t h f =
      let s = h a refl in
      let r = (f a s.0 s.1).at b (spent s.0 c) s.2 (omega arith) in
      (r.0, λ x q. let u = r.1 x q in (s.0 + u.0, u.1, u.2 ∙ ap some (omega arith)))
  continue-Takes thrown k b c t h f = (tt, λ x q. ground (arith, q))
  continue-Takes (undefined e) k b c t h f = (t, λ x q. ground (arith, q))

  pub Takes-bind :
      {A B : Type 0} {P : A → ℕ → Type 0} {Q : B → ℕ → Type 0} (m : Op F A) (k : A → Op F B)
      → Takes v P m
      → ((a : A) (n : ℕ) → P a n → Takes v (λ x i. Q x (n + i)) (k a))
      → Takes v Q (m >>= k)
  unfolding ◌>>=◌
  Takes-bind m k km kk = record {
    at = λ b c e small. let r = km.at b c e small in continue-Takes (m b).0 k (m b).1 c r.0 r.1 kk;
  }

  pub Takes-pure : {A : Type 0} {P : A → ℕ → Type 0} (a : A) → P a 0 → Takes v P (pure a)
  unfolding pure
  Takes-pure {P = P} a p = record {
    at = λ b c e small. (
      tt,
      λ x q. (0, subst (λ y. P y 0) (ground (arith, q)) p, e ∙ ap some (omega (arith, small))),
    );
  }
