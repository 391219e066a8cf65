-- ===== src/Broker/Rounds.antt =====
-- The loop `while ( FreeCapacity() > 0 && thereAreMoreRequests )` of broker.cxx and its rounds.
use lhcluster.Common.{
  ℕ, zero, suc, ◌^◌, ◌<◌, ◌≤◌, ◌≡◌, refl, ap, Bool, true, false, ◌&&◌, ◌||◌, Option, some, none,
  List, [], ◌∷◌, arith, if◌then◌else◌, Option-cases, Bool-cases, inl, inr, length,
}
use lhcluster.Common.Int.{pos, is_zero}
use lhcluster.Common.Assoc
use lhcluster.Wire.{Wire, identity_eq}
use lhcluster.Context
use lhcluster.Context.{Context}
use lhcluster.WorkerInfo.{WorkerInfo, has_capacity}
use lhcluster.Broker.State.{
  Broker, Outcome, returned, thrown, undefined, continue, Op, ◌>>=◌, ◌>>◌, pure, deref, the_worker,
  lookup_worker_info,
}
use lhcluster.Broker.Forward.{forward_pending}
use lhcluster.Broker.Client.{remove_from_contexts}
use lhcluster.Broker.Availability.{
  Progress, worker_has_room, has_pending, sweep_types, sweep, sweep_all,
}
use lhcluster.Broker.Room.{
  capacity_in, capacity_of, spent, InTime, Takes, Keeps, Takes-weaken, Takes-bind, Takes-pure,
}
use lhcluster.Broker.Keeping.{Keeps-pure, Keeps-bind, Keeps-the_worker, Keeps-the_context}
use lhcluster.Broker.Handover.{
  Keeps-then, Takes-if, forward_pending-Takes, Keeps-remove_from_contexts,
}

-- A pass takes at most one place for each type, and at least one if it asks for another pass without
-- having been told to.
abbrev Swept : Bool → ℕ → Progress → ℕ → Type 0
Swept more most p n = (n ≤ most) × (p.more ≡ true → more ≡ false → 1 ≤ n)

module _ {F : Type 0} ⦃w : Wire F⦄ where
  -- the visit of one type that has a waiting request, before the types that are left
  abbrev visit : F → List ℕ → ℕ → ℕ → Progress → (Progress → Op F Progress) → Op F Progress
  visit v before t id p k = do
    ret ← forward_pending v t id
    if is_zero ret
        then (do
          room ← worker_has_room v
          if room
              then (do next ← has_pending t; k (record p { ret = ret; more = p.more || next }))
              else (do remove_from_contexts v (t ∷ before); pure (record p { ret = ret })))
        else k (record p { ret = pos 0 })

module _ {F : Type 0} ⦃w : Wire F⦄ {v : F} where
  Keeps-worker_has_room : Keeps v (worker_has_room v)
  unfolding worker_has_room
  Keeps-worker_has_room =
      Keeps-bind _ _ (Keeps-the_worker v) (λ i. Keeps-pure (has_capacity i.free_capacity))

  Keeps-has_pending : (t : ℕ) → Keeps v (has_pending t)
  unfolding has_pending
  Keeps-has_pending t = Keeps-bind _ _ (Keeps-the_context t) (λ c. Keeps-pure _)

  visit-Takes :
      (before : List ℕ) (t id : ℕ) (p : Progress) (k : Progress → Op F Progress) (most : ℕ)
      → ((q : Progress) → Takes v (Swept q.more most) (k q))
      → Takes v (Swept p.more (suc most)) (visit v before t id p k)
  visit-Takes before t id p k most h =
      Takes-bind (forward_pending v t id) _ (forward_pending-Takes t id) λ ret n gave.
        let after_success : Progress → Bool → Progress =
          λ q next. record q { ret = ret; more = q.more || next } in
        Takes-if (is_zero ret) _ (k (record p { ret = pos 0 }))
          (λ zero_ret. Keeps-then (worker_has_room v) _ Keeps-worker_has_room λ room.
            Takes-if room _ (do remove_from_contexts v (t ∷ before); pure (record p { ret = ret }))
              (λ _. Keeps-then (has_pending t) _ (Keeps-has_pending t) λ next.
                Takes-weaken (k (after_success p next))
                  (λ q i swept.
                    (omega (arith, gave.0, swept.0), λ m f. omega (arith, gave.1 zero_ret)))
                  (h (after_success p next)))
              (λ _. Keeps-then _ _ (Keeps-remove_from_contexts v (t ∷ before)) λ _.
                Takes-pure (record p { ret = ret })
                  (omega (arith, gave.0), λ m f. ground (arith, m, f))))
          (λ failed.
            Takes-weaken (k (record p { ret = pos 0 }))
              (λ q i swept. (omega (arith, gave.0, swept.0), λ m f. omega (arith, swept.1 m f)))
              (h (record p { ret = pos 0 })))

  Takes-option :
      {A B : Type 0} {Q : B → ℕ → Type 0} (o : Option A) (m : Op F B) (k : A → Op F B)
      → Takes v Q m
      → ((a : A) → Takes v Q (k a))
      → Takes v Q (elim o [ none ↦ m | some a ↦ k a ])
  Takes-option none m k h hk = h
  Takes-option (some a) m k h hk = hk a

  sweep_types-Takes :
      (before ts : List ℕ) (p : Progress)
      → Takes v (Swept p.more (length ts)) (sweep_types v before ts p)
  unfolding sweep_types
  sweep_types-Takes before [] p = Takes-pure p (omega arith, λ e f. ground (arith, e, f))
  sweep_types-Takes before (t ∷ ts) p =
      let rest = sweep_types-Takes (t ∷ before) ts in
      Keeps-then _ _ (Keeps-the_context t) λ c.
        Takes-option (Context.get_next_pending_request c) (sweep_types v (t ∷ before) ts p)
          (λ id. visit v before t id p (sweep_types v (t ∷ before) ts))
          (Takes-weaken (sweep_types v (t ∷ before) ts p)
            (λ q n swept. (omega (arith, swept.0), swept.1)) (rest p))
          (λ id. visit-Takes before t id p (sweep_types v (t ∷ before) ts) (length ts) rest)

-- There is a round to look at the condition, and one for each place of the worker if it holds.
abbrev IsEnough : ℕ → Bool → ℕ → Type 0
IsEnough rounds more c = (0 < rounds) × (has_capacity c ≡ true → more ≡ true → c < rounds)

has_capacity_lem : (c : ℕ) → has_capacity c ≡ true → (0 < c) × (c < 2 ^ 31)
has_capacity_lem c h = (ground (arith, h), ground (arith, h))

spent_lt : (n c : ℕ) → spent n c < 2 ^ 32
spent_lt n c = omega arith

spent-IsEnough :
    (rounds c n most : ℕ) (more : Bool)
    → has_capacity c ≡ true
    → c < suc rounds
    → n ≤ most
    → most ≤ 2 ^ 31
    → (more ≡ true → 1 ≤ n)
    → IsEnough rounds more (spent n c)
spent-IsEnough rounds c n most more room enough few bounded some_taken = (
  ground (arith, room, enough),
  λ room' m.
      let old = has_capacity_lem c room in
      let new = has_capacity_lem (spent n c) room' in
      omega (arith, old.0, old.1, new.0, new.1, enough, few, bounded, some_taken m),
)

module _ {F : Type 0} ⦃w : Wire F⦄ (v : F) where
  continue-InTime :
      {A B : Type 0} (r : Outcome A) (k : A → Op F B) (b : Broker F)
      → InTime r
      → ((a : A) → r ≡ returned a → InTime (k a b).0)
      → InTime (continue r k b).0
  unfolding continue
  continue-InTime (returned a) k b t f = f a refl
  continue-InTime thrown k b t f = tt
  continue-InTime (undefined e) k b t f = t

  sweep-InTime :
      (rounds : ℕ) (ts : List ℕ) (p : Progress) (b : Broker F) (c : ℕ)
      → capacity_of v b ≡ some c
      → c < 2 ^ 32
      → length ts ≤ 2 ^ 31
      → IsEnough rounds p.more c
      → InTime (sweep rounds v ts p b).0
  unfolding sweep worker_has_room the_worker lookup_worker_info deref ◌>>=◌ pure capacity_of
  sweep-InTime zero ts p b c e small few fuel = ground (arith, fuel.0)
  sweep-InTime (suc rounds) ts p b c e small few fuel =
      elim (Option-cases (Assoc.lookup v b.worker_info_lookup)) [
        | inl none_there ↦ ground (arith, e, none_there)
        | inr (i, there) ↦
            let capacity : i.free_capacity ≡ c = ground (arith, e, there) in
            elim (Bool-cases (has_capacity c && p.more)) [
              | inl go ↦
                  let p₀ : Progress = record p { more = false } in
                  let taken = (sweep_types-Takes {F = F} ⦃w = w⦄ {v = v} [] ts p₀).at b c e small in
                  rw (there, continue, capacity, go)
                    (continue-InTime (sweep_types v [] ts p₀ b).0 (sweep rounds v ts)
                      (sweep_types v [] ts p₀ b).1 taken.0
                      λ q ok.
                        let s = taken.1 q ok in
                        sweep-InTime rounds ts q (sweep_types v [] ts p₀ b).1 (spent s.0 c) s.2
                          (spent_lt s.0 c) few
                          (spent-IsEnough rounds c s.0 (length ts) q.more (ground (arith, go))
                            (ground (arith, go, fuel.1)) s.1.0 few (λ m. s.1.1 m refl)))
              | inr stop ↦ rw (there, continue, capacity, stop) tt
            ]
      ]

  -- The rounds of `sweep_all` are enough: the loop over the types of a worker ends, for a worker with
  -- at most 2 ^ 31 request types.
  pub sweep_all-InTime :
      (ts : List ℕ) (p : Progress) (b : Broker F) (i : WorkerInfo F)
      → Assoc.lookup v b.worker_info_lookup ≡ some i
      → i.free_capacity < 2 ^ 32
      → length ts ≤ 2 ^ 31
      → InTime (sweep_all v ts p b).0
  unfolding sweep_all the_worker lookup_worker_info deref ◌>>=◌ pure capacity_of
  sweep_all-InTime ts p b i there small few =
      rw (there, continue)
        (continue-InTime (sweep (suc (suc i.free_capacity)) v ts p b).0 _
          (sweep (suc (suc i.free_capacity)) v ts p b).1
          (sweep-InTime (suc (suc i.free_capacity)) ts p b i.free_capacity (ap capacity_in there)
            small few (omega arith, λ room m. omega arith))
          (λ q ok. tt))
