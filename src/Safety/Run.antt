-- ===== src/Safety/Run.antt =====
-- The loop of the broker's reactor (liblhcluster/src/broker.cxx).
use lhcluster.Common.{◌≡◌, refl, false, List, [], ◌∷◌, arith, if◌then◌else◌, Bool-cases, inl, inr}
use lhcluster.Common.Int.{ℤ, is_neg}
use lhcluster.Wire.{Wire, identity_eq}
use lhcluster.Broker.State.{Broker, Op, Outcome, returned, thrown, undefined, continue, ◌>>=◌, pure}
use lhcluster.Broker.Reactor.{Event, reactor, run}
use lhcluster.Safety.Rules.{EndsWell}
use lhcluster.Safety.Consistent.{IsConsistent}
use lhcluster.Safety.Reactor.{Endures, reactor-Endures}

module _ {F : Type 0} ⦃w : Wire F⦄ where
  continue-Endures :
      (o : Outcome ℤ) (k : Op F ℤ) (b : Broker F)
      → EndsWell o
      → ((ret : ℤ) → o ≡ returned ret → is_neg ret ≡ false → Endures (k b))
      → Endures (continue o (λ ret. if is_neg ret then pure ret else k) b)
  unfolding continue pure
  continue-Endures (returned ret) k b e f = elim (Bool-cases (is_neg ret)) [
    | inl n ↦ rw n (tt, λ x q n'. ground (arith, q, n, n'))
    | inr n ↦ rw n (f ret refl n)
  ]
  continue-Endures thrown k b e f = (tt, λ x q n. ground (arith, q))
  continue-Endures (undefined x) k b e f = (e, λ x q n. ground (arith, q))

  run-Endures : (es : List (Event F)) (b : Broker F) → IsConsistent b → Endures (run es b)
  unfolding run ◌>>=◌ continue pure
  run-Endures [] b h = (tt, λ x e n. h)
  run-Endures (e ∷ es) b h =
      let r = reactor-Endures e b h in
      continue-Endures (reactor e b).0 (run es) (reactor e b).1 r.0
        (λ ret q n. run-Endures es (reactor e b).1 (r.1 ret q n))

  -- Whatever messages and timers wake a broker in a consistent state, in whatever order, and however
  -- the calls of `Send` fail, no run reads through an iterator of the context map that is at its end,
  -- or through a `WorkerInfo*` of a known or available worker to one that is gone. The worker that a
  -- request in progress keeps is not among these.
  pub run-EndsWell : (es : List (Event F)) (b : Broker F) → IsConsistent b → EndsWell (run es b).0
  run-EndsWell es b h = (run-Endures es b h).0

  -- After any messages and timers that a broker in a consistent state handles without a callback
  -- that returns a negative number, each worker that is available for a type is known and has the
  -- type among its types, each type of a known worker has a context, and no worker is known twice.
  pub run-IsConsistent :
      (es : List (Event F)) (b : Broker F) (ret : ℤ)
      → IsConsistent b
      → (run es b).0 ≡ returned ret
      → is_neg ret ≡ false
      → IsConsistent (run es b).1
  run-IsConsistent es b ret h e n = (run-Endures es b h).1 ret e n
