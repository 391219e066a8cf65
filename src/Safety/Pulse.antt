-- ===== src/Safety/Pulse.antt =====
-- `checkWorkersPulse` of broker.cxx, from a consistent state.
use lhcluster.Common.{
  ℕ, ◌≡◌, sym, ap, ◌∙◌, true, false, some, List, [], ◌∷◌, contains, arith, nat_eq, eq_iff, ◌==◌,
  if◌then◌else◌, Option-cases, Bool-cases, inl, inr, map, subst,
}
use lhcluster.Common.Int.{ℤ, pos}
use lhcluster.Common.Assoc
use lhcluster.Common.Assoc.{lookup-erase, contains-keys, contains-keys-erase}
use lhcluster.Wire.{Wire, identity_eq}
use lhcluster.WorkerInfo
use lhcluster.WorkerInfo.{WorkerInfo}
use lhcluster.Broker.State.{
  Broker, returned, continue, ◌>>=◌, ◌>>◌, pure, gets, deref, the_worker, lookup_worker_info,
  remove_worker_info, modify,
}
use lhcluster.Broker.Death.{handle_worker_death, check_pulses, check_workers_pulse}
use lhcluster.Safety.Rules.{
  is_some, has_context, types_in, types_of, is_available, worker_keys, Within,
}
use lhcluster.Safety.Leaving.{Left, handle_worker_death-Moves}
use lhcluster.Safety.Consistent.{
  supports, IsConsistent, Supported, Preserves, Within-refl, lists, types_open, AreDistinct,
  knows_supported, AllOpen-AllThere, Ensures, continue-Ensures,
}

module _ {F : Type 0} ⦃w : Wire F⦄ where
  AreDistinct-erase :
      (k : F) (m : List (F × WorkerInfo F))
      → AreDistinct (map (λ e. e.0) m)
      → AreDistinct (map (λ e. e.0) (Assoc.erase k m))
  unfolding Assoc.erase
  AreDistinct-erase k [] h = tt
  AreDistinct-erase k ((j, i) ∷ m) h = elim (Bool-cases (j == k)) [
    | inl e ↦ rw e (AreDistinct-erase k m h.1)
    | inr e ↦ rw e (
      contains-keys-erase k j m ∙ ground (arith, h.0, eq_iff k j, eq_iff j k),
      AreDistinct-erase k m h.1,
    )
  ]

  removed-supports :
      (worker v : F) (t : ℕ) (b : Broker F)
      → supports v t (remove_worker_info worker b).1
        ≡ (if worker == v then false else supports v t b)
  unfolding supports types_of remove_worker_info modify
  removed-supports worker v t b =
      ap (λ o. lists (types_in o) t) (lookup-erase worker v b.worker_info_lookup)
      ∙ ground (arith, eq_iff worker v)

  pub removed-IsConsistent :
      (worker : F) (ts : List ℕ) (b₀ b : Broker F)
      → types_of worker b₀ ≡ some ts
      → IsConsistent b₀
      → Within b₀ (Left (Supported b₀) worker ts) b
      → IsConsistent (remove_worker_info worker b).1
  unfolding supports remove_worker_info modify has_context is_available
  removed-IsConsistent worker ts b₀ b known h k =
      let same : (t : ℕ) (v : F) → supports v t b ≡ supports v t b₀ =
        λ t v. ap (λ o. lists o t) (k.workers v) in
      record {
        available = λ t v p.
            let q = k.available t v p in
            removed-supports worker v t b
            ∙ ground (arith, q.0, q.1, same t v, known, eq_iff worker v);
        covered = λ t v p.
            k.contexts t
            ∙ h.covered t v (ground (arith, sym (removed-supports worker v t b) ∙ p, same t v));
        distinct =
            AreDistinct-erase worker b.worker_info_lookup
              (subst (λ l. AreDistinct l) (sym k.keys) h.distinct);
      }

module _ {F : Type 0} ⦃w : Wire F⦄ where
  -- `b` is consistent and knows the other workers of `b₀`.
  abbrev Buried : F → Broker F → Broker F → Type 0
  Buried worker b₀ b =
      IsConsistent b
      × ((v : F)
          → (worker == v) ≡ false
          → is_some (types_of v b₀) ≡ true
          → is_some (types_of v b) ≡ true)

  bury-Ensures :
      (worker : F) (ts : List ℕ) (b : Broker F)
      → types_of worker b ≡ some ts
      → IsConsistent b
      → Ensures
          (Buried worker b)
          ((do r ← handle_worker_death worker; remove_worker_info worker; pure r) b)
  unfolding ◌>>=◌ remove_worker_info modify continue pure types_of
  bury-Ensures worker ts b known h =
      let opened =
        AllOpen-AllThere b (Supported b) worker ts (types_open b worker ts ts h known (λ t p. p)) in
      let r =
        (handle_worker_death-Moves (knows_supported b) worker ts known opened).at b
          (Within-refl b h) in
      continue-Ensures (Buried worker b) (handle_worker_death worker b).0 _
        (handle_worker_death worker b).1 r.1
        λ a e.
          let after = r.2 a e in
          (
            tt,
            λ x _. (
              removed-IsConsistent worker ts b _ known h after,
              λ v other p.
                  ap (λ o. is_some (types_in o))
                    (lookup-erase worker v (handle_worker_death worker b).1.worker_info_lookup)
                  ∙ rw other (ap is_some (after.workers v) ∙ p),
            ),
          )

  check_pulses-Ensures :
      (ws : List F) (ret : ℤ) (b : Broker F)
      → IsConsistent b
      → AreDistinct ws
      → ((v : F) → contains ws v ≡ true → is_some (types_of v b) ≡ true)
      → Ensures IsConsistent (check_pulses ws ret b)
  unfolding check_pulses ◌>>=◌ gets pure the_worker lookup_worker_info deref contains
  check_pulses-Ensures [] ret b h distinct known = (tt, λ x e. h)
  check_pulses-Ensures (v ∷ ws) ret b h distinct known =
      elim (Option-cases (Assoc.lookup v b.worker_info_lookup)) [
        | inl e ↦
            let k : is_some (types_of v b) ≡ true = known v (ground (arith, eq_iff v v)) in
            unfold types_of in cc (k, ap (λ o. is_some (types_in o)) e)
        | inr (i, e) ↦
            elim (Bool-cases (WorkerInfo.is_alive_as_of b.current_time b.worker_death_delay i)) [
              | inl alive ↦
                  rw (e, alive, continue, deref)
                    (check_pulses-Ensures ws ret b h distinct.1
                      (λ u p. known u (ground (arith, p))))
              | inr dead ↦
                  let buried =
                    bury-Ensures v i.supported_request_types b (unfold types_of in ap types_in e)
                      h in
                  rw (e, dead, continue, deref)
                    (continue-Ensures IsConsistent _ (λ ret'. check_pulses ws ret') _ buried.0
                      λ r ok.
                        let after = buried.1 r ok in
                        check_pulses-Ensures ws r _ after.0 distinct.1 (λ u p.
                          after.1 u (ground (arith, p, distinct.0, eq_iff v u))
                            (known u (ground (arith, p)))))
            ]
      ]

  pub check_workers_pulse-Preserves : Preserves (check_workers_pulse {F = F})
  unfolding check_workers_pulse ◌>>=◌ gets continue types_of
  check_workers_pulse-Preserves = record {
    at = λ b h.
        check_pulses-Ensures (worker_keys b) (pos 0) b h h.distinct
          (λ v p. ground (arith, sym (contains-keys v b.worker_info_lookup) ∙ p));
  }

  -- In a consistent state, a worker that the broker knows and that has died is available for no
  -- request type once its death has been handled; and until it is removed the broker knows the same
  -- workers with the same types, and has the same contexts.
  pub handle_worker_death-unavailable :
      (worker : F) (ts : List ℕ) (ret : ℤ) (b : Broker F)
      → types_of worker b ≡ some ts
      → IsConsistent b
      → (handle_worker_death worker b).0 ≡ returned ret
      → ((t : ℕ) → is_available t worker (handle_worker_death worker b).1 ≡ false)
        × ((v : F) → types_of v (handle_worker_death worker b).1 ≡ types_of v b)
        × ((t : ℕ) → has_context t (handle_worker_death worker b).1 ≡ has_context t b)
  unfolding supports
  handle_worker_death-unavailable worker ts ret b known h e =
      let opened =
        AllOpen-AllThere b (Supported b) worker ts (types_open b worker ts ts h known (λ t p. p)) in
      let moves = handle_worker_death-Moves (knows_supported b) worker ts known opened in
      let after = (moves.at b (Within-refl b h)).2 ret e in
      (
        (λ t. elim (Bool-cases (is_available t worker (handle_worker_death worker b).1)) [
          | inl p ↦
              let q = after.available t worker p in
              ground (arith, q.0, q.1, known, eq_iff worker worker)
          | inr p ↦ p
        ]),
        after.workers,
        after.contexts,
      )
