-- ===== src/Safety/Rounds.antt =====
-- The rules for the loops of broker.cxx that give waiting requests to a worker.
use lhcluster.Common.{ℕ, zero, suc, ◌≡◌, Bool, true, false, some, List, [], ◌∷◌, nat_eq}
use lhcluster.Wire.{Wire, identity_eq}
use lhcluster.Context
use lhcluster.Context.{Context}
use lhcluster.WorkerInfo.{has_capacity}
use lhcluster.Broker.State.{Broker, out_of_rounds}
use lhcluster.Broker.Availability.{
  Progress, no_progress, remove_from_known_contexts, worker_has_room, has_pending,
  give_first_pending, sweep_types, sweep, sweep_all, remove_finished, refill_types,
  remove_unvisited, update_contexts_for_finished_worker,
}
use lhcluster.Safety.Rules.{
  is_some, has_context, types_of, Stays, Stays-pure, Stays-undefined_by, Stays-bind, Stays-if,
  Stays-find, Stays-option,
}
use lhcluster.Safety.Actions.{Stays-the_context, Stays-the_worker, add_available-Stays}
use lhcluster.Safety.Handlers.{
  basic, forward_pending-Stays, remove_from_contexts-Stays, remove_request-Stays,
  remove_available-Stays,
}

-- The contexts of the types exist, and the worker may be available for them.
abbrev pub AllOpen :
    {F : Type 0} ⦃w : Wire F⦄ (b₀ : Broker F) (Bound : ℕ → F → Type 0) → F → List ℕ → Type 0
AllOpen b₀ Bound worker [] = Unit {0}
AllOpen b₀ Bound worker (t ∷ ts) =
    (has_context t b₀ ≡ true) × Bound t worker × AllOpen b₀ Bound worker ts

module _ {F : Type 0} ⦃w : Wire F⦄ {b₀ : Broker F} {Bound : ℕ → F → Type 0} where
  remove_from_known_contexts-Stays :
      (worker : F) (ts : List ℕ)
      → AllOpen b₀ Bound worker ts
      → Stays b₀ Bound (remove_from_known_contexts worker ts)
  unfolding remove_from_known_contexts
  remove_from_known_contexts-Stays worker [] open_ts = Stays-pure tt
  remove_from_known_contexts-Stays worker (t ∷ ts) open_ts =
      Stays-bind _ _ (remove_available-Stays t worker open_ts.0)
        (λ _. remove_from_known_contexts-Stays worker ts open_ts.2)

  pub worker_has_room-Stays :
      (worker : F) → is_some (types_of worker b₀) ≡ true → Stays b₀ Bound (worker_has_room worker)
  unfolding worker_has_room
  worker_has_room-Stays worker known = Stays-the_worker worker _ known (λ i e. Stays-pure _)

  has_pending-Stays : (t : ℕ) → has_context t b₀ ≡ true → Stays b₀ Bound (has_pending t)
  unfolding has_pending
  has_pending-Stays t there = Stays-the_context t _ there (λ c bound. Stays-pure _)

ruleset round_rules = (
  basic, forward_pending-Stays, remove_from_known_contexts-Stays, remove_from_contexts-Stays,
  worker_has_room-Stays, has_pending-Stays, add_available-Stays, remove_request-Stays,
)

module _ {F : Type 0} ⦃w : Wire F⦄ {b₀ : Broker F} {Bound : ℕ → F → Type 0} (worker : F)
    (known : is_some (types_of worker b₀) ≡ true) where
  pub give_first_pending-Stays :
      (before : List ℕ) (t : ℕ) (p : Progress)
      → AllOpen b₀ Bound worker (t ∷ before)
      → Stays b₀ Bound (give_first_pending worker before t p)
  unfolding give_first_pending
  give_first_pending-Stays before t p opened =
      let there = opened.0 in
      let bound = opened.1 in
      let rest = opened.2 in
      Stays-the_context t _ there λ c _.
        Stays-option (Context.get_next_pending_request c) _ _
          (λ e. search (round_rules, there, bound) depth 8)
          (λ id e. search (round_rules, known, there, bound, rest) depth 20)

  sweep_types-Stays :
      (before ts : List ℕ)
      → AllOpen b₀ Bound worker ts
      → (p : Progress) → Stays b₀ Bound (sweep_types worker before ts p)
  unfolding sweep_types
  sweep_types-Stays before [] opened p = Stays-pure p
  sweep_types-Stays before (t ∷ ts) opened p =
      let there = opened.0 in
      let rest = sweep_types-Stays (t ∷ before) ts opened.2 in
      Stays-the_context t _ there λ c _.
        Stays-option (Context.get_next_pending_request c) _ _ (λ e. rest p)
          (λ id e. search (round_rules, known, there, rest) depth 20)

  sweep-Stays :
      (rounds : ℕ) (ts : List ℕ)
      → AllOpen b₀ Bound worker ts
      → (p : Progress) → Stays b₀ Bound (sweep rounds worker ts p)
  unfolding sweep
  sweep-Stays zero ts opened p = Stays-undefined_by out_of_rounds tt
  sweep-Stays (suc rounds) ts opened p =
      let rest = sweep-Stays rounds ts opened in
      let pass = sweep_types-Stays [] ts opened in search (round_rules, known, rest, pass) depth 12

  pub sweep_all-Stays :
      (ts : List ℕ) (p : Progress)
      → AllOpen b₀ Bound worker ts
      → Stays b₀ Bound (sweep_all worker ts p)
  unfolding sweep_all
  sweep_all-Stays ts p opened = Stays-the_worker worker _ known λ i e.
      Stays-bind _ _ (sweep-Stays (suc (suc i.free_capacity)) ts opened p) (λ p'. Stays-pure p'.ret)

  remove_finished-Stays :
      (type id t : ℕ) (p : Progress)
      → has_context t b₀ ≡ true
      → Stays b₀ Bound (remove_finished type id t p)
  unfolding remove_finished
  remove_finished-Stays type id t p there = search round_rules depth 8

  refill_types-Stays :
      (type id : ℕ) (before ts : List ℕ)
      → AllOpen b₀ Bound worker before
      → AllOpen b₀ Bound worker ts
      → (p : Progress) → Stays b₀ Bound (refill_types worker type id before ts p)
  unfolding refill_types
  refill_types-Stays type id before [] opened coming p = Stays-pure p
  refill_types-Stays type id before (t ∷ ts) opened coming p =
      let there = coming.0 in
      let bound = coming.1 in
      let visited : AllOpen b₀ Bound worker (t ∷ before) = (coming.0, coming.1, opened) in
      let rest = refill_types-Stays type id (t ∷ before) ts visited coming.2 in
      Stays-find t _ _ (λ e. rest p)
        λ c e _. Stays-bind _ _ (remove_finished-Stays type id t p there) λ p₁.
          Stays-option (Context.get_next_pending_request c) _ _
            (λ e. search (round_rules, there, bound, rest) depth 8)
            (λ next e. search (round_rules, known, there, bound, visited, rest) depth 20)

  remove_unvisited-Stays :
      (type id : ℕ) (done : Bool) → Stays b₀ Bound (remove_unvisited type id done)
  unfolding remove_unvisited
  remove_unvisited-Stays type id true = Stays-pure tt
  remove_unvisited-Stays type id false =
      Stays-find type _ _ (λ e. Stays-pure tt) (λ c there _. remove_request-Stays type id there)

  pub update_contexts_for_finished_worker-Stays :
      (type id : ℕ)
      → ((ts : List ℕ) → types_of worker b₀ ≡ some ts → AllOpen b₀ Bound worker ts)
      → Stays b₀ Bound (update_contexts_for_finished_worker worker type id)
  unfolding update_contexts_for_finished_worker
  update_contexts_for_finished_worker-Stays type id opened = Stays-the_worker worker _ known λ i e.
      let all_open = opened i.supported_request_types e in
      Stays-bind _ _
        (Stays-if (has_capacity i.free_capacity) _ _
          (refill_types-Stays type id [] i.supported_request_types tt all_open no_progress)
          (Stays-pure no_progress))
        λ p.
          Stays-bind _ _ (remove_unvisited-Stays type id p.removed)
            (λ _. sweep_all-Stays i.supported_request_types p all_open)
