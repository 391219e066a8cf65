-- ===== src/Safety/Ready.antt =====
-- The first loop of `updateContextsForNewWorker` of broker.cxx, while the types of a worker that
-- is not known get their contexts.
use lhcluster.Common.{
  ℕ, ◌≡◌, refl, sym, ap, ◌∙◌, true, ◌||◌, none, List, [], ◌∷◌, contains, arith, nat_eq, eq_iff,
  if◌then◌else◌, Option-cases, inl, inr,
}
use lhcluster.Common.Assoc
use lhcluster.Common.Assoc.{lookup-emplace, contains-keys}
use lhcluster.Wire.{Wire, identity_eq}
use lhcluster.Context
use lhcluster.Context.{Context}
use lhcluster.Broker.State.{
  Broker, Op, Outcome, returned, thrown, undefined, continue, ◌>>=◌, ◌>>◌, pure, find_context,
  insert_context, modify, on_context,
}
use lhcluster.Broker.Availability.{
  Progress, give_first_pending, worker_has_room, register_type, register_types,
}
use lhcluster.Safety.Rules.{
  EndsWell, is_some, has_context, types_of, available_in, is_available, worker_keys, Stays,
  Stays-bind, Stays-if, Stays-pure,
}
use lhcluster.Safety.Actions.{on_context-Stays, add_available-Stays}
use lhcluster.Safety.Rounds.{AllOpen, worker_has_room-Stays, give_first_pending-Stays}
use lhcluster.Safety.Consistent.{supports, Supported}

-- The state while the types of a new worker are registered: `base` is the state that the worker was
-- entered in, and the types of `done` have their contexts.
pub record Registers {F : Type 0} ⦃w : Wire F⦄ (base : Broker F) (done : List ℕ) (b : Broker F)
    : Type 0 where
  pub kept : (t : ℕ) → has_context t base ≡ true → has_context t b ≡ true
  pub made : (t : ℕ) → contains done t ≡ true → has_context t b ≡ true
  pub workers : (v : F) → types_of v b ≡ types_of v base
  pub available : (t : ℕ) (v : F) → is_available t v b ≡ true → supports v t base ≡ true
  pub keys : worker_keys b ≡ worker_keys base

-- The types that are visited when the loop is over.
unfoldable pub reverse_onto : List ℕ → List ℕ → List ℕ
reverse_onto [] before = before
reverse_onto (t ∷ ts) before = reverse_onto ts (t ∷ before)

pub contains-reverse_onto :
    (ts before : List ℕ) (j : ℕ)
    → contains (reverse_onto ts before) j ≡ (contains ts j || contains before j)
unfolding contains reverse_onto
contains-reverse_onto [] before j = refl
contains-reverse_onto (t ∷ ts) before j = ground (arith, contains-reverse_onto ts (t ∷ before) j)

module _ {F : Type 0} ⦃w : Wire F⦄ {base : Broker F} where
  pub continue-Registers :
      {A B : Type 0} {done : List ℕ} (r : Outcome A) (k : A → Op F B) {b : Broker F}
      → EndsWell r
      → ((a : A)
          → EndsWell (k a b).0 × ((x : B) → (k a b).0 ≡ returned x → Registers base done (k a b).1))
      → EndsWell (continue r k b).0
        × ((x : B) → (continue r k b).0 ≡ returned x → Registers base done (continue r k b).1)
  unfolding continue
  continue-Registers (returned a) k e f = f a
  continue-Registers thrown k e f = (tt, λ x absurd. ground (arith, absurd))
  continue-Registers (undefined x) k e f = (e, λ x absurd. ground (arith, absurd))

  Stays-Registers :
      {A : Type 0} (done : List ℕ) (b : Broker F) (m : Op F A)
      → Registers base done b
      → Stays b (Supported base) m
      → Registers base done (m b).1 × EndsWell (m b).0
  Stays-Registers done b m h s =
      let r = s.at b (record {
        contexts = λ t. refl;
        workers = λ v. refl;
        available = h.available;
        keys = refl;
      }) in
      (
        record {
          kept = λ t p. r.0.contexts t ∙ h.kept t p;
          made = λ t p. r.0.contexts t ∙ h.made t p;
          workers = λ v. r.0.workers v ∙ h.workers v;
          available = r.0.available;
          keys = r.0.keys ∙ h.keys;
        },
        r.1,
      )

  found-Registers :
      (done : List ℕ) (b : Broker F) (t : ℕ)
      → has_context t b ≡ true
      → Registers base done b
      → Registers base (t ∷ done) b
  unfolding contains
  found-Registers done b t there h = record {
    kept = h.kept;
    made = λ j p. ground (arith, p, h.made j, eq_iff t j, there);
    workers = h.workers;
    available = h.available;
    keys = h.keys;
  }

  inserted-Registers :
      (done : List ℕ) (b : Broker F) (t : ℕ)
      → Assoc.lookup t b.request_type_context_lookup ≡ none
      → Registers base done b
      → Registers base (t ∷ done) (insert_context t b).1
  unfolding contains insert_context modify has_context types_of is_available Context.new_context
  inserted-Registers done b t missing h =
      let look =
        λ (j : ℕ). lookup-emplace t j (Context.new_context t) b.request_type_context_lookup in
      record {
        kept = λ j p. ap is_some (look j) ∙ ground (arith, h.kept j p);
        made = λ j p. ap is_some (look j) ∙ ground (arith, p, h.made j, eq_iff t j, missing);
        workers = h.workers;
        available =
            λ j v p. ground (arith, sym (ap (λ o. available_in o v) (look j)) ∙ p, h.available j v);
        keys = h.keys;
      }

module _ {F : Type 0} ⦃w : Wire F⦄ {b : Broker F} {Bound : ℕ → F → Type 0} (worker : F) (t : ℕ)
    (known : is_some (types_of worker b) ≡ true) (there : has_context t b ≡ true)
    (bound : Bound t worker) where
  count-Stays : Stays b Bound (on_context t Context.increment_num_workers)
  unfolding Context.increment_num_workers
  count-Stays = on_context-Stays t _ there (λ c v p. p)

  -- the branches of `register_type`, once the type has a context
  given-Stays :
      (before : List ℕ) (p : Progress)
      → AllOpen b Bound worker before
      → Stays b Bound (do
        on_context t Context.increment_num_workers
        room ← worker_has_room worker
        if room then give_first_pending worker before t p else pure p)
  given-Stays before p opened = Stays-bind _ _ count-Stays λ _.
      Stays-bind _ _ (worker_has_room-Stays worker known) λ room.
        Stays-if room _ _ (give_first_pending-Stays worker known before t p (there, bound, opened))
          (Stays-pure p)

  added-Stays :
      (p : Progress)
      → Stays b Bound (do
        on_context t Context.increment_num_workers
        room ← worker_has_room worker
        if room then (do on_context t (Context.add_available_worker worker); pure p) else pure p)
  added-Stays p = Stays-bind _ _ count-Stays λ _.
      Stays-bind _ _ (worker_has_room-Stays worker known) λ room.
        Stays-if room _ _
          (Stays-bind _ _ (add_available-Stays t worker there bound) (λ _. Stays-pure p))
          (Stays-pure p)

module _ {F : Type 0} ⦃w : Wire F⦄ (base : Broker F) (worker : F) where
  all_open :
      (done : List ℕ) (b : Broker F)
      → ((j : ℕ) → contains done j ≡ true → has_context j b ≡ true)
      → ((j : ℕ) → contains done j ≡ true → supports worker j base ≡ true)
      → AllOpen b (Supported base) worker done
  unfolding contains
  all_open [] b made sup = tt
  all_open (t ∷ done) b made sup = (
    made t (ground (arith, eq_iff t t)),
    sup t (ground (arith, eq_iff t t)),
    all_open done b (λ j p. made j (ground (arith, p))) (λ j p. sup j (ground (arith, p))),
  )

module _ {F : Type 0} ⦃w : Wire F⦄ {base : Broker F} (worker : F)
    (known : is_some (types_of worker base) ≡ true) where
  knows :
      (done : List ℕ) (b : Broker F) → Registers base done b → is_some (types_of worker b) ≡ true
  knows done b h = ap is_some (h.workers worker) ∙ known

  made_first :
      (t : ℕ) (done : List ℕ) (b : Broker F) → Registers base (t ∷ done) b → has_context t b ≡ true
  unfolding contains
  made_first t done b h = h.made t (ground (arith, eq_iff t t))

  register_type-Registers :
      (before : List ℕ) (t : ℕ) (p : Progress) (b : Broker F)
      → supports worker t base ≡ true
      → ((j : ℕ) → contains before j ≡ true → supports worker j base ≡ true)
      → Registers base before b
      → Registers base (t ∷ before) (register_type worker before t p b).1
        × EndsWell (register_type worker before t p b).0
  unfolding register_type ◌>>=◌ find_context insert_context modify has_context
  register_type-Registers before t p b bound sup h =
      elim (Option-cases (Assoc.lookup t b.request_type_context_lookup)) [
        | inl e ↦
            let h' = inserted-Registers before b t e h in
            rw (e, continue)
              (Stays-Registers (t ∷ before) (insert_context t b).1 _ h'
                (added-Stays worker t (knows _ _ h') (made_first t before _ h') bound p))
        | inr (c, e) ↦
            let h' = found-Registers before b t (ap is_some e) h in
            rw (e, continue)
              (Stays-Registers (t ∷ before) b _ h' (
                given-Stays worker t (knows _ _ h') (made_first t before _ h') bound before p
                  (all_open base worker before b h.made sup)))
      ]

  pub register_types-Registers :
      (ts before : List ℕ) (p : Progress) (b : Broker F)
      → ((j : ℕ) → contains ts j ≡ true → supports worker j base ≡ true)
      → ((j : ℕ) → contains before j ≡ true → supports worker j base ≡ true)
      → Registers base before b
      → EndsWell (register_types worker before ts p b).0
        × ((x : Progress)
            → (register_types worker before ts p b).0 ≡ returned x
            → Registers base (reverse_onto ts before) (register_types worker before ts p b).1)
  unfolding register_types ◌>>=◌ pure contains reverse_onto
  register_types-Registers [] before p b sup sup' h = (tt, λ x e. h)
  register_types-Registers (t ∷ ts) before p b sup sup' h =
      let r = register_type-Registers before t p b (sup t (ground (arith, eq_iff t t))) sup' h in
      continue-Registers (register_type worker before t p b).0 _ r.1 (λ p'.
        register_types-Registers ts (t ∷ before) p' (register_type worker before t p b).1
          (λ j q. sup j (ground (arith, q))) (λ j q. ground (arith, q, sup' j, sup j, eq_iff t j))
          r.0)
