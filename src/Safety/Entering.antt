-- ===== src/Safety/Entering.antt =====
-- `updateContextsForNewWorker` of broker.cxx, from a consistent state.
use lhcluster.Common.{
  ℕ, ◌≡◌, refl, sym, ap, ◌∙◌, true, false, Option, some, none, [], contains, arith, nat_eq, eq_iff,
  ◌==◌, if◌then◌else◌, subst,
}
use lhcluster.Common.Assoc
use lhcluster.Common.Assoc.{lookup-emplace, contains-keys}
use lhcluster.Wire.{Wire, identity_eq}
use lhcluster.WorkerInfo.{WorkerInfo}
use lhcluster.Broker.State.{
  Broker, Op, continue, ◌>>=◌, deref, the_worker, lookup_worker_info, insert_worker_info, modify,
}
use lhcluster.Broker.Availability.{Progress, no_progress, sweep_all, update_contexts_for_new_worker}
use lhcluster.Safety.Rules.{
  is_some, has_context, types_in, types_of, is_available, worker_keys, Stays,
}
use lhcluster.Safety.Rounds.{sweep_all-Stays}
use lhcluster.Safety.Consistent.{
  supports, IsConsistent, Supported, Within-refl, Within-IsConsistent, lists, types_open,
  AreDistinct, Ensures, continue-Ensures,
}
use lhcluster.Safety.Ready.{
  Registers, reverse_onto, contains-reverse_onto, register_types-Registers,
}

module _ {F : Type 0} ⦃w : Wire F⦄ where
  pub ends-IsConsistent :
      {A : Type 0} (b' : Broker F) (m : Op F A)
      → IsConsistent b'
      → Stays b' (Supported b') m
      → Ensures IsConsistent (m b')
  ends-IsConsistent b' m k s =
      let r = s.at b' (Within-refl b' k) in (r.1, λ a e. Within-IsConsistent b' (m b').1 k r.0)

-- The state is consistent, and the worker is known with the types of its record.
abbrev pub Entered : {F : Type 0} ⦃w : Wire F⦄ → WorkerInfo F → Broker F → Type 0
Entered i b = IsConsistent b × (types_of i.identity b ≡ some i.supported_request_types)

module _ {F : Type 0} ⦃w : Wire F⦄ (i : WorkerInfo F) (b : Broker F)
    (missing : Assoc.lookup i.identity b.worker_info_lookup ≡ none) (h : IsConsistent b) where
  abbrev entered : Broker F
  entered = (insert_worker_info i b).1

  look :
      (v : F)
      → Assoc.lookup v entered.worker_info_lookup ≡ elim (Assoc.lookup v b.worker_info_lookup) [
        | none ↦ (if i.identity == v then some i else none)
        | some j ↦ some j
      ]
  unfolding insert_worker_info modify
  look v = lookup-emplace i.identity v i b.worker_info_lookup

  supports-entered :
      (t : ℕ) (v : F)
      → supports v t entered
        ≡ (if i.identity == v then contains i.supported_request_types t else supports v t b)
  unfolding supports types_of
  supports-entered t v =
      ap (λ o. lists (types_in o) t) (look v) ∙ ground (arith, missing, eq_iff i.identity v)

  nothing_lost : (t : ℕ) (v : F) → supports v t b ≡ true → supports v t entered ≡ true
  unfolding supports types_of
  nothing_lost t v p = ap (λ o. lists (types_in o) t) (look v) ∙ ground (arith, p)

  entered-Registers : Registers entered [] entered
  unfolding contains
  entered-Registers = record {
    kept = λ t p. p;
    made = λ t p. ground (arith, p);
    workers = λ v. refl;
    available = λ t v p.
        nothing_lost t v (h.available t v (unfold is_available insert_worker_info modify in p));
    keys = refl;
  }

  distinct_entered : AreDistinct (worker_keys entered)
  unfolding insert_worker_info modify Assoc.emplace
  distinct_entered =
      rw (missing, AreDistinct)
        (
          (contains-keys i.identity b.worker_info_lookup
              ∙ ap (λ (o : Option (WorkerInfo F)). elim o [ none ↦ false | some _ ↦ true ])
                  missing),
          h.distinct,
        )

  contexts_entered : (t : ℕ) → has_context t entered ≡ has_context t b
  unfolding has_context insert_worker_info modify
  contexts_entered t = refl

  registered-IsConsistent :
      (b' : Broker F)
      → Registers entered (reverse_onto i.supported_request_types []) b'
      → IsConsistent b'
  unfolding supports contains
  registered-IsConsistent b' r = record {
    available = λ t v p. ap (λ o. lists o t) (r.workers v) ∙ r.available t v p;
    covered = λ t v p.
        let q = sym (supports-entered t v) ∙ sym (ap (λ o. lists o t) (r.workers v)) ∙ p in
        let c = contains-reverse_onto i.supported_request_types [] t in
        ground (arith, q, c, r.made t, r.kept t, h.covered t v, contexts_entered t);
    distinct = subst (λ l. AreDistinct l) (sym r.keys) distinct_entered;
  }

  types_entered :
      (b' : Broker F)
      → Registers entered (reverse_onto i.supported_request_types []) b'
      → types_of i.identity b' ≡ some i.supported_request_types
  unfolding types_of
  types_entered b' r =
      r.workers i.identity
      ∙ ap types_in (look i.identity)
      ∙ ground (arith, missing, eq_iff i.identity i.identity)

  swept :
      (b' : Broker F) (p : Progress)
      → Registers entered (reverse_onto i.supported_request_types []) b'
      → Ensures (Entered i) (sweep_all i.identity i.supported_request_types p b')
  swept b' p r =
      let types = i.supported_request_types in
      let k = registered-IsConsistent b' r in
      let e = types_entered b' r in
      let opened = types_open b' i.identity types types k e (λ t q. q) in
      let s = (sweep_all-Stays i.identity (ap is_some e) types p opened).at b' (Within-refl b' k) in
      (s.1, λ a q. (Within-IsConsistent b' _ k s.0, s.0.workers i.identity ∙ e))

  pub enter-Ensures : Ensures (Entered i) (update_contexts_for_new_worker i.identity entered)
  unfolding update_contexts_for_new_worker the_worker lookup_worker_info deref ◌>>=◌ contains
  enter-Ensures =
      let e : Assoc.lookup i.identity entered.worker_info_lookup ≡ some i =
        look i.identity ∙ ground (arith, missing, eq_iff i.identity i.identity) in
      let known : is_some (types_of i.identity entered) ≡ true =
        unfold types_of in ap (λ o. is_some (types_in o)) e in
      let all : (j : ℕ)
          → contains i.supported_request_types j ≡ true
          → supports i.identity j entered ≡ true =
        λ j q. supports-entered j i.identity ∙ ground (arith, q, eq_iff i.identity i.identity) in
      let r =
        register_types-Registers i.identity known i.supported_request_types [] no_progress entered
          all (λ j q. ground (arith, q)) entered-Registers in
      rw (e, continue, deref)
        (continue-Ensures (Entered i) _ (λ p. sweep_all i.identity i.supported_request_types p) _
          r.0 (λ p ok. swept _ p (r.1 p ok)))
