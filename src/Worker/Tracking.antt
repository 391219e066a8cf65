-- ===== src/Worker/Tracking.antt =====
-- The two records that the worker of liblhcluster/src/worker.cxx keeps of a request: the id in the set
-- of its type, and the context with the envelope.
use lhcluster.Common.{
  ℕ, ◌≡◌, Bool, true, false, Option, some, none, List, [], ◌∷◌, contains, contains-add,
  contains-remove, nat_eq, pair_eq, eq_iff, arith,
}
use lhcluster.Common.Assoc.{
  lookup, update, emplace, erase, lookup-update, lookup-emplace, lookup-erase,
}
use lhcluster.Worker.State.{
  ClientRequestContext, WorkerRequestTypeContext, add_in_progress, request_has_finished, key,
  initial_type_contexts, new_type_context,
}

abbrev pub Types : Type 0
Types = List (ℕ × WorkerRequestTypeContext)

abbrev pub Contexts : Type 0 → Type 0
Contexts F = List ((ℕ × ℕ) × ClientRequestContext F)

abbrev pub in_progress : Option WorkerRequestTypeContext → ℕ → Bool
in_progress none id = false
in_progress (some c) id = contains c.in_progress_requests id

abbrev pub is_some : {A : Type 0} → Option A → Bool
is_some none = false
is_some (some a) = true

module _ {F : Type 0} where
  -- A request has a context exactly when its id is in the set of its type.
  pub record Tracks (types : Types) (contexts : Contexts F) : Type 0 where
    pub same : (t id : ℕ) → in_progress (lookup t types) id ≡ is_some (lookup (t, id) contexts)

  pub Tracks-begin :
      (types : Types) (contexts : Contexts F) (c : WorkerRequestTypeContext)
      (x : ClientRequestContext F)
      → Tracks types contexts
      → lookup x.request_type types ≡ some c
      → Tracks
          (update x.request_type (add_in_progress x.request_id c) types)
          (emplace (key x) x contexts)
  unfolding add_in_progress
  Tracks-begin types contexts c x h e = record {
    same = λ t id. ground (
      arith,
      h.same t id,
      e,
      lookup-update x.request_type t (add_in_progress x.request_id c) types,
      lookup-emplace (key x) (t, id) x contexts,
      contains-add x.request_id id c.in_progress_requests,
      eq_iff x.request_type t,
      eq_iff x.request_id id,
    );
  }

  pub Tracks-finish :
      (types : Types) (contexts : Contexts F) (c : WorkerRequestTypeContext) (type id : ℕ)
      → Tracks types contexts
      → lookup type types ≡ some c
      → Tracks (update type (request_has_finished id c) types) (erase (type, id) contexts)
  unfolding request_has_finished
  Tracks-finish types contexts c type id h e = record {
    same = λ t i. ground (
      arith,
      h.same t i,
      e,
      lookup-update type t (request_has_finished id c) types,
      lookup-erase (type, id) (t, i) contexts,
      contains-remove id i c.in_progress_requests,
      eq_iff type t,
      eq_iff id i,
    );
  }

  -- A context is dropped whose id is not in progress: nothing changes.
  pub Tracks-drop :
      (types : Types) (contexts : Contexts F) (type id : ℕ)
      → Tracks types contexts
      → in_progress (lookup type types) id ≡ false
      → Tracks types (erase (type, id) contexts)
  Tracks-drop types contexts type id h e = record {
    same = λ t i.
        ground (
          arith,
          h.same t i,
          e,
          lookup-erase (type, id) (t, i) contexts,
          eq_iff type t,
          eq_iff id i,
        );
  }

  pub Tracks-redirect :
      (types : Types) (contexts : Contexts F) (k : ℕ × ℕ) (x : ClientRequestContext F)
      → Tracks types contexts
      → Tracks types (update k x contexts)
  Tracks-redirect types contexts k x h = record {
    same = λ t i. ground (arith, h.same t i, lookup-update k (t, i) x contexts);
  }

  pub Tracks-initial :
      (supported : List ℕ) (types : Types)
      → Tracks types []
      → Tracks (initial_type_contexts supported types) []
  unfolding initial_type_contexts contains
  Tracks-initial [] types h = h
  Tracks-initial (t ∷ ts) types h = Tracks-initial ts _ (record {
    same = λ u id. ground (arith, h.same u id, lookup-emplace t u (new_type_context t) types);
  })
