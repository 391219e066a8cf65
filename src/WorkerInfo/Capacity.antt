-- ===== src/WorkerInfo/Capacity.antt =====
-- How a worker's free capacity and its requests in progress go together
-- (liblhcluster/src/workerinfo.cxx).
use lhcluster.Common.{
  ℕ, ◌^◌, ◌<◌, ◌≡◌, refl, ap, ◌∙◌, Option, some, none, List, [], arith, nat_eq, nat_beq, eq_iff,
  if◌then◌else◌, ◌&&◌, Option-cases, inl, inr,
}
use lhcluster.Common.Assoc
use lhcluster.Common.Assoc.{lookup-emplace, lookup-update, lookup-erase}
use lhcluster.WorkerInfo.{
  WorkerInfo, RequestRef, requests_of_type, add_in_progress_request, remove_in_progress_request,
}

-- The request of a type and id that the worker has, if it has one.
abbrev pub ref_in : ℕ → Option (List (ℕ × RequestRef)) → Option RequestRef
ref_in id none = none
ref_in id (some l) = Assoc.lookup id l

module _ {F : Type 0} where
  unfoldable pub request_of : ℕ → ℕ → WorkerInfo F → Option RequestRef
  request_of type id i = ref_in id (requests_of_type type i)

  -- A request that the worker gets is recorded under its type and id, unless one is recorded there
  -- already; no other record changes.
  pub request_of-add :
      (type t id : ℕ) (ref : RequestRef) (i : WorkerInfo F)
      → request_of t id (add_in_progress_request type ref i) ≡ (
          if nat_beq type t
          then (elim (request_of t id i) [
            | none ↦ (if nat_beq ref.1 id then some ref else none)
            | some old ↦ some old
          ])
          else request_of t id i)
  unfolding request_of requests_of_type add_in_progress_request Assoc.lookup
  request_of-add type t id ref i =
      let m = i.in_progress_requests in
      let found : List (ℕ × RequestRef) = elim (Assoc.lookup type m) [ none ↦ [] | some l ↦ l ] in
      ap (ref_in id)
        (lookup-update type t (Assoc.emplace ref.1 ref found) (Assoc.emplace type [] m))
      ∙ ground (arith, lookup-emplace type t [] m, lookup-emplace ref.1 id ref found, eq_iff type t)

  left-requests :
      (type t id : ℕ) (i : WorkerInfo F)
      → requests_of_type t (remove_in_progress_request type id i) ≡ elim (requests_of_type type i) [
        | none ↦ requests_of_type t i
        | some l ↦ (if nat_beq type t then some (Assoc.erase id l) else requests_of_type t i)
      ]
  unfolding requests_of_type remove_in_progress_request
  left-requests type t id i = elim (Option-cases (Assoc.lookup type i.in_progress_requests)) [
    | inl e ↦ rw (e, remove_in_progress_request) refl
    | inr (l, e) ↦
        rw (e, remove_in_progress_request)
          (lookup-update type t (Assoc.erase id l) i.in_progress_requests
            ∙ ground (arith, e, eq_iff type t))
  ]

  erased :
      (type t id j : ℕ) (i : WorkerInfo F)
      → ref_in j (elim (requests_of_type type i) [
        | none ↦ requests_of_type t i
        | some l ↦ (if nat_beq type t then some (Assoc.erase id l) else requests_of_type t i)
      ])
        ≡ (if nat_beq type t && nat_beq id j then none else request_of t j i)
  unfolding request_of
  erased type t id j i = elim (Option-cases (requests_of_type type i)) [
    | inl e ↦ rw e (ground (arith, e, eq_iff type t))
    | inr (l, e) ↦ rw e (ground (arith, e, lookup-erase id j l, eq_iff type t))
  ]

  pub request_of-remove :
      (type t id j : ℕ) (i : WorkerInfo F)
      → request_of t j (remove_in_progress_request type id i)
        ≡ (if nat_beq type t && nat_beq id j then none else request_of t j i)
  unfolding request_of
  request_of-remove type t id j i = ap (ref_in j) (left-requests type t id i) ∙ erased type t id j i

  -- A worker that gets a request which it does not have, and finishes it, has the free capacity and
  -- the requests of before.
  pub finish-add :
      (type id owner : ℕ) (i : WorkerInfo F)
      → request_of type id i ≡ none
      → i.free_capacity < 2 ^ 32
      → ((remove_in_progress_request type id
            (add_in_progress_request type (owner, id) i)).free_capacity
          ≡ i.free_capacity)
        × ((t j : ℕ)
            → request_of t j
                (remove_in_progress_request type id (add_in_progress_request type (owner, id) i))
              ≡ request_of t j i)
  unfolding add_in_progress_request remove_in_progress_request
  finish-add type id owner i missing small =
      let given = add_in_progress_request type (owner, id) i in
      (
        omega (arith, small),
        λ t j.
            request_of-remove type t id j given
            ∙ ground
                (arith, request_of-add type t j (owner, id) i, missing, eq_iff type t, eq_iff id j),
      )
