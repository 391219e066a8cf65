-- ===== src/Context/Links.antt =====
-- What the operations of a context do to its queue and to the requests that wait in it
-- (liblhcluster/src/brokerrequesttypecontext.cxx).
use lhcluster.Common.{
  ℕ, ◌≡◌, refl, sym, ap, subst, ◌∙◌, false, Option, some, none, List, [], ◌∷◌, ◌++◌, nat_beq, arith,
  nat_eq, eq_iff, if◌then◌else◌, Option-cases, inl, inr,
}
use lhcluster.Common.Assoc
use lhcluster.Common.Assoc.{lookup-emplace, lookup-update}
use lhcluster.Cluster.{VersionFlags}
use lhcluster.Wire.{Message}
use lhcluster.RequestState
use lhcluster.RequestState.{RequestState}
use lhcluster.Context.{
  Context, erase_it, get_request_state, get_next_pending_request, back_to_pending, put_request,
  add_pending_request, assign_worker_from_pending,
}
use lhcluster.Context.Queue.{
  queued, has_it, waits_at, IsLinked, erase-has_it, erase-distinct, erase-queued, same-it,
  queued-append, has_it-append, distinct-append,
}

module _ {F : Type 0} where
  -- the context with the new request at the end of its queue
  abbrev with_new : ℕ → VersionFlags → Option (Message F) → Context F → Context F
  with_new id vfs msg c =
      let new = RequestState.new_pending id vfs msg in
      back_to_pending id new (record c { requests = Assoc.emplace id new c.requests })

  add_new :
      (id : ℕ) (vfs : VersionFlags) (msg : Option (Message F)) (c : Context F)
      → get_request_state id c ≡ none
      → with_new id vfs msg c ≡ add_pending_request id vfs msg c
  unfolding add_pending_request get_request_state
  add_new id vfs msg c missing =
      let none_there : Assoc.lookup id c.requests ≡ none = unfold get_request_state in missing in
      rw (none_there, add_pending_request) refl

  waits-new :
      (id j : ℕ) (vfs : VersionFlags) (msg : Option (Message F)) (c : Context F)
      → get_request_state id c ≡ none
      → waits_at (get_request_state j (with_new id vfs msg c))
        ≡ (if nat_beq id j then some c.next_it else waits_at (get_request_state j c))
  unfolding get_request_state back_to_pending RequestState.set_queue_cursor
      RequestState.queue_cursor
  waits-new id j vfs msg c missing =
      let new = RequestState.new_pending id vfs msg in
      let there = RequestState.set_queue_cursor c.next_it new in
      ap waits_at (lookup-update id j there (Assoc.emplace id new c.requests))
      ∙ ground (arith, missing, lookup-emplace id j new c.requests, eq_iff id j)

  new-IsLinked :
      (id : ℕ) (vfs : VersionFlags) (msg : Option (Message F)) (c : Context F)
      → get_request_state id c ≡ none
      → IsLinked c
      → IsLinked (with_new id vfs msg c)
  unfolding back_to_pending has_it
  new-IsLinked id vfs msg c missing h =
      let q = c.pending_client_requests in
      record {
        linked = λ it j p.
            waits-new id j vfs msg c missing
            ∙ ground (
              arith,
              p,
              queued-append it j c.next_it id q,
              h.linked it j,
              ap waits_at missing,
              eq_iff id j,
            );
        waiting = λ it j p.
            queued-append it j c.next_it id q
            ∙ ground (
              arith,
              sym (waits-new id j vfs msg c missing) ∙ p,
              h.waiting it j,
              ap waits_at missing,
              eq_iff id j,
            );
        distinct = distinct-append c.next_it id q (ground (arith, h.fresh c.next_it)) h.distinct;
        fresh = λ it p. ground (arith, p, has_it-append it c.next_it id q, h.fresh it);
      }

  -- A request under a new id goes to the end of the queue, and the links stay whole.
  pub add_pending-IsLinked :
      (id : ℕ) (vfs : VersionFlags) (msg : Option (Message F)) (c : Context F)
      → get_request_state id c ≡ none
      → IsLinked c
      → IsLinked (add_pending_request id vfs msg c)
        × ((add_pending_request id vfs msg c).pending_client_requests
            ≡ c.pending_client_requests ++ (c.next_it, id) ∷ [])
  unfolding back_to_pending
  add_pending-IsLinked id vfs msg c missing h =
      let e = add_new id vfs msg c missing in
      (
        subst IsLinked e (new-IsLinked id vfs msg c missing h),
        sym (ap (λ (x : Context F). x.pending_client_requests) e),
      )

  abbrev assigned : ℕ → F → RequestState F → List (ℕ × ℕ) → Context F → Context F
  assigned id worker r q c =
      put_request id (RequestState.assign worker r) (record c { pending_client_requests = q })

  assigned-queued :
      (id i j it : ℕ) (r : RequestState F) (q : List (ℕ × ℕ)) (c : Context F)
      → get_request_state id c ≡ some r
      → RequestState.queue_cursor r ≡ some it
      → erase_it it c.pending_client_requests ≡ some q
      → IsLinked c
      → queued i j q ≡ (if nat_beq id j then false else queued i j c.pending_client_requests)
  assigned-queued id i j it r q c n k m h =
      let here = ap waits_at n ∙ k in
      erase-queued i j it c.pending_client_requests q m h.distinct
      ∙ ground (
        arith,
        here,
        h.linked i j,
        h.waiting it id here,
        same-it it id j c.pending_client_requests h.distinct,
        eq_iff id j,
        eq_iff it i,
      )

  waits-assigned :
      (id j : ℕ) (worker : F) (r : RequestState F) (q : List (ℕ × ℕ)) (c : Context F)
      → get_request_state id c ≡ some r
      → waits_at (get_request_state j (assigned id worker r q c))
        ≡ (if nat_beq id j then none else waits_at (get_request_state j c))
  unfolding put_request get_request_state RequestState.assign RequestState.queue_cursor
  waits-assigned id j worker r q c n =
      ap waits_at (lookup-update id j (RequestState.assign worker r) c.requests)
      ∙ ground (arith, n, eq_iff id j)

  assigned-IsLinked :
      (id : ℕ) (worker : F) (it : ℕ) (r : RequestState F) (q : List (ℕ × ℕ)) (c : Context F)
      → get_request_state id c ≡ some r
      → RequestState.queue_cursor r ≡ some it
      → erase_it it c.pending_client_requests ≡ some q
      → IsLinked c
      → IsLinked (assigned id worker r q c)
  unfolding put_request
  assigned-IsLinked id worker it r q c n k m h = record {
    linked = λ i j p.
        waits-assigned id j worker r q c n
        ∙ ground (arith, p, assigned-queued id i j it r q c n k m h, h.linked i j);
    waiting = λ i j p.
        assigned-queued id i j it r q c n k m h
        ∙ ground (arith, sym (waits-assigned id j worker r q c n) ∙ p, h.waiting i j);
    distinct = erase-distinct it c.pending_client_requests q m h.distinct;
    fresh = λ i p. h.fresh i (erase-has_it i it c.pending_client_requests q m p);
  }

  -- Giving a waiting request to a worker takes exactly its entry out of the queue, and the links of
  -- the others stay whole.
  pub assign_worker-IsLinked :
      (id : ℕ) (worker : F) (c c' : Context F)
      → assign_worker_from_pending id worker c ≡ some c'
      → IsLinked c
      → IsLinked c'
        × ((it j : ℕ)
            → queued it j c'.pending_client_requests
              ≡ (if nat_beq id j then false else queued it j c.pending_client_requests))
  unfolding assign_worker_from_pending get_request_state
  assign_worker-IsLinked id worker c c' e h = elim (Option-cases (Assoc.lookup id c.requests)) [
    | inl n ↦ ground (arith, e, n)
    | inr (r, n) ↦ elim (Option-cases (RequestState.queue_cursor r)) [
      | inl k ↦ ground (arith, e, n, k)
      | inr (it, k) ↦ elim (Option-cases (erase_it it c.pending_client_requests)) [
        | inl m ↦ ground (arith, e, n, k, m)
        | inr (q, m) ↦
            let eq : assigned id worker r q c ≡ c' = ground (arith, e, n, k, m) in
            let left = λ (i j : ℕ). assigned-queued id i j it r q c n k m h in
            (
              subst IsLinked eq (assigned-IsLinked id worker it r q c n k m h),
              λ i j.
                  ap (λ (x : Context F). queued i j x.pending_client_requests) (sym eq) ∙ left i j,
            )
      ]
    ]
  ]

  abbrev pub queue_of : Option (Context F) → Option (List (ℕ × ℕ))
  queue_of none = none
  queue_of (some c) = some c.pending_client_requests

  -- The head of the queue can always be given to a worker: its iterator is in the queue, and what
  -- is left is the tail.
  pub next_pending-assign :
      (it id : ℕ) (rest : List (ℕ × ℕ)) (worker : F) (c : Context F)
      → c.pending_client_requests ≡ (it, id) ∷ rest
      → IsLinked c
      → (get_next_pending_request c ≡ some id)
        × (queue_of (assign_worker_from_pending id worker c) ≡ some rest)
  unfolding get_next_pending_request assign_worker_from_pending get_request_state erase_it
      put_request queued
  next_pending-assign it id rest worker c e h =
      let here : waits_at (get_request_state id c) ≡ some it =
        h.linked it id (ap (queued it id) e ∙ ground (arith, eq_iff it it, eq_iff id id)) in
      (
        rw e refl,
        elim (Option-cases (Assoc.lookup id c.requests)) [
          | inl n ↦ ground (arith, here, n)
          | inr (r, n) ↦ ground (arith, here, n, e, eq_iff it it)
        ],
      )
