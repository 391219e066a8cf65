-- ===== src/Context/Queue.antt =====
-- The queue of a context (liblhcluster/src/brokerrequesttypecontext.cxx) and the requests that it
-- links: the iterator that a waiting request keeps is its place in the queue.
use lhcluster.Common.{
  ℕ, ◌<◌, ◌≡◌, refl, subst, ◌∙◌, Bool, true, false, ◌&&◌, ◌||◌, Option, some, none, List, [], ◌∷◌,
  ◌++◌, nat_beq, arith, nat_eq, if◌then◌else◌, Option-cases, Bool-cases, inl, inr,
}
use lhcluster.RequestState
use lhcluster.RequestState.{RequestState}
use lhcluster.Context.{Context, erase_it, get_request_state}

-- The entry is in the queue.
unfoldable pub queued : ℕ → ℕ → List (ℕ × ℕ) → Bool
queued it id [] = false
queued it id ((j, k) ∷ q) = (nat_beq j it && nat_beq k id) || queued it id q

-- The iterator is in the queue.
unfoldable pub has_it : ℕ → List (ℕ × ℕ) → Bool
has_it it [] = false
has_it it ((j, k) ∷ q) = nat_beq j it || has_it it q

abbrev pub AreDistinctIts : List (ℕ × ℕ) → Type 0
AreDistinctIts [] = Unit {0}
AreDistinctIts ((j, k) ∷ q) = (has_it j q ≡ false) × AreDistinctIts q

-- The iterator that a waiting request keeps.
abbrev pub waits_at : {F : Type 0} → Option (RequestState F) → Option ℕ
waits_at none = none
waits_at (some r) = RequestState.queue_cursor r

-- The entries of the queue are the requests of the context that wait, each at its own entry; no
-- iterator is there twice, and the next one is new.
pub record IsLinked {F : Type 0} (c : Context F) : Type 0 where
  pub linked :
      (it id : ℕ)
      → queued it id c.pending_client_requests ≡ true
      → waits_at (get_request_state id c) ≡ some it
  pub waiting :
      (it id : ℕ)
      → waits_at (get_request_state id c) ≡ some it
      → queued it id c.pending_client_requests ≡ true
  pub distinct : AreDistinctIts c.pending_client_requests
  pub fresh : (it : ℕ) → has_it it c.pending_client_requests ≡ true → it < c.next_it

pub queued-append :
    (it id j k : ℕ) (q : List (ℕ × ℕ))
    → queued it id (q ++ (j, k) ∷ []) ≡ (queued it id q || (nat_beq j it && nat_beq k id))
unfolding queued
queued-append it id j k [] = ground arith
queued-append it id j k ((a, b) ∷ q) = ground (arith, queued-append it id j k q)

pub has_it-append :
    (it j k : ℕ) (q : List (ℕ × ℕ)) → has_it it (q ++ (j, k) ∷ []) ≡ (has_it it q || nat_beq j it)
unfolding has_it
has_it-append it j k [] = ground arith
has_it-append it j k ((a, b) ∷ q) = ground (arith, has_it-append it j k q)

pub distinct-append :
    (j k : ℕ) (q : List (ℕ × ℕ))
    → has_it j q ≡ false
    → AreDistinctIts q
    → AreDistinctIts (q ++ (j, k) ∷ [])
unfolding has_it
distinct-append j k [] new h = (refl, tt)
distinct-append j k ((a, b) ∷ q) new h = (
  has_it-append a j k q ∙ ground (arith, h.0, new),
  distinct-append j k q (ground (arith, new)) h.1,
)

pub queued-has_it : (it id : ℕ) (q : List (ℕ × ℕ)) → queued it id q ≡ true → has_it it q ≡ true
unfolding queued has_it
queued-has_it it id [] h = ground (arith, h)
queued-has_it it id ((j, k) ∷ q) h = ground (arith, h, queued-has_it it id q)

pub same-it :
    (it id k : ℕ) (q : List (ℕ × ℕ))
    → AreDistinctIts q
    → queued it id q ≡ true
    → queued it k q ≡ true
    → nat_beq id k ≡ true
unfolding queued has_it
same-it it id k [] d h g = ground (arith, h)
same-it it id k ((a, b) ∷ q) d h g =
    ground (arith, h, g, d.0, same-it it id k q d.1, queued-has_it it id q, queued-has_it it k q)

-- `erase` takes away the entry with the iterator, and no other.
pub erase-queued :
    (it id j : ℕ) (q r : List (ℕ × ℕ))
    → erase_it j q ≡ some r
    → AreDistinctIts q
    → queued it id r ≡ (if nat_beq j it then false else queued it id q)
unfolding queued has_it erase_it
erase-queued it id j [] r e d = ground (arith, e)
erase-queued it id j ((a, b) ∷ q) r e d = elim (Option-cases (erase_it j q)) [
  | inl n ↦ ground (arith, e, n, d.0, queued-has_it it id q)
  | inr (s, n) ↦ ground (arith, e, n, d.0, queued-has_it it id q, erase-queued it id j q s n d.1)
]

pub erase-has_it :
    (it j : ℕ) (q r : List (ℕ × ℕ))
    → erase_it j q ≡ some r
    → has_it it r ≡ true
    → has_it it q ≡ true
unfolding has_it erase_it
erase-has_it it j [] r e h = ground (arith, e)
erase-has_it it j ((a, b) ∷ q) r e h = elim (Option-cases (erase_it j q)) [
  | inl n ↦ ground (arith, e, n, h)
  | inr (s, n) ↦ ground (arith, e, n, h, erase-has_it it j q s n)
]

pub not-erased :
    (it j : ℕ) (q r : List (ℕ × ℕ))
    → erase_it j q ≡ some r
    → has_it it q ≡ false
    → has_it it r ≡ false
not-erased it j q r e h = elim (Bool-cases (has_it it r)) [
  | inl t ↦ ground (arith, h, erase-has_it it j q r e t)
  | inr f ↦ f
]

pub erase-distinct :
    (j : ℕ) (q r : List (ℕ × ℕ)) → erase_it j q ≡ some r → AreDistinctIts q → AreDistinctIts r
unfolding erase_it
erase-distinct j [] r e d = ground (arith, e)
erase-distinct j ((a, b) ∷ q) r e d = elim (Bool-cases (nat_beq a j)) [
  | inl t ↦ subst (λ l. AreDistinctIts l) (ground (arith, e, t)) d.1
  | inr f ↦ elim (Option-cases (erase_it j q)) [
    | inl n ↦ ground (arith, e, n, f)
    | inr (s, n) ↦
        let kept : AreDistinctIts ((a, b) ∷ s) =
          (not-erased a j q s n d.0, erase-distinct j q s n d.1) in
        subst (λ l. AreDistinctIts l) {x = (a, b) ∷ s} (ground (arith, e, n, f)) kept
  ]
]
