-- ===== src/Proxy/Pending.antt =====
-- What the buffer of liblhcluster/src/clientrequestbuffer.cxx promises: each key stands for at most one
-- request, with the receipts that are still to come.
use lhcluster.Common.{
  ℕ, ◌≡◌, refl, ◌∙◌, Bool, false, not, ◌||◌, inl, inr, Option, some, none, List, [], ◌∷◌, nat_beq,
  nat_eq, pair_eq, bit_and, eq_iff, ◌==◌, arith, Option-cases, if◌then◌else◌,
}
use lhcluster.Common.Bits.{
  bit_and_two, bit_and_four, bit_and_six, bit_and-not_two, bit_and-not_four,
}
use lhcluster.Common.Assoc
use lhcluster.Common.Assoc.{lookup-update, lookup-emplace, lookup-erase}
use lhcluster.Cluster.{
  VersionFlags, ClusterMessage, broker_received_receipt, broker_sent_receipt, bit_not,
}
use lhcluster.Cluster.MessageFlag
use lhcluster.Wire.{Message}
use lhcluster.Proxy.Buffer.{
  BufferKey, BufferValue, Buffer, clear_receipt, awaits_receipt, add_request, erase_if_last_receipt,
  erase_request,
}

-- Of a buffered request: whether the receipt of its reception and of its sending are to come.
pub record Pending (F : Type 0) : Type 0 where
  pub message : Message F
  pub reception : Bool
  pub sending : Bool

-- The buffer as its users see it: a function of the key.
abbrev pub Requests : Type 0 → Type 0
Requests F = BufferKey → Option (Pending F)

abbrev pub has_bit : ℕ → ℕ → Bool
has_bit flags bit = not (nat_beq (bit_and flags bit) 0)

abbrev pub pending_of : {F : Type 0} → Message F → ℕ → Pending F
pending_of m flags = record {
  message = m;
  reception = has_bit flags MessageFlag.receipt_on_receive;
  sending = has_bit flags MessageFlag.receipt_on_send;
}

-- A call of one of the buffer's methods.
pub data BufferCall (F : Type 0) : Type 0 where
  adds : ℕ → ℕ → ℕ → VersionFlags → Message F → BufferCall F
  receives : ClusterMessage → ℕ → ℕ → ℕ → BufferCall F
  erases : ℕ → ℕ → ℕ → BufferCall F

-- A receipt taken off; the request is gone when none is to come.
abbrev pub settle : {F : Type 0} → Pending F → Option (Pending F)
settle p = if p.reception || p.sending then some p else none

abbrev pub without_receipt : {F : Type 0} → ClusterMessage → Pending F → Pending F
without_receipt broker_received_receipt p = record p { reception = false }
without_receipt broker_sent_receipt p = record p { sending = false }
without_receipt _ p = p

awaits_receipt-has_bit : (flags : ℕ) → awaits_receipt flags ≡ (has_bit flags 2 || has_bit flags 4)
unfolding awaits_receipt
awaits_receipt-has_bit flags =
    ground (arith, bit_and_six flags, bit_and_two flags, bit_and_four flags)

has_bit-not_two :
    (flags : ℕ)
    → (has_bit (bit_and flags (bit_not 2)) 2 ≡ false)
      × (has_bit (bit_and flags (bit_not 2)) 4 ≡ has_bit flags 4)
has_bit-not_two flags =
    let cleared : ℕ = bit_and flags (bit_not 2) in
    let digits = bit_and-not_two flags in
    let here = bit_and_two cleared in
    let there = bit_and_four cleared in
    let before = bit_and_four flags in
    (ground (arith, here, digits.0), ground (arith, there, digits.1, before))

has_bit-not_four :
    (flags : ℕ)
    → (has_bit (bit_and flags (bit_not 4)) 4 ≡ false)
      × (has_bit (bit_and flags (bit_not 4)) 2 ≡ has_bit flags 2)
has_bit-not_four flags =
    let cleared : ℕ = bit_and flags (bit_not 4) in
    let digits = bit_and-not_four flags in
    let here = bit_and_four cleared in
    let there = bit_and_two cleared in
    let before = bit_and_two flags in
    (ground (arith, here, digits.0), ground (arith, there, digits.1, before))

module _ {F : Type 0} where
  unfoldable pub view : Buffer F → Requests F
  unfolding Assoc.lookup
  view buffer k = elim (Assoc.lookup k buffer) [
    | none ↦ none
    | some v ↦ some (pending_of v.message v.current_flags)
  ]

  unfoldable pub call_buffer : BufferCall F → Buffer F → Buffer F
  unfolding add_request erase_if_last_receipt erase_request
  call_buffer (adds t id identity vfs m) b = add_request t id identity vfs m b
  call_buffer (receives r t id identity) b = erase_if_last_receipt r t id identity b
  call_buffer (erases t id identity) b = erase_request t id identity b

  -- What the call means.
  unfoldable pub call_meaning : BufferCall F → Requests F → Requests F
  call_meaning (adds t id identity vfs m) q k =
      if (t, (id, identity)) == k then some (pending_of m vfs.flags) else q k
  call_meaning (receives r t id identity) q k =
      if (t, (id, identity)) == k
      then (elim (q k) [ none ↦ none | some p ↦ settle (without_receipt r p) ])
      else q k
  call_meaning (erases t id identity) q k = if (t, (id, identity)) == k then none else q k

  unfoldable pub call_all : List (BufferCall F) → Buffer F → Buffer F
  unfolding call_buffer
  call_all [] b = b
  call_all (c ∷ cs) b = call_all cs (call_buffer c b)

  unfoldable pub mean_all : List (BufferCall F) → Requests F → Requests F
  unfolding call_meaning
  mean_all [] q = q
  mean_all (c ∷ cs) q = mean_all cs (call_meaning c q)

  -- The receipts of the flags are those of the request, after a receipt has come.
  settle-clear_receipt :
      (r : ClusterMessage) (m : Message F) (flags : ℕ)
      → settle (without_receipt r (pending_of m flags)) ≡ (
          if awaits_receipt (clear_receipt r flags)
          then some (pending_of m (clear_receipt r flags))
          else none)
  unfolding clear_receipt
  settle-clear_receipt broker_received_receipt m flags =
      let bits = has_bit-not_two flags in
      rw (awaits_receipt-has_bit (bit_and flags (bit_not 2)), bits.0, bits.1) refl
  settle-clear_receipt broker_sent_receipt m flags =
      let bits = has_bit-not_four flags in
      rw (awaits_receipt-has_bit (bit_and flags (bit_not 4)), bits.0, bits.1) refl
  settle-clear_receipt _ m flags = rw (awaits_receipt-has_bit flags) refl

  pub lookup-add_request :
      (t id identity : ℕ) (vfs : VersionFlags) (m : Message F) (b : Buffer F) (k : BufferKey)
      → Assoc.lookup k (add_request t id identity vfs m b) ≡ (
          if (t, (id, identity)) == k
          then some (record { vfs = vfs; current_flags = vfs.flags; message = m })
          else Assoc.lookup k b)
  unfolding add_request
  lookup-add_request t id identity vfs m b k =
      let j : BufferKey = (t, (id, identity)) in
      let v : BufferValue F = record { vfs = vfs; current_flags = vfs.flags; message = m } in
      ground (arith, lookup-update j k v (Assoc.emplace j v b), lookup-emplace j k v b, eq_iff j k)

  view-call_buffer :
      (c : BufferCall F) (b : Buffer F) (k : BufferKey)
      → view (call_buffer c b) k ≡ call_meaning c (view b) k
  unfolding view call_buffer call_meaning add_request erase_if_last_receipt erase_request
  view-call_buffer (adds t id identity vfs m) b k =
      ground (arith, lookup-add_request t id identity vfs m b k)
  view-call_buffer (receives r t id identity) b k =
      let j : BufferKey = (t, (id, identity)) in
      elim (Option-cases (Assoc.lookup j b)) [
        | inl missing ↦ ground (arith, missing, eq_iff j k)
        | inr (v, found) ↦
            let flags : ℕ = clear_receipt r v.current_flags in
            let settled = settle-clear_receipt r v.message v.current_flags in
            let kept = lookup-update j k (record v { current_flags = flags }) b in
            let gone = lookup-erase j k b in ground (arith, found, settled, kept, gone, eq_iff j k)
      ]
  view-call_buffer (erases t id identity) b k =
      let j : BufferKey = (t, (id, identity)) in ground (arith, lookup-erase j k b, eq_iff j k)

  call_meaning-same :
      (c : BufferCall F) (p q : Requests F)
      → ((k : BufferKey) → p k ≡ q k)
      → (k : BufferKey) → call_meaning c p k ≡ call_meaning c q k
  unfolding call_meaning
  call_meaning-same (adds t id identity vfs m) p q h k = rw (h k) refl
  call_meaning-same (receives r t id identity) p q h k = rw (h k) refl
  call_meaning-same (erases t id identity) p q h k = rw (h k) refl

  mean_all-same :
      (cs : List (BufferCall F)) (p q : Requests F)
      → ((k : BufferKey) → p k ≡ q k)
      → (k : BufferKey) → mean_all cs p k ≡ mean_all cs q k
  unfolding mean_all
  mean_all-same [] p q h k = h k
  mean_all-same (c ∷ cs) p q h k = mean_all-same cs _ _ (call_meaning-same c p q h) k

  -- Whatever calls are made, in whatever order, the buffer holds for each key what the calls mean: the
  -- request last added under it, with the receipts that have not come, until the last of them comes or
  -- the request is erased.
  pub call_all-refines :
      (cs : List (BufferCall F)) (b : Buffer F) (k : BufferKey)
      → view (call_all cs b) k ≡ mean_all cs (view b) k
  unfolding call_all mean_all
  call_all-refines [] b k = refl
  call_all-refines (c ∷ cs) b k =
      call_all-refines cs (call_buffer c b) k ∙ mean_all-same cs _ _ (view-call_buffer c b) k
