-- ===== src/Proxy/Buffer.antt =====
-- The requests that await receipts: ClientRequestBuffer, liblhcluster/src/clientrequestbuffer.cxx. The
-- key of an entry holds the client's identity as a `ZMQFrame*`, which is compared as a pointer: a
-- frame's address is a number here, given out once.
use lhcluster.Common.{
  ℕ, ◌+◌, Bool, not, some, none, List, nat_beq, nat_eq, pair_eq, bit_and, if◌then◌else◌,
}
use lhcluster.Common.Assoc
use lhcluster.Cluster.{
  VersionFlags, ClusterMessage, broker_received_receipt, broker_sent_receipt, bit_not,
}
use lhcluster.Cluster.MessageFlag
use lhcluster.Wire.{Message}

-- `ClientRequestBufferKey`: the type, the id, and the address of the identity frame
abbrev pub BufferKey : Type 0
BufferKey = ℕ × (ℕ × ℕ)

-- `ClientRequestBufferValue`
pub record BufferValue (F : Type 0) : Type 0 where
  pub vfs : VersionFlags
  -- the flags of the receipts that have not come yet, and the other flags
  pub current_flags : ℕ
  pub message : Message F

abbrev pub Buffer : Type 0 → Type 0
Buffer F = List (BufferKey × BufferValue F)

-- the switch of `EraseIfLastReceipt`
unfoldable pub clear_receipt : ClusterMessage → ℕ → ℕ
clear_receipt broker_received_receipt flags = bit_and flags (bit_not MessageFlag.receipt_on_receive)
clear_receipt broker_sent_receipt flags = bit_and flags (bit_not MessageFlag.receipt_on_send)
clear_receipt _ flags = flags

-- `currentFlags & ( ReceiptOnSend | ReceiptOnReceive )`
unfoldable pub awaits_receipt : ℕ → Bool
awaits_receipt flags =
    not (nat_beq (bit_and flags (MessageFlag.receipt_on_receive + MessageFlag.receipt_on_send)) 0)

module _ {F : Type 0} where
  -- `Add`: what was buffered under the key is destroyed
  unfoldable pub add_request : ℕ → ℕ → ℕ → VersionFlags → Message F → Buffer F → Buffer F
  unfolding Assoc.emplace Assoc.lookup Assoc.update
  add_request type id identity vfs m buffer =
      let k : BufferKey = (type, (id, identity)) in
      let value : BufferValue F = record { vfs = vfs; current_flags = vfs.flags; message = m } in
      Assoc.update k value (Assoc.emplace k value buffer)

  unfoldable pub erase_if_last_receipt : ClusterMessage → ℕ → ℕ → ℕ → Buffer F → Buffer F
  unfolding Assoc.lookup Assoc.erase Assoc.update clear_receipt awaits_receipt
  erase_if_last_receipt receipt type id identity buffer =
      let k : BufferKey = (type, (id, identity)) in
      elim (Assoc.lookup k buffer) [
        | none ↦ buffer
        | some v ↦
            let flags : ℕ = clear_receipt receipt v.current_flags in
            if awaits_receipt flags
            then Assoc.update k (record v { current_flags = flags }) buffer
            else Assoc.erase k buffer
      ]

  -- `Erase`
  unfoldable pub erase_request : ℕ → ℕ → ℕ → Buffer F → Buffer F
  unfolding Assoc.lookup Assoc.erase
  erase_request type id identity buffer =
      let k : BufferKey = (type, (id, identity)) in
      elim (Assoc.lookup k buffer) [ none ↦ buffer | some _ ↦ Assoc.erase k buffer ]
