-- ===== src/Cluster.antt =====
-- liblhcluster/include/lhcluster/lhcluster/cluster.h: the enumerations of the protocol, versions and
-- message flags. A `uint32_t` enumeration holds any number, so each has a constructor for the rest.
pub mod MessageFlag
pub mod Order
use lhcluster.Common.{
  ℕ, ◌+◌, ◌-◌, ◌^◌, Bool, not, ◌&&◌, ◌||◌, Option, none, some, List, [], ◌∷◌, ltb, nat_beq,
  get_elem?, bit_and,
}

-- `enum class RequestStatus`
pub data RequestStatus : Type 0 where
  unset new in_progress succeeded failed fatal_error rejected worker_death redirected :
      RequestStatus
  other_status : ℕ → RequestStatus

unfoldable pub status_number : RequestStatus → ℕ
status_number unset = 0
status_number new = 1
status_number in_progress = 2
status_number succeeded = 3
status_number failed = 4
status_number fatal_error = 5
status_number rejected = 6
status_number worker_death = 7
status_number redirected = 8
status_number (other_status n) = n

-- `enum class ClusterMessage`
pub data ClusterMessage : Type 0 where
  nothing : ClusterMessage
  worker_heartbeat worker_ready worker_finished worker_receipt : ClusterMessage
  broker_heartbeat broker_new_request broker_response : ClusterMessage
  broker_sent_receipt broker_received_receipt broker_shutting_down : ClusterMessage
  client_heartbeat client_new_request : ClusterMessage
  other_message : ℕ → ClusterMessage

unfoldable pub message_number : ClusterMessage → ℕ
message_number nothing = 0
message_number worker_heartbeat = 1
message_number worker_ready = 2
message_number worker_finished = 3
message_number worker_receipt = 4
message_number broker_heartbeat = 5
message_number broker_new_request = 6
message_number broker_response = 7
message_number broker_sent_receipt = 8
message_number broker_received_receipt = 9
message_number broker_shutting_down = 10
message_number client_heartbeat = 11
message_number client_new_request = 12
message_number (other_message n) = n

abbrev cluster_messages : List ClusterMessage
cluster_messages =
    nothing ∷ worker_heartbeat ∷ worker_ready ∷ worker_finished ∷ worker_receipt ∷ broker_heartbeat
    ∷ broker_new_request ∷ broker_response ∷ broker_sent_receipt ∷ broker_received_receipt
    ∷ broker_shutting_down ∷ client_heartbeat ∷ client_new_request ∷ []

-- `static_cast< ClusterMessage >`
unfoldable pub message_of : ℕ → ClusterMessage
message_of n = elim (get_elem? cluster_messages n) [ some c ↦ c | none ↦ other_message n ]

-- `struct LHCVersion`, two fields of 16 bits
pub record Version : Type 0 where
  pub lhcmajor : ℕ
  pub lhcminor : ℕ

abbrev pub default_version : Version
default_version = record { lhcmajor = 0; lhcminor = 1 }

unfoldable pub version_eq : Version → Version → Bool
version_eq a b = nat_beq a.lhcmajor b.lhcmajor && nat_beq a.lhcminor b.lhcminor

unfoldable pub version_lt : Version → Version → Bool
version_lt a b =
    ltb a.lhcmajor b.lhcmajor || (nat_beq a.lhcmajor b.lhcmajor && ltb a.lhcminor b.lhcminor)

unfoldable pub version_ne : Version → Version → Bool
unfolding version_eq
version_ne a b = not (version_eq a b)

unfoldable pub version_gt : Version → Version → Bool
version_gt a b =
    ltb b.lhcmajor a.lhcmajor || (nat_beq a.lhcmajor b.lhcmajor && ltb b.lhcminor a.lhcminor)

unfoldable pub version_le : Version → Version → Bool
version_le a b =
    ltb a.lhcmajor b.lhcmajor
    || (nat_beq a.lhcmajor b.lhcmajor
        && (nat_beq a.lhcminor b.lhcminor || ltb a.lhcminor b.lhcminor))

unfoldable pub version_ge : Version → Version → Bool
version_ge a b =
    ltb b.lhcmajor a.lhcmajor
    || (nat_beq a.lhcmajor b.lhcmajor
        && (nat_beq a.lhcminor b.lhcminor || ltb b.lhcminor a.lhcminor))

-- `struct LHCVersionFlags`
pub record VersionFlags : Type 0 where
  pub version : Version
  pub flags : ℕ

unfoldable pub has_any : VersionFlags → ℕ → Bool
has_any v mask = not (nat_beq (bit_and v.flags mask) 0)

unfoldable pub has_all : VersionFlags → ℕ → Bool
has_all v mask = nat_beq (bit_and v.flags mask) mask

-- `~mask` on 64 bits, of a mask below 2 ^ 64
abbrev pub bit_not : ℕ → ℕ
bit_not mask = 2 ^ 64 - 1 - mask

-- `LHCVersionFlags( vfs.version, vfs.flags & ( ~flag ) )`
unfoldable pub without_flag : VersionFlags → ℕ → VersionFlags
without_flag v flag = record v { flags = bit_and v.flags (bit_not flag) }

unfoldable pub version_flags_eq : VersionFlags → VersionFlags → Bool
unfolding version_eq
version_flags_eq a b = version_eq a.version b.version && nat_beq a.flags b.flags
