-- ===== src/Client.antt =====
-- The client of liblhcluster/src/client.cxx: it sends requests to the client proxy and collects the
-- responses (liblhcluster/src/requestresponse.cxx).
pub mod Response
pub mod Retrieve
pub mod Waiting
pub mod Journey
use lhcluster.Common.{ℕ, [], ◌∷◌, if◌then◌else◌}
use lhcluster.Common.Int.{ℤ, pos}
use lhcluster.Cluster.{VersionFlags, default_version, message_number, client_new_request}
use lhcluster.Cluster.MessageFlag
use lhcluster.Wire.{Wire, Message}
use lhcluster.Action.{Act, Network, transmit}

-- `clientMessagingSocket`
pub data Socket : Type 0 where
  client_messaging : Socket

-- `LHCVersionFlags( messageFlags )`
abbrev pub flags_only : ℕ → VersionFlags
flags_only flags = record { version = default_version; flags = flags }

module _ {F : Type 0} ⦃w : Wire F⦄ where
  -- the message of `SendRequest`, with the frames that the caller gave behind the key
  unfoldable pub request_message : ℕ → ℕ → ℕ → Message F → Message F
  unfolding message_number
  request_message type id flags m =
      w.null_frame
      ∷ w.put_u32 (message_number client_new_request)
      ∷ w.put_vfs (flags_only flags)
      ∷ w.put_u32 type
      ∷ w.put_u64 id
      ∷ m

  -- `SendRequest`, with a message
  unfoldable pub send_request : ℕ → ℕ → ℕ → Message F → Act (Network Socket F) ℤ
  unfolding request_message transmit
  send_request type id flags m = transmit client_messaging (request_message type id flags m)

  -- `SendRequest`, without one
  unfoldable pub send_empty_request : ℕ → ℕ → ℕ → Act (Network Socket F) ℤ
  unfolding send_request
  send_empty_request type id flags = send_request type id flags []

  unfoldable pub send_asynchronous_request : ℕ → ℕ → Message F → Act (Network Socket F) ℤ
  unfolding send_request
  send_asynchronous_request type id m = send_request type id MessageFlag.asynchronous m

  unfoldable pub send_synchronous_request : ℕ → ℕ → Message F → Act (Network Socket F) ℤ
  unfolding send_request
  send_synchronous_request type id m = send_request type id 0 m

  -- `SendAsynchronousRequest` and `SendSynchronousRequest` without a message
  unfoldable pub send_empty_asynchronous_request : ℕ → ℕ → Act (Network Socket F) ℤ
  unfolding send_empty_request
  send_empty_asynchronous_request type id = send_empty_request type id MessageFlag.asynchronous

  unfoldable pub send_empty_synchronous_request : ℕ → ℕ → Act (Network Socket F) ℤ
  unfolding send_empty_request
  send_empty_synchronous_request type id = send_empty_request type id 0
