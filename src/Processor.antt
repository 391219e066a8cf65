-- ===== src/Processor.antt =====
-- The request processor of liblhcluster/src/requestprocessor.cxx, which hands a request to the handler
-- that the program's user supplies and sends its response to the worker. The handler is a parameter.
pub mod Parse
pub mod Served
use lhcluster.Common.{ℕ, Option, some, none, ◌∷◌, if◌then◌else◌}
use lhcluster.Common.Int.{ℤ, pos, negsuc, is_neg}
use lhcluster.Cluster.{VersionFlags}
use lhcluster.Wire.{Wire, Message}
use lhcluster.Action.{
  Act, pure, gets, modify, value, with_fields, caught, ◌>>=◌, ◌>>◌, Network, transmit, next_answer,
  network_send,
}
use lhcluster.Processor.Parse.{RequestFrames, parse_request_frames}

-- `selfMessagingSocket`, the one socket that the processor sends to
pub data Socket : Type 0 where
  self_messaging : Socket

-- `requestHandler->Process`: the status, and the message that the handler has made
abbrev pub Process : Type 0 → Type 0
Process F = VersionFlags → ℕ → ℕ → Message F → ℕ × Message F

module _ {F : Type 0} ⦃w : Wire F⦄ where
  -- the response: the frames of the key as they came, the status, and what the handler made
  unfoldable pub response_message : RequestFrames F → ℕ × Message F → Message F
  response_message r answer =
      r.vfs_frame ∷ r.type_frame ∷ r.id_frame ∷ w.put_u32 answer.0 ∷ answer.1

  -- `handleRequest( msg )`
  unfoldable pub handle_request : Process F → Message F → Act (Network Socket F) ℤ
  unfolding with_fields parse_request_frames response_message value transmit ◌>>=◌
  handle_request process m = with_fields (parse_request_frames m) λ r. do
    vfs ← value (w.get_vfs r.vfs_frame)
    type ← value (w.get_u32 r.type_frame)
    id ← value (w.get_u64 r.id_frame)
    transmit self_messaging (response_message r (process vfs type id r.data_frames))

  -- `handleRequest()`, called by `workerMessagingReactor`
  unfoldable pub worker_messaging_reactor :
      Process F → Option (Message F) → Act (Network Socket F) ℤ
  unfolding handle_request caught pure ◌>>=◌
  worker_messaging_reactor process none = caught (pure (pos 1))
  worker_messaging_reactor process (some m) =
      caught (do ret ← handle_request process m; pure (if is_neg ret then ret else pos 0))
