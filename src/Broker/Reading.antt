-- ===== src/Broker/Reading.antt =====
-- How broker.cxx reads the messages that a client or a worker builds.
use lhcluster.Common.{ℕ, ◌^◌, ◌<◌, ◌≡◌, refl, true, false, some, [], ◌∷◌, ◌++◌, arith, nat_beq}
use mathlib.Core.List.{append_assoc}
use lhcluster.Cluster.{message_of}
use lhcluster.Wire.{Wire, Message}
use lhcluster.Wire.Envelope.{is_empty, AllFilled, envelope_split}
use lhcluster.Broker.State.{value, ◌>>=◌, continue}
use lhcluster.Broker.Parse.{RequestKey, parsed, parse_client_request}
use lhcluster.Broker.Replies.{request_header}
use lhcluster.Broker.Reactor.{
  split_delimiter, dispatch_frontend, read_frontend, handle_frontend_message, dispatch_backend,
  handle_backend_message,
}

-- The fields fit the integers of the wire: 16 bits twice, 64 bits, 32 bits and 64 bits.
abbrev pub FitsWire : RequestKey → Type 0
FitsWire k =
    (k.vfs.version.lhcmajor < 2 ^ 16)
    × (k.vfs.version.lhcminor < 2 ^ 16)
    × (k.vfs.flags < 2 ^ 64)
    × (k.request_type < 2 ^ 32)
    × (k.request_id < 2 ^ 64)

module _ {F : Type 0} ⦃w : Wire F⦄ where
  -- The frames of a client's request, behind its envelope and the delimiter.
  abbrev pub request_frames : RequestKey → Message F → Message F
  request_frames k rest = w.put_vfs k.vfs ∷ w.put_u32 k.request_type ∷ w.put_u64 k.request_id ∷ rest

  -- The key of a client's request is read back from its frames, whatever the envelope and the data.
  pub parse_client_request-request_frames :
      (env : Message F) (k : RequestKey) (data_frames : Message F)
      → AllFilled env
      → FitsWire k
      → parse_client_request (env ++ w.null_frame ∷ request_frames k data_frames) ≡ parsed k
  unfolding parse_client_request
  parse_client_request-request_frames env k data_frames filled fits =
      rw ((envelope_split env (request_frames k data_frames) filled).2) (
        ground (
          arith,
          w.get_vfs-put_vfs k.vfs fits.0 fits.1 fits.2,
          w.get_u32-put_u32 k.request_type fits.3,
          w.get_u64-put_u64 k.request_id fits.4,
          w.size-put_vfs k.vfs,
          w.size-put_u32 k.request_type,
          w.size-put_u64 k.request_id,
        ))

  -- A refusal keeps the envelope, the delimiter and the key of the request, and not its data.
  pub request_header-request_frames :
      (env : Message F) (k : RequestKey) (data_frames : Message F)
      → AllFilled env
      → request_header (env ++ w.null_frame ∷ request_frames k data_frames)
        ≡ some (env ++ w.null_frame ∷ request_frames k [])
  unfolding request_header
  request_header-request_frames [] k data_frames filled = ground (arith, w.size-null_frame)
  request_header-request_frames (f ∷ env) k data_frames filled =
      ground (arith, filled.0, request_header-request_frames env k data_frames filled.1)

  pub split_delimiter_lem :
      (env body : Message F)
      → AllFilled env
      → split_delimiter (env ++ w.null_frame ∷ body) ≡ some (env ++ w.null_frame ∷ [], body)
  unfolding split_delimiter
  split_delimiter_lem [] body filled = ground (arith, w.size-null_frame)
  split_delimiter_lem (f ∷ env) body filled =
      ground (arith, filled.0, split_delimiter_lem env body filled.1)

  filled_lem : (f : F) → 0 < w.size f → is_empty f ≡ false
  filled_lem f h = ground (arith, h)

  -- A frontend message goes to the handler of its message type, without the frame of that type.
  pub handle_frontend_message-dispatch :
      (env : Message F) (n : ℕ) (body : Message F)
      → AllFilled env
      → n < 2 ^ 32
      → handle_frontend_message (env ++ w.null_frame ∷ w.put_u32 n ∷ body)
        ≡ dispatch_frontend (message_of n) (env ++ w.null_frame ∷ body)
  unfolding handle_frontend_message read_frontend ◌>>=◌ value continue
  handle_frontend_message-dispatch env n body filled small =
      rw
        (
          handle_frontend_message,
          split_delimiter_lem env (w.put_u32 n ∷ body) filled,
          filled_lem (w.put_u32 n) (w.size-put_u32 n),
          w.get_u32-put_u32 n small,
          append_assoc env (w.null_frame ∷ []) body,
        )
        refl

  -- A backend message goes to the handler of its message type, with the identity in front of it.
  pub handle_backend_message-dispatch :
      (identity : F) (n : ℕ) (body : Message F)
      → 0 < w.size identity
      → n < 2 ^ 32
      → handle_backend_message (identity ∷ w.null_frame ∷ w.put_u32 n ∷ body)
        ≡ dispatch_backend (message_of n) identity body
  unfolding handle_backend_message ◌>>=◌ value continue
  handle_backend_message-dispatch identity n body filled small =
      let null : nat_beq (w.size w.null_frame) 0 ≡ true = ground (arith, w.size-null_frame) in
      rw
        (
          filled_lem identity filled,
          null,
          filled_lem (w.put_u32 n) (w.size-put_u32 n),
          w.get_u32-put_u32 n small,
        )
        refl
