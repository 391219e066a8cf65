-- ===== src/Broker/Parse.antt =====
-- The checks by which the handlers of broker.cxx read the frames of a message. A message that lacks
-- a frame is refused with the handler's return code; a frame that protobuf refuses throws.
use lhcluster.Common.{
  ℕ, Bool, true, false, not, ◌||◌, Option, some, none, List, [], ◌∷◌, ltb, length, if◌then◌else◌,
}
use lhcluster.Common.Int.{ℤ, pos, is_neg, ltb_ℤ}
use lhcluster.Cluster.{VersionFlags}
use lhcluster.Wire.{Wire, Message}
use lhcluster.Wire.Envelope.{is_empty, skip_envelope}

pub data Parsed (A : Type 0) : Type 0 where
  parsed : A → Parsed A
  malformed : ℕ → Parsed A
  unparsable : Parsed A

module _ {A B : Type 0} where
  infixl 5 ◌>>=◌ ◌>>◌
  abbrev pub ◌>>=◌ : Parsed A → (A → Parsed B) → Parsed B
  parsed a >>= f = f a
  malformed n >>= f = malformed n
  unparsable >>= f = unparsable

  abbrev pub ◌>>◌ : Parsed A → Parsed B → Parsed B
  m >> k = m >>= λ _. k

-- `if ( bad ) return code;`
abbrev pub refuse_if : Bool → ℕ → Parsed (Unit {0})
refuse_if true code = malformed code
refuse_if false code = parsed tt

-- `frameHandler.get_frame_value`
abbrev pub field : {A : Type 0} → Option A → Parsed A
field none = unparsable
field (some a) = parsed a

abbrev pub or_refuse : {A : Type 0} → Option A → ℕ → Parsed A
or_refuse none code = malformed code
or_refuse (some a) code = parsed a

-- The fields of a ready message.
pub record Ready : Type 0 where
  pub ready_flags : VersionFlags
  pub free_capacity : ℤ
  pub send_delay : ℤ
  pub types : List ℕ

-- The fields by which a request is known.
pub record RequestKey : Type 0 where
  pub vfs : VersionFlags
  pub request_type : ℕ
  pub request_id : ℕ

module _ {F : Type 0} ⦃w : Wire F⦄ where
  -- `frame = zmsg_next( msg ); if ( !( frame && zframe_size( frame ) ) ) return code;`
  abbrev pub next_frame : Message F → ℕ → Parsed (F × Message F)
  next_frame [] code = malformed code
  next_frame (f ∷ m) code = if is_empty f then malformed code else parsed (f, m)

  -- the request types of a ready message: the loop stops at the end or at an empty frame
  unfoldable pub parse_request_types : Message F → Parsed (List ℕ)
  parse_request_types [] = parsed []
  parse_request_types (f ∷ m) =
      let rest = do t ← field (w.get_u32 f); ts ← parse_request_types m; parsed (t ∷ ts)
      in if is_empty f then malformed 1 else rest

  -- the frames of a ready message, as `handleWorkerReady` reads them
  unfoldable pub parse_worker_ready : Message F → Parsed Ready
  unfolding parse_request_types
  parse_worker_ready m = do
    refuse_if (ltb (length m) 4) 1
    (flags_frame, m₁) ← next_frame m 1
    vfs ← field (w.get_vfs flags_frame)
    (capacity_frame, m₂) ← next_frame m₁ 1
    capacity ← field (w.get_i32 capacity_frame)
    refuse_if (is_neg capacity) 1
    (delay_frame, m₃) ← next_frame m₂ 1
    delay ← field (w.get_i32 delay_frame)
    types ← parse_request_types m₃
    parsed
        (record { ready_flags = vfs; free_capacity = capacity; send_delay = delay; types = types })

  -- the frames of a heartbeat: when it was sent, and the delay until the next one
  unfoldable pub parse_worker_heartbeat : ℤ → ℤ → Message F → Parsed (ℤ × ℤ)
  parse_worker_heartbeat now minimum m = do
    (sent_frame, m₁) ← next_frame m 2
    sent_at ← field (w.get_time sent_frame)
    refuse_if (not (ltb_ℤ (pos 0) sent_at) || ltb_ℤ now sent_at) 2
    (delay_frame, m₂) ← next_frame m₁ 3
    delay ← field (w.get_time delay_frame)
    refuse_if (ltb_ℤ delay minimum) 3
    parsed (sent_at, delay)

  -- flags, type and id, which follow one another
  abbrev pub parse_key : ℕ → ℕ → ℕ → Message F → Parsed RequestKey
  parse_key no_flags no_type no_id m = do
    (flags_frame, m₁) ← next_frame m no_flags
    vfs ← field (w.get_vfs flags_frame)
    (type_frame, m₂) ← next_frame m₁ no_type
    type ← field (w.get_u32 type_frame)
    (id_frame, m₃) ← next_frame m₂ no_id
    id ← field (w.get_u64 id_frame)
    parsed (record { vfs = vfs; request_type = type; request_id = id })

  -- `handleWorkerFinished`: the envelope, which is not empty, the delimiter, the broker's message
  -- type, and the key
  unfoldable pub parse_worker_finished : Message F → Parsed RequestKey
  unfolding skip_envelope
  parse_worker_finished m = do
    next_frame m 1
    body ← or_refuse (skip_envelope m) 1
    (_, rest) ← next_frame body 2
    parse_key 1 3 4 rest

  -- `handleClientRequest`: the envelope, the delimiter, and the key
  unfoldable pub parse_client_request : Message F → Parsed RequestKey
  unfolding skip_envelope
  parse_client_request m = do body ← or_refuse (skip_envelope m) 1; parse_key 3 3 4 body
