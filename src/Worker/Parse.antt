-- ===== src/Worker/Parse.antt =====
-- The checks by which the handlers of liblhcluster/src/worker.cxx read the frames of a message.
use lhcluster.Common.{ℕ, Option, some, none, [], ◌∷◌, if◌then◌else◌}
use lhcluster.Common.Int.{ℤ}
use lhcluster.Cluster.{VersionFlags, ClusterMessage, message_of}
use lhcluster.Wire.{Wire, Message}
use lhcluster.Wire.Envelope.{is_empty, pop_envelope}
use lhcluster.Broker.Parse.{Parsed, parsed, next_frame, field, or_refuse, RequestKey, ◌>>=◌, ◌>>◌}

-- What is read of a new request before its id.
pub record RequestHead (F : Type 0) : Type 0 where
  pub envelope : Message F
  pub vfs : VersionFlags
  -- the message without its envelope, which goes to the processor
  pub body : Message F
  pub type_frame : F
  pub request_type : ℕ
  -- the frames behind the type
  pub behind : Message F

module _ {F : Type 0} ⦃w : Wire F⦄ where
  -- a popped frame that is to be empty
  unfoldable pub pop_delimiter : Message F → Option (Message F)
  pop_delimiter [] = none
  pop_delimiter (f ∷ m) = if is_empty f then some m else none

  -- `handleBrokerMessage`: the delimiter, the broker's message type, and the rest
  unfoldable pub parse_broker_message : Message F → Parsed (ClusterMessage × Message F)
  unfolding pop_delimiter message_of
  parse_broker_message m = do
    m₁ ← or_refuse (pop_delimiter m) 1
    (type_frame, m₂) ← next_frame m₁ 2
    n ← field (w.get_u32 type_frame)
    parsed (message_of n, m₂)

  -- `handleBrokerNewRequest`, steps 1 to 3: the envelope, which is not empty, the flags, the type
  unfoldable pub parse_request_head : Message F → Parsed (RequestHead F)
  unfolding pop_envelope
  parse_request_head m = do
    next_frame m 1
    (env, body) ← or_refuse (pop_envelope m) 1
    (flags_frame, m₁) ← next_frame body 1
    vfs ← field (w.get_vfs flags_frame)
    (type_frame, m₂) ← next_frame m₁ 1
    type ← field (w.get_u32 type_frame)
    parsed (record {
      envelope = env;
      vfs = vfs;
      body = body;
      type_frame = type_frame;
      request_type = type;
      behind = m₂;
    })

  -- step 4: the frame of the id, and the id
  unfoldable pub parse_request_id : Message F → Parsed (F × ℕ)
  parse_request_id m = do
    (id_frame, _) ← next_frame m 1
    id ← field (w.get_u64 id_frame)
    parsed (id_frame, id)

  -- `handleProcessorMessage`: flags, type, id, and the status
  unfoldable pub parse_response : Message F → Parsed (RequestKey × ℕ)
  parse_response m = do
    (flags_frame, m₁) ← next_frame m 1
    vfs ← field (w.get_vfs flags_frame)
    (type_frame, m₂) ← next_frame m₁ 1
    type ← field (w.get_u32 type_frame)
    (id_frame, m₃) ← next_frame m₂ 1
    id ← field (w.get_u64 id_frame)
    (status_frame, _) ← next_frame m₃ 1
    status ← field (w.get_u32 status_frame)
    parsed (record { vfs = vfs; request_type = type; request_id = id }, status)

  -- `handleBrokerHeartbeat`: the time, which is not read, and the delay, which is read as an `int`
  unfoldable pub parse_broker_heartbeat : Message F → Parsed ℤ
  parse_broker_heartbeat m = do
    (_, m₁) ← next_frame m 1
    (delay_frame, _) ← next_frame m₁ 2
    delay ← field (w.get_i32 delay_frame)
    parsed delay
