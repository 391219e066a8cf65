-- ===== src/Processor/Parse.antt =====
-- The frames that handleRequest of liblhcluster/src/requestprocessor.cxx takes off a request.
use lhcluster.Wire.{Wire, Message}
use lhcluster.Broker.Parse.{Parsed, parsed, next_frame, ◌>>=◌}

pub record RequestFrames (F : Type 0) : Type 0 where
  pub vfs_frame : F
  pub type_frame : F
  pub id_frame : F
  -- what stays of the message
  pub data_frames : Message F

module _ {F : Type 0} ⦃w : Wire F⦄ where
  unfoldable pub parse_request_frames : Message F → Parsed (RequestFrames F)
  parse_request_frames m = do
    (vfs_frame, m₁) ← next_frame m 1
    (type_frame, m₂) ← next_frame m₁ 1
    (id_frame, m₃) ← next_frame m₂ 2
    parsed (record {
      vfs_frame = vfs_frame;
      type_frame = type_frame;
      id_frame = id_frame;
      data_frames = m₃;
    })
