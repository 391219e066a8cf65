-- ===== src/Client/Response.antt =====
-- A response as the client's user gets it: liblhcluster/src/requestresponse.cxx.
use lhcluster.Common.{ℕ}
use lhcluster.Cluster.{VersionFlags}
use lhcluster.Wire.{Wire, Message}
use lhcluster.Broker.Parse.{Parsed, parsed, next_frame, field, or_refuse, ◌>>=◌}
use lhcluster.Worker.Parse.{pop_delimiter}

pub record RequestResponse (F : Type 0) : Type 0 where
  pub id : ℕ
  pub type : ℕ
  pub status : ℕ
  pub message : Message F
  pub vfs : VersionFlags

module _ {F : Type 0} ⦃w : Wire F⦄ where
  -- the constructor and `FillFromMessage`: delimiter, flags, type, id, status, and the message of the
  -- worker; each missing frame is an exception of its own
  unfoldable pub fill_from_message : Message F → Parsed (RequestResponse F)
  unfolding pop_delimiter
  fill_from_message m = do
    m₁ ← or_refuse (pop_delimiter m) 0
    (flags_frame, m₂) ← next_frame m₁ 1
    vfs ← field (w.get_vfs flags_frame)
    (type_frame, m₃) ← next_frame m₂ 2
    type ← field (w.get_u32 type_frame)
    (id_frame, m₄) ← next_frame m₃ 3
    id ← field (w.get_u64 id_frame)
    (status_frame, m₅) ← next_frame m₄ 4
    status ← field (w.get_u32 status_frame)
    parsed (record { id = id; type = type; status = status; message = m₅; vfs = vfs })
