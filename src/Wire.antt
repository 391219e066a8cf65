-- ===== src/Wire.antt =====
-- What the program takes from outside its repository: the frames of czmq (zframe_t) and the protobuf
-- messages of zmqframetype.proto, which `ZMQFrameHandler` (liblhcluster/src/zmqframehandler.cxx)
-- serialises into frames. They are an argument of the model, with the documented behaviour as laws.
-- A zmsg_t is a sequence of frames, and is modelled as a list.
pub mod Plain
pub mod Envelope
use lhcluster.Common.{ℕ, ◌^◌, ◌<◌, ◌≡◌, Option, some, List, Eq, length}
use lhcluster.Common.Int.{ℤ, pos}
use lhcluster.Cluster.{VersionFlags}

pub record Wire (F : Type 0) : Type 0 where
  -- `zframe_eq`
  pub frame_eq : Eq F
  -- `zframe_size`
  pub size : F → ℕ
  -- the frame that `zmsg_addmem( msg, NULL, 0 )` makes
  pub null_frame : F
  -- `get_frame_value< T >`; `none` where `ParseFromArray` fails
  pub get_u32 : F → Option ℕ
  pub get_u64 : F → Option ℕ
  pub get_i32 : F → Option ℤ
  pub get_time : F → Option ℤ
  pub get_vfs : F → Option VersionFlags
  -- the frame that `append_message_value< T >` adds
  pub put_u32 : ℕ → F
  pub put_u64 : ℕ → F
  pub put_time : ℤ → F
  pub put_vfs : VersionFlags → F
  -- `zframe_data`: the bytes
  pub bytes : F → List ℕ
  -- the frame that `zmsg_addstr` makes of the bytes of a C string
  pub put_bytes : List ℕ → F
  pub bytes-put_bytes : (s : List ℕ) → bytes (put_bytes s) ≡ s
  pub size-put_bytes : (s : List ℕ) → size (put_bytes s) ≡ length s
  pub size-null_frame : size null_frame ≡ 0
  pub get_u32-put_u32 : (n : ℕ) → n < 2 ^ 32 → get_u32 (put_u32 n) ≡ some n
  pub get_u64-put_u64 : (n : ℕ) → n < 2 ^ 64 → get_u64 (put_u64 n) ≡ some n
  pub get_time-put_time : (n : ℕ) → n < 2 ^ 32 → get_time (put_time (pos n)) ≡ some (pos n)
  -- `int32` and `uint32` are one wire type
  pub get_i32-put_u32 : (n : ℕ) → n < 2 ^ 31 → get_i32 (put_u32 n) ≡ some (pos n)
  -- a field of another wire type is an unknown field, which the parser skips: the value stays 0
  pub get_i32-put_time : (n : ℤ) → get_i32 (put_time n) ≡ some (pos 0)
  pub get_vfs-put_vfs :
      (v : VersionFlags)
      → v.version.lhcmajor < 2 ^ 16
      → v.version.lhcminor < 2 ^ 16
      → v.flags < 2 ^ 64
      → get_vfs (put_vfs v) ≡ some v
  -- the field `keep` is set, so that no value is serialised to an empty frame
  pub size-put_u32 : (n : ℕ) → 0 < size (put_u32 n)
  pub size-put_u64 : (n : ℕ) → 0 < size (put_u64 n)
  pub size-put_time : (n : ℤ) → 0 < size (put_time n)
  pub size-put_vfs : (v : VersionFlags) → 0 < size (put_vfs v)

abbrev pub Message : Type 0 → Type 0
Message F = List F

-- Identities are compared as frames.
instance abbrev pub identity_eq : {F : Type 0} ⦃w : Wire F⦄ → Eq F
identity_eq ⦃w⦄ = w.frame_eq
