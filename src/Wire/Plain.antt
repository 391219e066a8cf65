-- ===== src/Wire/Plain.antt =====
-- Frames for the tests: a tag, then the value. They meet the laws of `Wire`.
use lhcluster.Common.{
  ℕ, ◌-◌, ◌^◌, ◌<◌, ◌≡◌, refl, ◌↔◌, Bool, true, false, ◌&&◌, Option, some, none, List, [], ◌∷◌, ltb,
  nat_beq, length, arith, if◌then◌else◌,
}
use lhcluster.Common.Int.{ℤ, pos, negsuc}
use lhcluster.Cluster.{VersionFlags}
use lhcluster.Wire.{Wire}

abbrev pub PlainFrame : Type 0
PlainFrame = List ℕ

unfoldable pub plain_beq : PlainFrame → PlainFrame → Bool
plain_beq [] [] = true
plain_beq (x ∷ xs) (y ∷ ys) = nat_beq x y && plain_beq xs ys
plain_beq _ _ = false

plain_sound : (a b : PlainFrame) → plain_beq a b ≡ true → a ≡ b
unfolding plain_beq
plain_sound [] [] h = refl
plain_sound [] (y ∷ ys) h = ground arith
plain_sound (x ∷ xs) [] h = ground arith
plain_sound (x ∷ xs) (y ∷ ys) h = ground (arith, plain_sound xs ys)

plain_refl : (a : PlainFrame) → plain_beq a a ≡ true
unfolding plain_beq
plain_refl [] = refl
plain_refl (x ∷ xs) = ground (arith, plain_refl xs)

pub plain_beq_iff : (a b : PlainFrame) → (plain_beq a b ≡ true) ↔ (a ≡ b)
plain_beq_iff a b = (plain_sound a b, (λ e. rw e (plain_refl b)))

-- `identity n`: a name that a ROUTER socket gives to a peer.
abbrev pub peer : ℕ → PlainFrame
peer n = 0 ∷ n ∷ []

abbrev pub get_number : ℕ → ℕ → PlainFrame → Option ℕ
get_number tag bound (t ∷ n ∷ []) = if nat_beq t tag && ltb n bound then some n else none
get_number tag bound _ = none

abbrev pub get_integer : ℕ → PlainFrame → Option ℤ
get_integer tag (t ∷ s ∷ n ∷ []) =
    if nat_beq t tag then some (if nat_beq s 0 then pos n else negsuc n) else none
get_integer tag _ = none

abbrev pub put_integer : ℕ → ℤ → PlainFrame
put_integer tag (pos n) = tag ∷ 0 ∷ n ∷ []
put_integer tag (negsuc n) = tag ∷ 1 ∷ n ∷ []

-- An `int32` field, which a `uint32` field looks like, and a time does not.
abbrev pub get_signed : PlainFrame → Option ℤ
get_signed (t ∷ n ∷ []) =
    if nat_beq t 1 then some (if ltb n (2 ^ 31) then pos n else negsuc (2 ^ 32 - 1 - n)) else none
get_signed (t ∷ s ∷ n ∷ []) =
    if nat_beq t 4
    then some (pos 0)
    else if nat_beq t 3
    then some (if nat_beq s 0 then pos n else negsuc n)
    else none
get_signed _ = none

pub signed_of_time : (n : ℤ) → get_signed (put_integer 4 n) ≡ some (pos 0)
signed_of_time (pos n) = refl
signed_of_time (negsuc n) = refl

pub signed_of_number : (n : ℕ) → n < 2 ^ 31 → get_signed (1 ∷ n ∷ []) ≡ some (pos n)
signed_of_number n h = ground arith

abbrev pub get_flags : PlainFrame → Option VersionFlags
get_flags (t ∷ a ∷ b ∷ f ∷ []) =
    if nat_beq t 5
    then some (record { version = record { lhcmajor = a; lhcminor = b }; flags = f })
    else none
get_flags _ = none

pub get_number_lem : (tag bound n : ℕ) → n < bound → get_number tag bound (tag ∷ n ∷ []) ≡ some n
get_number_lem tag bound n h = ground arith

pub put_integer_size : (tag : ℕ) (n : ℤ) → 0 < length (put_integer tag n)
put_integer_size tag (pos n) = omega arith
put_integer_size tag (negsuc n) = omega arith

-- A frame for an `int32_t`, which the broker only reads.
abbrev pub plain_i32 : ℤ → PlainFrame
plain_i32 = put_integer 3

instance abbrev pub plain_wire : Wire PlainFrame
plain_wire = record {
  frame_eq = record { equals = plain_beq; equals_iff = plain_beq_iff };
  size = length;
  null_frame = [];
  get_u32 = get_number 1 (2 ^ 32);
  get_u64 = get_number 2 (2 ^ 64);
  get_i32 = get_signed;
  get_time = get_integer 4;
  get_vfs = get_flags;
  put_u32 = λ n. 1 ∷ n ∷ [];
  put_u64 = λ n. 2 ∷ n ∷ [];
  put_time = put_integer 4;
  put_vfs = λ v. 5 ∷ v.version.lhcmajor ∷ v.version.lhcminor ∷ v.flags ∷ [];
  bytes = λ f. f;
  put_bytes = λ s. s;
  bytes-put_bytes = λ s. refl;
  size-put_bytes = λ s. refl;
  size-null_frame = refl;
  get_u32-put_u32 = get_number_lem 1 (2 ^ 32);
  get_u64-put_u64 = get_number_lem 2 (2 ^ 64);
  get_time-put_time = λ n h. refl;
  get_i32-put_u32 = signed_of_number;
  get_i32-put_time = signed_of_time;
  get_vfs-put_vfs = λ v a b c. refl;
  size-put_u32 = λ n. le_two n;
  size-put_u64 = λ n. le_two n;
  size-put_time = put_integer_size 4;
  size-put_vfs = λ v. le_four;
}
  where
    le_two : (n : ℕ) → 0 < 2
    le_two n = omega arith

    le_four : 0 < 4
    le_four = omega arith
