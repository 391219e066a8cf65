-- ===== src/Notify/Strings.antt =====
-- Notification types as frames: `get_frame_value_as_str`, `append_message_value_as_str` and
-- `prepend_message_value_as_str` of liblhcluster/src/zmqframehandler.cxx, for std::string.
use lhcluster.Common.{
  ℕ, ◌≡◌, refl, Bool, true, false, ◌&&◌, ◌||◌, Option, some, none, List, [], ◌∷◌, length, leb,
  nat_beq, arith, if◌then◌else◌,
}
use lhcluster.Wire.{Wire}
use lhcluster.Wire.Envelope.{is_empty}

-- `typedef std::string NotificationType`, as its bytes
abbrev pub NotificationType : Type 0
NotificationType = List ℕ

-- `isspace` of the classic locale, by which `>>` separates words
abbrev pub is_space : ℕ → Bool
is_space c = nat_beq c 32 || (leb 9 c && leb c 13)

abbrev pub skip_spaces : List ℕ → List ℕ
skip_spaces [] = []
skip_spaces (c ∷ s) = if is_space c then skip_spaces s else c ∷ s

abbrev pub take_word : List ℕ → List ℕ
take_word [] = []
take_word (c ∷ s) = if is_space c then [] else c ∷ take_word s

abbrev pub null_string : List ℕ → Bool
null_string [] = true
null_string (c ∷ s) = false

-- `iss >> v`, which throws where it finds no word
unfoldable pub read_word : List ℕ → Option NotificationType
read_word s = let word = take_word (skip_spaces s) in if null_string word then none else some word

-- `c_str()`, as a C string: it ends at a zero
unfoldable pub c_str : List ℕ → List ℕ
c_str [] = []
c_str (c ∷ s) = if nat_beq c 0 then [] else c ∷ c_str s

module _ {F : Type 0} ⦃w : Wire F⦄ where
  unfoldable pub get_frame_value_as_str : F → Option NotificationType
  unfolding read_word
  get_frame_value_as_str f = read_word (w.bytes f)

  -- the frame that `append_message_value_as_str` or `prepend_message_value_as_str` adds
  unfoldable pub value_as_str : NotificationType → F
  unfolding c_str
  value_as_str t = w.put_bytes (c_str t)

-- Bytes that are neither zero nor a space.
abbrev pub ArePlain : List ℕ → Type 0
ArePlain [] = Unit {0}
ArePlain (c ∷ s) = (nat_beq c 0 ≡ false) × (is_space c ≡ false) × ArePlain s

-- A type of at least one byte, none of which is zero or a space.
abbrev pub IsWord : NotificationType → Type 0
IsWord t = (null_string t ≡ false) × ArePlain t

abbrev pub AreWords : List NotificationType → Type 0
AreWords [] = Unit {0}
AreWords (t ∷ ts) = IsWord t × AreWords ts

pub c_str-plain : (s : List ℕ) → ArePlain s → c_str s ≡ s
unfolding c_str
c_str-plain [] h = refl
c_str-plain (c ∷ s) h = rw (h.0, c_str-plain s h.2) refl

take_plain : (s : List ℕ) → ArePlain s → take_word s ≡ s
take_plain [] h = refl
take_plain (c ∷ s) h = rw (h.1, take_plain s h.2) refl

skip_plain : (s : List ℕ) → ArePlain s → skip_spaces s ≡ s
skip_plain [] h = refl
skip_plain (c ∷ s) h = rw (h.1) refl

long_lem : (s : List ℕ) → null_string s ≡ false → nat_beq (length s) 0 ≡ false
long_lem [] h = ground (arith, h)
long_lem (c ∷ s) h = ground arith

-- A type that is a word is read back as it was written.
pub get_frame_value_as_str-value_as_str :
    {F : Type 0} (w : Wire F) (t : NotificationType)
    → IsWord t
    → get_frame_value_as_str ⦃w = w⦄ (value_as_str ⦃w = w⦄ t) ≡ some t
unfolding get_frame_value_as_str value_as_str read_word
get_frame_value_as_str-value_as_str w t h =
    rw (w.bytes-put_bytes (c_str t), c_str-plain t h.1, skip_plain t h.1, take_plain t h.1, h.0)
      refl

pub value_as_str-filled :
    {F : Type 0} (w : Wire F) (t : NotificationType)
    → IsWord t
    → is_empty ⦃w = w⦄ (value_as_str ⦃w = w⦄ t) ≡ false
unfolding value_as_str
value_as_str-filled w t h = rw (w.size-put_bytes (c_str t), c_str-plain t h.1) (long_lem t h.0)
