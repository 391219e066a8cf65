-- ===== src/Wire/Envelope.antt =====
-- The envelope of a message: its frames up to the first empty one. liblhcluster/src/utils.cxx, and
-- the loops by which the handlers skip an envelope.
use lhcluster.Common.{
  ◌<◌, ◌≡◌, Bool, Option, some, none, [], ◌∷◌, ◌++◌, nat_beq, arith, if◌then◌else◌,
}
use lhcluster.Wire.{Wire, Message}

module _ {F : Type 0} ⦃w : Wire F⦄ where
  -- `zframe_size( frame ) == 0`
  abbrev pub is_empty : F → Bool
  is_empty f = nat_beq (w.size f) 0

  -- `ZMQMessageEnvCopy`: the frames that it appends to a new message
  unfoldable pub env_copy : Message F → Message F
  env_copy [] = []
  env_copy (f ∷ m) = if is_empty f then [] else f ∷ env_copy m

  -- `ZMQMessageEnvMove`: the frames moved, and what stays of the message, without the delimiter
  unfoldable pub env_move : Message F → Message F × Message F
  env_move [] = ([], [])
  env_move (f ∷ m) =
      let (moved, rest) = env_move m in if is_empty f then ([], m) else (f ∷ moved, rest)

  -- `while ( frame && zframe_size( frame ) ) frame = zmsg_next( msg );` and the frames behind the
  -- delimiter; `none` where the loop ends at the end of the message
  unfoldable pub skip_envelope : Message F → Option (Message F)
  skip_envelope [] = none
  skip_envelope (f ∷ m) = if is_empty f then some m else skip_envelope m

  -- `while ( ( frame = zmsg_pop( msg ) ) && zframe_size( frame ) > 0 ) push_back( frame );`: the frames
  -- popped up to the delimiter, and what stays of the message
  unfoldable pub pop_envelope : Message F → Option (Message F × Message F)
  pop_envelope [] = none
  pop_envelope (f ∷ m) =
      let rest = pop_envelope m in
      if is_empty f
      then some ([], m)
      else elim rest [ none ↦ none | some (env, body) ↦ some (f ∷ env, body) ]

  -- A frame that is no delimiter.
  abbrev pub AllFilled : Message F → Type 0
  AllFilled [] = Unit {0}
  AllFilled (f ∷ m) = (0 < w.size f) × AllFilled m

  -- In a message that has a delimiter behind its envelope, the copy takes the envelope, the move
  -- takes it and leaves what follows the delimiter, and that is where the skipping loop stops.
  pub envelope_split :
      (env body : Message F)
      → AllFilled env
      → (env_copy (env ++ w.null_frame ∷ body) ≡ env)
        × (env_move (env ++ w.null_frame ∷ body) ≡ (env, body))
        × (skip_envelope (env ++ w.null_frame ∷ body) ≡ some body)
  unfolding env_copy env_move skip_envelope
  envelope_split [] body h = (
    ground (arith, w.size-null_frame),
    ground (arith, w.size-null_frame),
    ground (arith, w.size-null_frame),
  )
  envelope_split (f ∷ env) body h =
      let ih = envelope_split env body h.1 in
      (ground (arith, ih.0), ground (arith, ih.1), ground (arith, ih.2))

  pub env_copy-AllFilled : (m : Message F) → AllFilled (env_copy m)
  unfolding env_copy
  env_copy-AllFilled [] = tt
  env_copy-AllFilled (f ∷ m) = ground (arith, env_copy-AllFilled m)

  pub pop_envelope-append :
      (env body : Message F)
      → AllFilled env
      → pop_envelope (env ++ w.null_frame ∷ body) ≡ some (env, body)
  unfolding pop_envelope
  pop_envelope-append [] body h = ground (arith, w.size-null_frame)
  pop_envelope-append (f ∷ env) body h = rw (pop_envelope-append env body h.1) (ground (arith, h.0))
