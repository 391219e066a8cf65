-- ===== src/Action.antt =====
-- The actions of the actors that own a socket or two: the worker, the client proxy and the request
-- processor. An action passes the actor's state on, and returns, or throws where
-- `ZMQFrameHandler::get_frame_value` (liblhcluster/src/zmqframehandler.cxx) does.
pub mod Keeps
pub mod Yields
use lhcluster.Common.{◌≡◌, refl, ap, ℕ, Option, some, none, List, [], ◌∷◌, length}
use lhcluster.Common.Int.{ℤ, pos, negsuc}
use lhcluster.Wire.{Message}
use lhcluster.Broker.Parse.{Parsed, parsed, malformed, unparsable}

pub data Result (A : Type 0) : Type 0 where
  returned : A → Result A
  thrown : Result A

abbrev pub Act : Type 0 → Type 0 → Type 0
Act S A = S → Result A × S

module _ {S A : Type 0} where
  unfoldable pub pure : A → Act S A
  pure a s = (returned a, s)

  unfoldable pub throw : Act S A
  throw s = (thrown, s)

  unfoldable pub gets : (S → A) → Act S A
  gets f s = (returned (f s), s)

  -- `get_frame_value`, which throws where the frame does not parse
  unfoldable pub value : Option A → Act S A
  value none s = (thrown, s)
  value (some a) s = (returned a, s)

module _ {S : Type 0} where
  unfoldable pub modify : (S → S) → Act S (Unit {0})
  modify f s = (returned tt, f s)

module _ {S A B : Type 0} where
  unfoldable pub continue : Result A → (A → Act S B) → Act S B
  continue (returned a) f s = f a s
  continue thrown f s = (thrown, s)

  infixl 5 ◌>>=◌ ◌>>◌
  unfoldable pub ◌>>=◌ : Act S A → (A → Act S B) → Act S B
  unfolding continue
  ◌>>=◌ m f s = continue (m s).0 f (m s).1

  abbrev pub ◌>>◌ : Act S A → Act S B → Act S B
  m >> k = m >>= λ _. k

module _ {S A : Type 0} where
  -- A message that lacks a frame ends the handler with its return code.
  unfoldable pub with_fields : Parsed A → (A → Act S ℤ) → Act S ℤ
  unfolding pure throw
  with_fields (parsed a) k = k a
  with_fields (malformed code) k = pure (pos code)
  with_fields unparsable k = throw

module _ {S : Type 0} where
  -- `catch ( ... ) { return -1; }`
  unfoldable pub caught : Act S ℤ → Act S ℤ
  caught m s = elim (m s).0 [
    | returned ret ↦ (returned ret, (m s).1)
    | thrown ↦ (returned (negsuc 0), (m s).1)
  ]

-- A call of `senderReceiver->Send` on a socket, and what it returned.
pub record Call (K F : Type 0) : Type 0 where
  pub socket : K
  pub message : Message F
  pub result : ℤ

-- What an actor sends through.
pub record Network (K F : Type 0) : Type 0 where
  -- what the n-th call of `Send` will return: the network's choice
  pub answers : ℕ → ℤ
  -- the calls so far, the last one first
  pub calls : List (Call K F)

module _ {K F : Type 0} where
  -- What the next call of `Send` will return.
  unfoldable pub next_answer : Network K F → ℤ
  next_answer n = n.answers (length n.calls)

  unfoldable pub network_send : K → Message F → Network K F → Network K F
  unfolding next_answer
  network_send socket m n = record n {
    calls = record { socket = socket; message = m; result = next_answer n } ∷ n.calls;
  }

module _ {K F : Type 0} where
  -- `senderReceiver->Send`, for an actor that only sends
  unfoldable pub transmit : K → Message F → Act (Network K F) ℤ
  unfolding gets modify network_send next_answer pure ◌>>=◌
  transmit socket m = do ret ← gets next_answer; modify (network_send socket m); pure ret

-- The message of the last call of `Send`.
abbrev pub last_message : {K F : Type 0} → Network K F → Option (Message F)
last_message n = elim n.calls [ [] ↦ none | c ∷ cs ↦ some c.message ]

pub caught-returned :
    {S : Type 0} (m : Act S ℤ) (s t : S) (ret : ℤ)
    → m s ≡ (returned ret, t)
    → caught m s ≡ (returned ret, t)
unfolding caught
caught-returned m s t ret e = rw (caught, e, ap (λ p. p.1) e) refl
