-- ===== src/Broker/Dispatch.antt =====
-- Which handler of broker.cxx gets a message of the frontend.
use lhcluster.Common.{ℕ, ◌^◌, ◌<◌, ◌≡◌, refl, ap, ◌∙◌, false, ◌∷◌, ◌++◌, arith, nat_beq}
use lhcluster.Common.Int.{pos}
use lhcluster.Cluster.{
  ClusterMessage, client_new_request, client_heartbeat, message_number, message_of,
}
use lhcluster.Cluster.Order.{message_number-message_of}
use lhcluster.Wire.{Wire, Message}
use lhcluster.Wire.Envelope.{AllFilled}
use lhcluster.Broker.State.{Broker, Op, returned, pure, continue, ◌>>=◌}
use lhcluster.Broker.Client.{handle_client_request}
use lhcluster.Broker.Replies.{handle_client_heartbeat}
use lhcluster.Broker.Reactor.{handle_frontend_message, dispatch_frontend}
use lhcluster.Broker.Reading.{handle_frontend_message-dispatch}

module _ {F : Type 0} ⦃w : Wire F⦄ where
  ignored :
      (c : ClusterMessage) (m : Message F) (b : Broker F)
      → nat_beq (message_number c) 12 ≡ false
      → nat_beq (message_number c) 11 ≡ false
      → dispatch_frontend c m b ≡ (returned (pos 0), b)
  unfolding message_number dispatch_frontend pure
  ignored client_new_request m b new beat = ground (arith, new)
  ignored client_heartbeat m b new beat = ground (arith, beat)
  ignored _ m b new beat = refl

  -- A frontend message goes to the handler of its message type, without the frame of that type: a new
  -- request (12) to `handleClientRequest`, whose result is dropped, a heartbeat (11) to
  -- `handleClientHeartbeat`. A message of any other type changes nothing, and nothing is sent.
  pub handle_frontend_message-handled :
      (env body : Message F) (n : ℕ) (b : Broker F)
      → AllFilled env
      → n < 2 ^ 32
      → nat_beq n 12 ≡ false
      → nat_beq n 11 ≡ false
      → let m = env ++ w.null_frame ∷ body in
        (handle_frontend_message (env ++ w.null_frame ∷ w.put_u32 12 ∷ body) b
          ≡ continue
              (handle_client_request m b).0
              (λ _. pure (pos 0))
              (handle_client_request m b).1)
        × (handle_frontend_message (env ++ w.null_frame ∷ w.put_u32 11 ∷ body) b
            ≡ handle_client_heartbeat m b)
        × (handle_frontend_message (env ++ w.null_frame ∷ w.put_u32 n ∷ body) b
            ≡ (returned (pos 0), b))
  unfolding dispatch_frontend message_of ◌>>=◌
  handle_frontend_message-handled env body n b filled small new beat =
      let reads = λ (k : ℕ) (h : k < 2 ^ 32).
        ap (λ (op : Op F _). op b) (handle_frontend_message-dispatch env k body filled h) in
      let named = message_number-message_of n in
      (
        reads 12 (omega arith),
        reads 11 (omega arith),
        reads n small
            ∙ ignored (message_of n) (env ++ w.null_frame ∷ body) b (rw named new) (rw named beat),
      )
