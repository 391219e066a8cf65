-- ===== src/Proxy/Lasting.antt =====
-- A buffered request over the whole life of the client proxy of liblhcluster/src/clientproxy.cxx.
use lhcluster.Common.{
  ◌≡◌, refl, true, false, Option, some, none, List, [], ◌∷◌, arith, map, ap, sym, ◌∙◌, nat_eq,
  pair_eq,
}
use lhcluster.Common.Int.{ℤ, pos, is_neg}
use lhcluster.Common.Assoc
use lhcluster.Wire.{Wire, Message}
use lhcluster.Action.{continue, gets, modify, pure, ◌>>=◌, network_send}
use lhcluster.Action.Keeps.{Keeps, Keeps-pure, Keeps-bind, Keeps-if, Keeps-caught}
use lhcluster.Proxy.Buffer.{Buffer, BufferKey}
use lhcluster.Proxy.State.{ClientProxy, send}
use lhcluster.Proxy.Handlers.{
  handle_client_message, receive_from_client, receive_from_broker, send_broker_heartbeat,
  check_broker_pulse,
}
use lhcluster.Proxy.Reactor.{
  receive_command, Event, client_message, broker_message, heartbeat_timer, pulse_timer, controller,
  reactor, run, Round, send_buffered, start_round, start_as_primary,
}
use lhcluster.Proxy.Kept.{fresh-IsAway, message-Same}
use lhcluster.Proxy.Life.{message_in, IsBuffered, send-Keeps, proxy_keeping, refreshed-Keeps}

module _ {F : Type 0} ⦃w : Wire F⦄ {k : BufferKey} {m : Message F} where
  receive_from_client-Keeps :
      (now : ℤ) (n : Option (Message F)) → Keeps (IsBuffered k m) (receive_from_client now n)
  unfolding receive_from_client handle_client_message
  receive_from_client-Keeps now none = search proxy_keeping depth 6
  receive_from_client-Keeps now (some n) = search proxy_keeping depth 12

  receive_from_broker-Keeps :
      (now : ℤ) (n : Option (Message F)) → Keeps (IsBuffered k m) (receive_from_broker now n)
  unfolding receive_from_broker
  receive_from_broker-Keeps now none = search proxy_keeping depth 6
  receive_from_broker-Keeps now (some n) = record {
    at = λ s h.
        let same = message-Same n s (fresh-IsAway s h.fresh) now in
        record {
          fresh = record {
            below = λ i u e.
                let here = h.fresh.below i u (ap (Assoc.lookup i) (sym same.buffer) ∙ e) in
                omega (arith, here, same.next);
          };
          there = ap (λ b. message_in (Assoc.lookup k b)) same.buffer ∙ h.there;
        };
  }

  send_broker_heartbeat-Keeps : (now : ℤ) → Keeps (IsBuffered k m) (send_broker_heartbeat now)
  unfolding send_broker_heartbeat
  send_broker_heartbeat-Keeps now = search proxy_keeping depth 14

  check_broker_pulse-Keeps : (now : ℤ) → Keeps (IsBuffered k m) (check_broker_pulse now)
  unfolding check_broker_pulse
  check_broker_pulse-Keeps now = search proxy_keeping depth 10

  receive_command-Keeps : (n : Option (Message F)) → Keeps (IsBuffered k m) (receive_command n)
  unfolding receive_command
  receive_command-Keeps none = search proxy_keeping depth 2
  receive_command-Keeps (some []) = search proxy_keeping depth 2
  receive_command-Keeps (some (f ∷ n)) = search proxy_keeping depth 10

  reactor-Keeps : (e : Event F) → Keeps (IsBuffered k m) (reactor e)
  unfolding reactor
  reactor-Keeps (client_message now n) = Keeps-caught _ (receive_from_client-Keeps now n)
  reactor-Keeps (broker_message now n) = Keeps-caught _ (receive_from_broker-Keeps now n)
  reactor-Keeps (heartbeat_timer now) = send_broker_heartbeat-Keeps now
  reactor-Keeps (pulse_timer now) = check_broker_pulse-Keeps now
  reactor-Keeps (controller n) = Keeps-caught _ (receive_command-Keeps n)

  run-Keeps : (es : List (Event F)) → Keeps (IsBuffered k m) (run es)
  unfolding run
  run-Keeps [] = Keeps-pure (pos 0)
  run-Keeps (e ∷ es) =
      Keeps-bind _ _ (reactor-Keeps e)
        (λ ret. Keeps-if (is_neg ret) _ _ (Keeps-pure ret) (run-Keeps es))

  send_buffered-Keeps : (b : Buffer F) → Keeps (IsBuffered k m) (send_buffered b)
  unfolding send_buffered
  send_buffered-Keeps [] = Keeps-pure tt
  send_buffered-Keeps ((j, v) ∷ b) = Keeps-bind _ _ (send-Keeps _ _) (λ _. send_buffered-Keeps b)

  start_round-Keeps : (r : Round F) → Keeps (IsBuffered k m) (start_round r)
  unfolding start_round
  start_round-Keeps r =
      search (proxy_keeping, send_buffered-Keeps, refreshed-Keeps, run-Keeps) depth 16

  start_as_primary-Keeps : (rs : List (Round F)) → Keeps (IsBuffered k m) (start_as_primary rs)
  unfolding start_as_primary
  start_as_primary-Keeps [] = Keeps-pure true
  start_as_primary-Keeps (r ∷ rs) =
      Keeps-bind _ _ (start_round-Keeps r)
        (λ more. Keeps-if more _ _ (start_as_primary-Keeps rs) (Keeps-pure false))

module _ {F : Type 0} ⦃w : Wire F⦄ where
  -- A request that is buffered stays buffered for good: whatever receipts and responses come from the
  -- broker, and over however many restarts, its entry is never erased.
  pub start_as_primary-IsBuffered :
      (k : BufferKey) (m : Message F) (s : ClientProxy F) (rounds : List (Round F))
      → IsBuffered k m s
      → IsBuffered k m (start_as_primary rounds s).1
  start_as_primary-IsBuffered k m s rounds h = (start_as_primary-Keeps rounds).at s h

  -- The messages of the entries, in the order in which the buffer is gone through, in front of the calls.
  abbrev pub resent : Buffer F → List (Message F) → List (Message F)
  resent [] ms = ms
  resent ((k, v) ∷ b) ms = resent b (v.message ∷ ms)

  -- At the start of a round each buffered request is sent to the broker once, whether the sends succeed
  -- or not.
  pub send_buffered-resent :
      (b : Buffer F) (s : ClientProxy F)
      → map (λ c. c.message) (send_buffered b s).1.network.calls
        ≡ resent b (map (λ c. c.message) s.network.calls)
  unfolding send_buffered send ◌>>=◌ gets modify continue pure network_send
  send_buffered-resent [] s = refl
  send_buffered-resent ((k, v) ∷ b) s = send_buffered-resent b _
