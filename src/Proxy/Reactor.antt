-- ===== src/Proxy/Reactor.antt =====
-- The callbacks of the client proxy's reactor and the loop that starts it again, with the requests
-- that are buffered: liblhcluster/src/clientproxy.cxx.
use lhcluster.Common.{
  ℕ, Bool, true, false, Option, some, none, List, [], ◌∷◌, nat_beq, if◌then◌else◌,
}
use lhcluster.Common.Int.{ℤ, pos, negsuc, is_neg}
use lhcluster.Wire.{Wire, Message}
use lhcluster.Wire.Envelope.{is_empty}
use lhcluster.Action.{Act, pure, gets, value, caught, ◌>>=◌, ◌>>◌}
use lhcluster.Proxy.Buffer.{Buffer}
use lhcluster.Proxy.State.{
  ClientProxy, ClientProxyExitState, broker_messaging, no_exit, graceful_stop, broker_died,
  start_failed, set_exit_state, update_current_time, send, on_buffer,
}
use lhcluster.Proxy.Handlers.{
  receive_from_client, receive_from_broker, send_broker_heartbeat, check_broker_pulse,
}

module _ {F : Type 0} ⦃w : Wire F⦄ where
  -- `clientPrimaryControllerReactor`: a command of the primary thread, 2 for `Stop`
  unfoldable pub receive_command : Option (Message F) → Act (ClientProxy F) ℤ
  unfolding set_exit_state value pure ◌>>=◌
  receive_command none = pure (pos 0)
  receive_command (some []) = pure (pos 0)
  receive_command (some (f ∷ m)) = if is_empty f then pure (pos 0) else (do
    command ← value (w.get_u32 f)
    if nat_beq command 2 then (do set_exit_state graceful_stop; pure (negsuc 0)) else pure (pos 0))

-- What wakes the proxy: a message on a socket, one of its two timers, or a command.
pub data Event (F : Type 0) : Type 0 where
  client_message broker_message : ℤ → Option (Message F) → Event F
  heartbeat_timer pulse_timer : ℤ → Event F
  controller : Option (Message F) → Event F

module _ {F : Type 0} ⦃w : Wire F⦄ where
  -- the callback that the reactor calls for an event
  unfoldable pub reactor : Event F → Act (ClientProxy F) ℤ
  unfolding caught receive_from_client receive_from_broker send_broker_heartbeat check_broker_pulse
      receive_command
  reactor (client_message now m) = caught (receive_from_client now m)
  reactor (broker_message now m) = caught (receive_from_broker now m)
  reactor (heartbeat_timer now) = send_broker_heartbeat now
  reactor (pulse_timer now) = check_broker_pulse now
  reactor (controller m) = caught (receive_command m)

  -- `zloop_start`: one callback after the other, until one returns a negative number
  unfoldable pub run : List (Event F) → Act (ClientProxy F) ℤ
  unfolding reactor pure ◌>>=◌
  run [] = pure (pos 0)
  run (e ∷ es) = do ret ← reactor e; if is_neg ret then pure ret else run es

-- What one round of `StartAsPrimary` meets: the clock, how many of the calls that set the sockets and
-- callbacks up fail, and what wakes the reactor.
pub record Round (F : Type 0) : Type 0 where
  pub starts_at : ℤ
  pub setup_failures : ℕ
  pub events : List (Event F)
  pub ends_at : ℤ

-- `exitState` for which the loop goes on
abbrev pub restarts : ClientProxyExitState → Bool
restarts broker_died = true
restarts start_failed = true
restarts _ = false

module _ {F : Type 0} where
  -- the entries after they have been sent: all their receipts are to come again
  unfoldable pub refreshed : Buffer F → Buffer F
  refreshed [] = []
  refreshed ((k, v) ∷ b) = (k, record v { current_flags = v.vfs.flags }) ∷ refreshed b

  -- each buffered request is sent; what `Send` returns is only logged
  unfoldable pub send_buffered : Buffer F → Act (ClientProxy F) (Unit {0})
  unfolding send pure ◌>>=◌
  send_buffered [] = pure tt
  send_buffered ((k, v) ∷ b) = do send broker_messaging v.message; send_buffered b

module _ {F : Type 0} ⦃w : Wire F⦄ where
  -- one round of the loop; whether there is a next one
  unfoldable pub start_round : Round F → Act (ClientProxy F) Bool
  unfolding set_exit_state update_current_time send_buffered refreshed on_buffer run gets pure ◌>>=◌
  start_round r = do
    set_exit_state no_exit
    update_current_time r.starts_at
    buffered ← gets (λ s. s.requests_buffer)
    send_buffered buffered
    on_buffer refreshed
    if nat_beq r.setup_failures 0 then (do run r.events; pure tt) else set_exit_state start_failed
    update_current_time r.ends_at
    gets (λ s. restarts s.exit_state)

  -- `StartAsPrimary`, as far as the rounds go: whether it is still to go on
  unfoldable pub start_as_primary : List (Round F) → Act (ClientProxy F) Bool
  unfolding start_round pure ◌>>=◌
  start_as_primary [] = pure true
  start_as_primary (r ∷ rs) = do
    more ← start_round r
    if more then start_as_primary rs else pure false
