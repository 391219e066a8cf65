-- ===== src/Worker/Reactor.antt =====
-- The callbacks of the worker's reactor, the dispatch of the broker's messages, and the loop that
-- starts the reactor again: liblhcluster/src/worker.cxx.
use lhcluster.Common.{
  ℕ, ◌+◌, Bool, true, false, Option, some, none, List, [], ◌∷◌, nat_beq, if◌then◌else◌,
}
use lhcluster.Common.Int.{ℤ, pos, negsuc, is_neg, is_zero}
use lhcluster.Cluster.{ClusterMessage, broker_new_request, broker_heartbeat, broker_shutting_down}
use lhcluster.Wire.{Wire, Message}
use lhcluster.Action.{Act, pure, gets, with_fields, caught, ◌>>=◌, ◌>>◌}
use lhcluster.Worker.Parse.{parse_broker_message}
use lhcluster.Worker.State.{
  Worker, WorkerExitState, no_exit, graceful_stop, broker_died, start_failed, set_exit_state,
  update_current_time, update_broker_last_active,
}
use lhcluster.Worker.Requests.{handle_broker_new_request, handle_processor_message}
use lhcluster.Worker.Messages.{
  send_broker_ready_message, send_broker_heartbeat, handle_broker_heartbeat, check_broker_pulse,
}

module _ {F : Type 0} ⦃w : Wire F⦄ where
  unfoldable pub dispatch_broker : ClusterMessage → Message F → Act (Worker F) ℤ
  unfolding handle_broker_new_request handle_broker_heartbeat set_exit_state pure ◌>>=◌
  dispatch_broker broker_new_request m = handle_broker_new_request m
  dispatch_broker broker_heartbeat m = handle_broker_heartbeat m
  dispatch_broker broker_shutting_down m = do set_exit_state graceful_stop; pure (negsuc 0)
  dispatch_broker _ m = pure (pos 3)

  -- `handleBrokerMessage( msg )`
  unfoldable pub handle_broker_message : Message F → Act (Worker F) ℤ
  unfolding with_fields parse_broker_message dispatch_broker
  handle_broker_message m = with_fields (parse_broker_message m) λ b. dispatch_broker b.0 b.1

  -- `handleBrokerMessage()`: the message that `Receive` returned, or null
  unfoldable pub receive_from_broker : ℤ → Option (Message F) → Act (Worker F) ℤ
  unfolding update_current_time handle_broker_message update_broker_last_active pure ◌>>=◌
  receive_from_broker now none = do update_current_time now; pure (pos 0)
  receive_from_broker now (some m) = do
    update_current_time now
    ret ← handle_broker_message m
    update_broker_last_active
    pure (if is_neg ret then ret else pos 0)

  -- `handleProcessorMessage()`
  unfoldable pub receive_from_processor : ℤ → Option (Message F) → Act (Worker F) ℤ
  unfolding update_current_time handle_processor_message pure ◌>>=◌
  receive_from_processor now none = do update_current_time now; pure (pos 0)
  receive_from_processor now (some m) = do
    update_current_time now
    ret ← handle_processor_message m
    pure (if is_neg ret then ret else pos 0)

-- What wakes the worker: a message on a socket, one of its two timers, or a signal to stop.
pub data Event (F : Type 0) : Type 0 where
  broker_message processor_message : ℤ → Option (Message F) → Event F
  heartbeat_timer pulse_timer : ℤ → Event F
  controller : Event F

module _ {F : Type 0} ⦃w : Wire F⦄ where
  -- the callback that the reactor calls for an event
  unfoldable pub reactor : Event F → Act (Worker F) ℤ
  unfolding caught receive_from_broker receive_from_processor update_current_time set_exit_state
      send_broker_heartbeat check_broker_pulse pure ◌>>=◌
  reactor (broker_message now m) = caught (receive_from_broker now m)
  reactor (processor_message now m) = caught (receive_from_processor now m)
  reactor (heartbeat_timer now) = caught (do update_current_time now; send_broker_heartbeat)
  reactor (pulse_timer now) = caught (do update_current_time now; check_broker_pulse)
  reactor controller = do set_exit_state graceful_stop; pure (negsuc 0)

  -- `zloop_start`: one callback after the other, until one returns a negative number
  unfoldable pub run : List (Event F) → Act (Worker F) ℤ
  unfolding reactor pure ◌>>=◌
  run [] = pure (pos 0)
  run (e ∷ es) = do ret ← reactor e; if is_neg ret then pure ret else run es

-- What one round of `StartAsPrimary` meets: the clock, how many of the calls that set the sockets and
-- callbacks up fail, and what wakes the reactor.
pub record Round (F : Type 0) : Type 0 where
  pub starts_at : ℤ
  pub setup_failures : ℕ
  pub ready_at : ℤ
  pub events : List (Event F)
  pub ends_at : ℤ

-- `exitState` for which the loop goes on
abbrev pub restarts : WorkerExitState → Bool
restarts broker_died = true
restarts start_failed = true
restarts _ = false

module _ {F : Type 0} ⦃w : Wire F⦄ where
  -- one round of the loop; whether there is a next one
  unfoldable pub start_round : Round F → Act (Worker F) Bool
  unfolding set_exit_state update_current_time send_broker_ready_message run gets pure ◌>>=◌
  start_round r = do
    set_exit_state no_exit
    update_current_time r.starts_at
    update_current_time r.ready_at
    ret ← send_broker_ready_message
    if nat_beq (r.setup_failures + (if is_zero ret then 0 else 1)) 0
        then (do run r.events; update_current_time r.ends_at)
        else set_exit_state start_failed
    gets (λ s. restarts s.exit_state)

  -- `StartAsPrimary`, as far as the rounds go: whether it is still to go on
  unfoldable pub start_as_primary : List (Round F) → Act (Worker F) Bool
  unfolding start_round pure ◌>>=◌
  start_as_primary [] = pure true
  start_as_primary (r ∷ rs) = do
    more ← start_round r
    if more then start_as_primary rs else pure false
