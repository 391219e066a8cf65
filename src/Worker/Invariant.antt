-- ===== src/Worker/Invariant.antt =====
-- The invariant of the worker of liblhcluster/src/worker.cxx over its whole life: every callback, every
-- run of the reactor, every restart.
use lhcluster.Common.{ℕ, refl, false, Option, some, none, List, [], ◌∷◌, contains}
use lhcluster.Common.Int.{ℤ, pos, is_neg}
use lhcluster.Cluster.{ClusterMessage, broker_new_request, broker_heartbeat, broker_shutting_down}
use lhcluster.Wire.{Wire, Message}
use lhcluster.Action.Keeps.{
  Keeps, Keeps-modify, Keeps-bind, Keeps-with_fields, Keeps-caught, Keeps-pure, Keeps-if,
}
use lhcluster.Worker.State.{Socket, new_worker}
use lhcluster.Action.{Network}
use lhcluster.Worker.Parse.{parse_broker_message, parse_broker_heartbeat}
use lhcluster.Worker.Messages.{
  send_broker_ready_message, send_broker_heartbeat, handle_broker_heartbeat, check_broker_pulse,
}
use lhcluster.Worker.Reactor.{
  dispatch_broker, handle_broker_message, receive_from_broker, receive_from_processor, Event,
  broker_message, processor_message, heartbeat_timer, pulse_timer, controller, reactor, run, Round,
  start_round, start_as_primary,
}
use lhcluster.Worker.Tracking.{Tracks-initial}
use lhcluster.Worker.Handlers.{
  IsTracking, worker_keeping, update_current_time-Keeps, handle_broker_new_request-Keeps,
}

module _ {F : Type 0} ⦃w : Wire F⦄ where
  handle_broker_heartbeat-Keeps : (m : Message F) → Keeps IsTracking (handle_broker_heartbeat m)
  unfolding handle_broker_heartbeat
  handle_broker_heartbeat-Keeps m = Keeps-with_fields (parse_broker_heartbeat m) _ λ delay.
      Keeps-bind _ _ (Keeps-modify _ (λ s h. record { same = h.same })) (λ _. Keeps-pure (pos 0))

  dispatch_broker-Keeps :
      (c : ClusterMessage) (m : Message F) → Keeps IsTracking (dispatch_broker c m)
  unfolding dispatch_broker
  dispatch_broker-Keeps broker_new_request m = handle_broker_new_request-Keeps m
  dispatch_broker-Keeps broker_heartbeat m = handle_broker_heartbeat-Keeps m
  dispatch_broker-Keeps broker_shutting_down m = search worker_keeping depth 4
  dispatch_broker-Keeps _ m = Keeps-pure (pos 3)

  handle_broker_message-Keeps : (m : Message F) → Keeps IsTracking (handle_broker_message m)
  unfolding handle_broker_message
  handle_broker_message-Keeps m =
      Keeps-with_fields (parse_broker_message m) _ (λ b. dispatch_broker-Keeps b.0 b.1)

  receive_from_broker-Keeps :
      (now : ℤ) (m : Option (Message F)) → Keeps IsTracking (receive_from_broker now m)
  unfolding receive_from_broker
  receive_from_broker-Keeps now none = search worker_keeping depth 6
  receive_from_broker-Keeps now (some m) =
      search (worker_keeping, handle_broker_message-Keeps) depth 8

  receive_from_processor-Keeps :
      (now : ℤ) (m : Option (Message F)) → Keeps IsTracking (receive_from_processor now m)
  unfolding receive_from_processor
  receive_from_processor-Keeps now none = search worker_keeping depth 6
  receive_from_processor-Keeps now (some m) = search worker_keeping depth 8

  send_broker_heartbeat-Keeps : Keeps IsTracking (send_broker_heartbeat {F = F})
  unfolding send_broker_heartbeat
  send_broker_heartbeat-Keeps = search worker_keeping depth 12

  check_broker_pulse-Keeps : Keeps IsTracking (check_broker_pulse {F = F})
  unfolding check_broker_pulse
  check_broker_pulse-Keeps = search worker_keeping depth 8

  send_broker_ready_message-Keeps : Keeps IsTracking (send_broker_ready_message {F = F})
  unfolding send_broker_ready_message
  send_broker_ready_message-Keeps = search worker_keeping depth 10

  reactor-Keeps : (e : Event F) → Keeps IsTracking (reactor e)
  unfolding reactor
  reactor-Keeps (broker_message now m) = Keeps-caught _ (receive_from_broker-Keeps now m)
  reactor-Keeps (processor_message now m) = Keeps-caught _ (receive_from_processor-Keeps now m)
  reactor-Keeps (heartbeat_timer now) =
      Keeps-caught _
        (Keeps-bind _ _ (update_current_time-Keeps now) (λ _. send_broker_heartbeat-Keeps))
  reactor-Keeps (pulse_timer now) =
      Keeps-caught _
        (Keeps-bind _ _ (update_current_time-Keeps now) (λ _. check_broker_pulse-Keeps))
  reactor-Keeps controller = search worker_keeping depth 4

  pub run-Keeps : (es : List (Event F)) → Keeps IsTracking (run es)
  unfolding run
  run-Keeps [] = Keeps-pure (pos 0)
  run-Keeps (e ∷ es) =
      Keeps-bind _ _ (reactor-Keeps e)
        (λ ret. Keeps-if (is_neg ret) _ _ (Keeps-pure ret) (run-Keeps es))

  start_round-Keeps : (r : Round F) → Keeps IsTracking (start_round r)
  unfolding start_round
  start_round-Keeps r = search (worker_keeping, send_broker_ready_message-Keeps, run-Keeps) depth 14

  start_as_primary-Keeps : (rs : List (Round F)) → Keeps IsTracking (start_as_primary rs)
  unfolding start_as_primary
  start_as_primary-Keeps [] = search worker_keeping depth 2
  start_as_primary-Keeps (r ∷ rs) =
      Keeps-bind _ _ (start_round-Keeps r)
        (λ more. Keeps-if more _ _ (start_as_primary-Keeps rs) (Keeps-pure false))

  -- Whatever the broker and the processor send, in whatever order, over however many restarts, the
  -- worker has a context for a request exactly when the request's id is in the set of ids in progress of
  -- its type.
  pub start_as_primary-IsTracking :
      (supported : List ℕ) (self_delay broker_delay now : ℤ) (network : Network Socket F)
      (rounds : List (Round F))
      → IsTracking
          (start_as_primary rounds (new_worker supported self_delay broker_delay now network)).1
  unfolding new_worker contains
  start_as_primary-IsTracking supported self_delay broker_delay now network rounds =
      (start_as_primary-Keeps rounds).at _ (record {
        same = (Tracks-initial {F = F} supported [] (record { same = λ t id. refl })).same;
      })
