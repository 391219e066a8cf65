-- ===== src/Tests/Runs.antt =====
-- Runs of the broker of broker.cxx, at small brokers.
use lhcluster.Common.{some, ℕ, ◌≡◌, refl, true, false, [], ◌∷◌, arith, length, contains}
use lhcluster.Common.Int.{ℤ, pos}
use lhcluster.Common.Assoc
use lhcluster.Wire.Plain.{PlainFrame, plain_wire, plain_beq, peer}
use lhcluster.Broker.State.{Broker, returned}
use lhcluster.Broker.Reactor.{run}
use lhcluster.Safety.Rules.{EndsWell, types_of, has_context, is_available}
use lhcluster.Safety.Consistent.{IsConsistent, supports}
use lhcluster.Broker.Availability.{sweep_all}
use lhcluster.Broker.Death.{handle_worker_death}
use lhcluster.Broker.Room.{InTime}
use lhcluster.Broker.Rounds.{sweep_all-InTime}
use lhcluster.Safety.Pulse.{handle_worker_death-unavailable}
use lhcluster.Safety.Messages.{handle_worker_ready-registers}
use lhcluster.Broker.Worker.{handle_worker_ready}
use lhcluster.Broker.Parse.{parse_worker_ready}
use lhcluster.Wire.{Message}
use lhcluster.Wire.Plain.{plain_i32}
use lhcluster.Safety.Run.{run-EndsWell, run-IsConsistent}
use lhcluster.Tests.Data

empty-IsConsistent : (answers : ℕ → ℤ) → IsConsistent (Data.broker_with answers)
unfolding supports types_of has_context is_available Assoc.lookup
empty-IsConsistent answers = record {
  available = λ t v p. ground (arith, p);
  covered = λ t v p. ground (arith, p);
  distinct = tt;
}

run-EndsWell_example : EndsWell (run Data.events (Data.broker_with (Data.always (pos 0)))).0
run-EndsWell_example =
    run-EndsWell Data.events (Data.broker_with (Data.always (pos 0)))
      (empty-IsConsistent (Data.always (pos 0)))

events_returned : (run Data.events (Data.broker_with (Data.always (pos 0)))).0 ≡ returned (pos 0)
unfolding run plain_beq contains
events_returned = refl

run-IsConsistent_example : IsConsistent (run Data.events (Data.broker_with (Data.always (pos 0)))).1
run-IsConsistent_example =
    run-IsConsistent Data.events (Data.broker_with (Data.always (pos 0))) (pos 0)
      (empty-IsConsistent (Data.always (pos 0))) events_returned refl

-- The request went to the worker, a receipt to the client, and a heartbeat to the worker.
events_sent : length (run Data.events (Data.broker_with (Data.always (pos 0)))).1.sent ≡ 3
unfolding run plain_beq contains
events_sent = refl

abbrev serving : Broker PlainFrame
serving = Data.broker_of (Data.no_requests (peer 7 ∷ [])) (Data.always (pos 0))

serving-IsConsistent : IsConsistent serving
unfolding supports types_of has_context is_available Assoc.lookup contains plain_beq
serving-IsConsistent = record {
  available = λ t v p. ground (arith, p);
  covered = λ t v p. ground (arith, p);
  distinct = (refl, tt);
}

handle_worker_death-unavailable_example :
    ((t : ℕ) → is_available t (peer 7) (handle_worker_death (peer 7) serving).1 ≡ false)
    × ((v : PlainFrame) → types_of v (handle_worker_death (peer 7) serving).1 ≡ types_of v serving)
    × ((t : ℕ) → has_context t (handle_worker_death (peer 7) serving).1 ≡ has_context t serving)
unfolding handle_worker_death types_of Assoc.lookup contains plain_beq
handle_worker_death-unavailable_example =
    handle_worker_death-unavailable (peer 7) (3 ∷ []) (pos 0) serving refl serving-IsConsistent refl

sweep_all-InTime_example :
    InTime
      (sweep_all
        (peer 7)
        (3 ∷ [])
        (record { more = true; ret = pos 0; removed = false })
        (Data.broker_of Data.queue_of_one (Data.always (pos 0)))).0
unfolding Assoc.lookup plain_beq
sweep_all-InTime_example =
    sweep_all-InTime (peer 7) (3 ∷ []) (record { more = true; ret = pos 0; removed = false })
      (Data.broker_of Data.queue_of_one (Data.always (pos 0))) Data.worker refl (omega arith)
      (omega arith)

abbrev ready_frames : Message PlainFrame
ready_frames = (5 ∷ 0 ∷ 1 ∷ 0 ∷ []) ∷ plain_i32 (pos 1) ∷ plain_i32 (pos 5) ∷ (1 ∷ 3 ∷ []) ∷ []

abbrev joined : Broker PlainFrame
joined = (handle_worker_ready (peer 7) ready_frames (Data.broker_with (Data.always (pos 0)))).1

handle_worker_ready-registers_example :
    (types_of (peer 7) joined ≡ some (3 ∷ [])) × (has_context 3 joined ≡ true)
unfolding parse_worker_ready handle_worker_ready Assoc.lookup contains plain_beq
handle_worker_ready-registers_example =
    handle_worker_ready-registers (peer 7) ready_frames
      (record {
        ready_flags = Data.flags_of 0;
        free_capacity = pos 1;
        send_delay = pos 5;
        types = 3 ∷ [];
      })
      3 (pos 0) (Data.broker_with (Data.always (pos 0))) refl refl
      (empty-IsConsistent (Data.always (pos 0))) refl refl
