-- ===== src/Worker/Life.antt =====
-- The worker of liblhcluster/src/worker.cxx over time: its free capacity, heartbeats, and the rounds of
-- StartAsPrimary under a broker that is silent.
use lhcluster.Common.{ℕ, ◌+◌, ◌-◌, ◌%◌, ◌^◌, ◌<◌, ◌≤◌, ◌≡◌, ◌∙◌, List, [], ◌∷◌, length, arith}
use lhcluster.Common.Int.{ℤ, pos}
use lhcluster.Cluster.{message_number, message_of, broker_heartbeat}
use lhcluster.Wire.{Wire}
use lhcluster.Action.{returned, pure, modify, continue, ◌>>=◌, with_fields}
use lhcluster.Worker.Parse.{parse_broker_message, parse_broker_heartbeat, pop_delimiter}
use lhcluster.Worker.State.{Worker, WorkerRequestTypeContext}
use lhcluster.Worker.Messages.{free_capacity, heartbeat_frames, handle_broker_heartbeat}
use lhcluster.Worker.Reactor.{handle_broker_message, dispatch_broker}

-- The ids in progress, over all types.
abbrev pub in_progress_count : List (ℕ × WorkerRequestTypeContext) → ℕ
in_progress_count [] = 0
in_progress_count ((_, types) ∷ m) = length types.in_progress_requests + in_progress_count m

-- As long as no more requests are in progress than the capacity, the free capacity of the ready message
-- is what is left of it: the subtraction on 32 bits does not wrap.
pub free_capacity-in_progress_count :
    (c : ℕ) (m : List (ℕ × WorkerRequestTypeContext))
    → c < 2 ^ 32
    → in_progress_count m ≤ c
    → free_capacity c m ≡ c - in_progress_count m
unfolding free_capacity
free_capacity-in_progress_count c [] h k = omega arith
free_capacity-in_progress_count c ((t, types) ∷ m) h k =
    let n : ℕ = length types.in_progress_requests in
    let step : (c + 2 ^ 32 - n % 2 ^ 32) % 2 ^ 32 ≡ c - n = omega arith in
    rw step (free_capacity-in_progress_count (c - n) m (omega arith) (omega arith) ∙ omega arith)

module _ {F : Type 0} ⦃w : Wire F⦄ where
  -- A heartbeat of the broker, as `SendHeartbeat` writes it, is accepted, and sets the delay between the
  -- worker's heartbeats to 0, whatever delay the broker gave: the delay is written as a time and read
  -- as an `int`.
  pub handle_broker_message-heartbeat_frames :
      (sent_as_of delay : ℤ) (s : Worker F)
      → handle_broker_message
          (heartbeat_frames (message_number broker_heartbeat) sent_as_of delay)
          s
        ≡ (returned (pos 0), record s { broker_heartbeat_delay = pos 0 })
  unfolding handle_broker_message heartbeat_frames message_number dispatch_broker message_of
      handle_broker_heartbeat ◌>>=◌ modify continue pure with_fields parse_broker_message
      parse_broker_heartbeat pop_delimiter
  handle_broker_message-heartbeat_frames sent_as_of delay s = ground (
    arith,
    w.size-null_frame,
    w.size-put_u32 5,
    w.get_u32-put_u32 5 (omega arith),
    w.size-put_time sent_as_of,
    w.size-put_time delay,
    w.get_i32-put_time delay,
  )
