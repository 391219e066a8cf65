-- ===== src/Worker/Messages.antt =====
-- The other messages of liblhcluster/src/worker.cxx: the ready message, the heartbeats of both sides,
-- the check of the broker's pulse; and SendHeartbeat of liblhcluster/src/utils.cxx.
use lhcluster.Common.{ℕ, ◌+◌, ◌-◌, ◌%◌, ◌^◌, List, [], ◌∷◌, map, length, if◌then◌else◌}
use lhcluster.Common.Int.{ℤ, pos, negsuc, is_zero}
use lhcluster.Cluster.{
  VersionFlags, default_version, message_number, worker_ready, worker_heartbeat,
}
use lhcluster.Wire.{Wire, Message}
use lhcluster.Action.{Act, pure, gets, modify, with_fields, ◌>>=◌, ◌>>◌}
use lhcluster.Worker.Parse.{parse_broker_heartbeat}
use lhcluster.Worker.State.{
  Worker, WorkerRequestTypeContext, messaging, broker_died, set_exit_state,
  update_worker_last_active, heartbeat_needed_as_of, is_broker_alive_as_of, send,
}

-- `LHCVersionFlags()`
abbrev pub default_flags : VersionFlags
default_flags = record { version = default_version; flags = 0 }

-- `freeCapacity -= size()` for each type, on an `unsigned int`
unfoldable pub free_capacity : ℕ → List (ℕ × WorkerRequestTypeContext) → ℕ
free_capacity c [] = c
free_capacity c ((_, types) ∷ m) =
    free_capacity ((c + 2 ^ 32 - length types.in_progress_requests % 2 ^ 32) % 2 ^ 32) m

module _ {F : Type 0} ⦃w : Wire F⦄ where
  -- the frames of a heartbeat
  unfoldable pub heartbeat_frames : ℕ → ℤ → ℤ → Message F
  heartbeat_frames header sent_as_of delay =
      w.null_frame ∷ w.put_u32 header ∷ w.put_time sent_as_of ∷ w.put_time delay ∷ []

  -- the frames of the ready message behind its header
  unfoldable pub ready_frames : ℕ → ℤ → List ℕ → Message F
  ready_frames free delay types =
      w.put_vfs default_flags ∷ w.put_u32 free ∷ w.put_time delay ∷ map w.put_u32 types

  unfoldable pub ready_message : Worker F → Message F
  unfolding message_number free_capacity ready_frames
  ready_message s =
      w.null_frame
      ∷ w.put_u32 (message_number worker_ready)
      ∷ ready_frames (free_capacity s.capacity s.request_type_contexts) s.self_heartbeat_delay
          s.supported_request_types

  unfoldable pub send_broker_ready_message : Act (Worker F) ℤ
  unfolding ready_message gets send update_worker_last_active pure ◌>>=◌
  send_broker_ready_message = do
    m ← gets ready_message
    ret ← send messaging m
    if is_zero ret then update_worker_last_active else pure tt
    pure ret

  -- A heartbeat that fails is no error.
  unfoldable pub send_broker_heartbeat : Act (Worker F) ℤ
  unfolding heartbeat_needed_as_of heartbeat_frames message_number gets send
      update_worker_last_active pure ◌>>=◌
  send_broker_heartbeat = do
    needed ← gets (λ s. heartbeat_needed_as_of s.current_time s)
    m ← gets (λ s.
        heartbeat_frames (message_number worker_heartbeat) s.current_time s.self_heartbeat_delay)
    if needed
        then (do
          ret ← send messaging m
          if is_zero ret then update_worker_last_active else pure tt
          pure (pos 0))
        else pure (pos 0)

  unfoldable pub handle_broker_heartbeat : Message F → Act (Worker F) ℤ
  unfolding with_fields parse_broker_heartbeat modify pure ◌>>=◌
  handle_broker_heartbeat m =
      with_fields (parse_broker_heartbeat m)
        λ delay. do modify (λ s. record s { broker_heartbeat_delay = delay }); pure (pos 0)

module _ {F : Type 0} where
  unfoldable pub check_broker_pulse : Act (Worker F) ℤ
  unfolding is_broker_alive_as_of gets set_exit_state pure ◌>>=◌
  check_broker_pulse = do
    alive ← gets (λ s. is_broker_alive_as_of s.current_time s)
    if alive then pure (pos 0) else (do set_exit_state broker_died; pure (negsuc 0))
