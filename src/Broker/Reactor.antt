-- ===== src/Broker/Reactor.antt =====
-- The dispatch of messages and the callbacks of the reactor in broker.cxx. A callback that returns
-- -1 ends the reactor's loop, and with it the broker.
use lhcluster.Common.{Option, some, none, List, [], ◌∷◌, ◌++◌, if◌then◌else◌}
use lhcluster.Common.Int.{ℤ, pos, negsuc, is_neg}
use lhcluster.Cluster.{
  ClusterMessage, message_of, worker_heartbeat, worker_ready, worker_finished, worker_receipt,
  client_heartbeat, client_new_request,
}
use lhcluster.Wire.{Wire, Message}
use lhcluster.Wire.Envelope.{is_empty}
use lhcluster.Broker.State.{Op, returned, thrown, undefined, pure, value, ◌>>=◌, ◌>>◌, modify}
use lhcluster.Broker.Replies.{handle_client_heartbeat}
use lhcluster.Broker.Client.{handle_client_request}
use lhcluster.Broker.Worker.{
  handle_worker_ready, handle_worker_heartbeat, handle_worker_finished, handle_worker_receipt,
}
use lhcluster.Broker.Death.{check_workers_pulse, send_worker_heartbeats}

module _ {F : Type 0} ⦃w : Wire F⦄ where
  -- The frames up to the delimiter, with it, and the frames behind it.
  unfoldable pub split_delimiter : Message F → Option (Message F × Message F)
  split_delimiter [] = none
  split_delimiter (f ∷ m) =
      let rest = split_delimiter m in
      if is_empty f
      then some (f ∷ [], m)
      else elim rest [ none ↦ none | some (env, body) ↦ some (f ∷ env, body) ]

  unfoldable pub dispatch_frontend : ClusterMessage → Message F → Op F ℤ
  unfolding handle_client_request handle_client_heartbeat pure ◌>>=◌
  dispatch_frontend client_new_request m = do handle_client_request m; pure (pos 0)
  dispatch_frontend client_heartbeat m = handle_client_heartbeat m
  dispatch_frontend _ m = pure (pos 0)

  -- the part of `handleFrontendMessage` behind the envelope: the message type is taken out
  unfoldable pub read_frontend : Message F → Message F → Op F ℤ
  unfolding dispatch_frontend value pure ◌>>=◌ message_of
  read_frontend env [] = pure (pos 0)
  read_frontend env (f ∷ body) =
      if is_empty f
      then pure (pos 0)
      else (do n ← value (w.get_u32 f); dispatch_frontend (message_of n) (env ++ body))

  unfoldable pub handle_frontend_message : Message F → Op F ℤ
  unfolding split_delimiter read_frontend pure
  handle_frontend_message m = elim (split_delimiter m) [
    | none ↦ pure (pos 0)
    | some (env, body) ↦ read_frontend env body
  ]

  unfoldable pub dispatch_backend : ClusterMessage → F → Message F → Op F ℤ
  unfolding handle_worker_receipt handle_worker_heartbeat handle_worker_ready handle_worker_finished
      pure
  dispatch_backend worker_receipt identity m = handle_worker_receipt identity m
  dispatch_backend worker_heartbeat identity m = handle_worker_heartbeat identity m
  dispatch_backend worker_ready identity m = handle_worker_ready identity m
  dispatch_backend worker_finished identity m = handle_worker_finished identity m
  dispatch_backend _ identity m = pure (pos 0)

  -- identity, delimiter, message type, and the rest; a message of another form is dropped
  unfoldable pub handle_backend_message : Message F → Op F ℤ
  unfolding dispatch_backend value pure ◌>>=◌ message_of
  handle_backend_message (identity ∷ delimiter ∷ type ∷ m) =
      if is_empty identity
      then pure (pos 0)
      else if is_empty delimiter
      then (if is_empty type
          then pure (pos 0)
          else (do n ← value (w.get_u32 type); dispatch_backend (message_of n) identity m))
      else pure (pos 0)
  handle_backend_message _ = pure (pos 0)

  -- `updateCurrentTime`, with what `std::time` returns
  unfoldable pub update_current_time : ℤ → Op F (Unit {0})
  unfolding modify
  update_current_time now = modify (λ b. record b { current_time = now })

  -- `handleFrontendMessage()` and `handleBackendMessage()`: the message that `Receive` returned, or
  -- null; of a handler's result only a negative one counts
  unfoldable pub receive : (Message F → Op F ℤ) → ℤ → Option (Message F) → Op F ℤ
  unfolding update_current_time pure ◌>>=◌
  receive handle now none = do update_current_time now; pure (pos 0)
  receive handle now (some m) = do
    update_current_time now
    ret ← handle m
    pure (if is_neg ret then ret else pos 0)

  -- `catch ( ... ) { return -1; }`
  unfoldable pub caught : Op F ℤ → Op F ℤ
  caught m b = elim (m b).0 [
    | returned ret ↦ (returned ret, (m b).1)
    | thrown ↦ (returned (negsuc 0), (m b).1)
    | undefined e ↦ (undefined e, (m b).1)
  ]

-- What wakes the broker: a message on a socket, or one of its two timers, at a time.
pub data Event (F : Type 0) : Type 0 where
  frontend_message backend_message : ℤ → Option (Message F) → Event F
  heartbeat_timer pulse_timer : ℤ → Event F

module _ {F : Type 0} ⦃w : Wire F⦄ where
  -- the callback that the reactor calls for an event
  unfoldable pub reactor : Event F → Op F ℤ
  unfolding caught receive update_current_time ◌>>=◌ handle_frontend_message handle_backend_message
      send_worker_heartbeats check_workers_pulse
  reactor (frontend_message now m) = caught (receive handle_frontend_message now m)
  reactor (backend_message now m) = caught (receive handle_backend_message now m)
  reactor (heartbeat_timer now) = caught (do update_current_time now; send_worker_heartbeats)
  reactor (pulse_timer now) = caught (do update_current_time now; check_workers_pulse)

  -- `zloop_start`: one callback after the other, until one returns a negative number
  unfoldable pub run : List (Event F) → Op F ℤ
  unfolding reactor pure ◌>>=◌
  run [] = pure (pos 0)
  run (e ∷ es) = do ret ← reactor e; if is_neg ret then pure ret else run es
