-- ===== src/Proxy/Handlers.antt =====
-- The handlers of liblhcluster/src/clientproxy.cxx: requests of the clients; receipts, responses and
-- heartbeats of the broker.
use lhcluster.Common.{ℕ, ◌+◌, Option, some, none, [], ◌∷◌, ◌++◌, if◌then◌else◌}
use lhcluster.Common.Int.{ℤ, pos, negsuc, is_neg}
use lhcluster.Cluster.{
  ClusterMessage, has_any, message_of, message_number, broker_sent_receipt, broker_received_receipt,
  broker_response, broker_heartbeat, client_heartbeat,
}
use lhcluster.Cluster.MessageFlag
use lhcluster.Wire.{Wire, Message}
use lhcluster.Wire.Envelope.{is_empty}
use lhcluster.Broker.Parse.{RequestKey}
use lhcluster.Broker.Reactor.{split_delimiter}
use lhcluster.Action.{Act, pure, gets, modify, value, with_fields, ◌>>=◌, ◌>>◌}
use lhcluster.Worker.Messages.{heartbeat_frames}
use lhcluster.Proxy.Buffer.{add_request, erase_if_last_receipt, erase_request}
use lhcluster.Proxy.Parse.{
  parse_proxy_request, parse_receipt, parse_proxy_response, parse_proxy_heartbeat,
}
use lhcluster.Proxy.State.{
  ClientProxy, client_messaging, broker_messaging, broker_died, set_exit_state, update_current_time,
  update_client_last_active, update_broker_last_active, heartbeat_needed_as_of,
  is_broker_alive_as_of, send, allocate, on_buffer,
}

module _ {F : Type 0} where
  -- `handleClientRequest` behind the frames that it reads: a copy is kept if receipts are asked for
  unfoldable pub forward_request : RequestKey → Message F → Act (ClientProxy F) ℤ
  unfolding has_any add_request allocate on_buffer send pure ◌>>=◌
  forward_request k m = do
    if has_any k.vfs (MessageFlag.receipt_on_receive + MessageFlag.receipt_on_send)
        then (do
          address ← allocate
          on_buffer (add_request k.request_type k.request_id address k.vfs m))
        else pure tt
    send broker_messaging m

module _ {F : Type 0} ⦃w : Wire F⦄ where
  -- `handleClientMessage( msg )`
  unfoldable pub handle_client_message : Message F → Act (ClientProxy F) ℤ
  unfolding with_fields parse_proxy_request forward_request pure ◌>>=◌
  handle_client_message m =
      with_fields (parse_proxy_request m)
        λ k. do ret ← forward_request k m; pure (if is_neg ret then ret else pos 0)

  -- `handleClientMessage()`
  unfoldable pub receive_from_client : ℤ → Option (Message F) → Act (ClientProxy F) ℤ
  unfolding update_current_time allocate handle_client_message pure ◌>>=◌
  receive_from_client now none = do update_current_time now; pure (pos 0)
  receive_from_client now (some m) = do update_current_time now; allocate; handle_client_message m

  -- with the address of the message's first frame
  unfoldable pub handle_broker_receipt : ClusterMessage → ℕ → Message F → Act (ClientProxy F) ℤ
  unfolding with_fields parse_receipt erase_if_last_receipt on_buffer pure ◌>>=◌
  handle_broker_receipt receipt identity m =
      with_fields (parse_receipt m)
        λ r. do on_buffer (erase_if_last_receipt receipt r.0 r.1 identity); pure (pos 0)

  unfoldable pub handle_broker_response : ℕ → Message F → Act (ClientProxy F) ℤ
  unfolding with_fields parse_proxy_response erase_request on_buffer send pure ◌>>=◌
  handle_broker_response identity m = with_fields (parse_proxy_response m) λ k. do
    on_buffer (erase_request k.request_type k.request_id identity)
    send client_messaging m

  unfoldable pub handle_broker_heartbeat : Message F → Act (ClientProxy F) ℤ
  unfolding with_fields parse_proxy_heartbeat modify pure ◌>>=◌
  handle_broker_heartbeat m =
      with_fields (parse_proxy_heartbeat m)
        λ delay. do modify (λ s. record s { broker_heartbeat_delay = delay }); pure (pos 0)

  unfoldable pub dispatch_broker : ClusterMessage → ℕ → Message F → Act (ClientProxy F) ℤ
  unfolding handle_broker_receipt handle_broker_response handle_broker_heartbeat pure
  dispatch_broker broker_sent_receipt identity m =
      handle_broker_receipt broker_sent_receipt identity m
  dispatch_broker broker_received_receipt identity m =
      handle_broker_receipt broker_received_receipt identity m
  dispatch_broker broker_response identity m = handle_broker_response identity m
  dispatch_broker broker_heartbeat identity m = handle_broker_heartbeat m
  dispatch_broker _ identity m = pure (pos 0)

  -- behind the delimiter: the message type is taken out of the message
  unfoldable pub read_broker : ℕ → Message F → Message F → Act (ClientProxy F) ℤ
  unfolding dispatch_broker value pure ◌>>=◌ message_of
  read_broker identity env [] = pure (pos 0)
  read_broker identity env (f ∷ body) =
      if is_empty f
      then pure (pos 0)
      else (do n ← value (w.get_u32 f); dispatch_broker (message_of n) identity (env ++ body))

  -- `handleBrokerMessage( msg )`
  unfoldable pub handle_broker_message : ℕ → Message F → Act (ClientProxy F) ℤ
  unfolding split_delimiter read_broker pure
  handle_broker_message identity m = elim (split_delimiter m) [
    | none ↦ pure (pos 0)
    | some parts ↦ read_broker identity parts.0 parts.1
  ]

  -- `handleBrokerMessage()`: no result of a handler counts
  unfoldable pub receive_from_broker : ℤ → Option (Message F) → Act (ClientProxy F) ℤ
  unfolding update_current_time update_broker_last_active allocate handle_broker_message pure ◌>>=◌
  receive_from_broker now none = do update_current_time now; pure (pos 0)
  receive_from_broker now (some m) = do
    update_current_time now
    update_broker_last_active
    address ← allocate
    handle_broker_message address m
    pure (pos 0)

  -- The result is that of `Send`; the time of the last activity is set whatever it is.
  unfoldable pub send_broker_heartbeat : ℤ → Act (ClientProxy F) ℤ
  unfolding update_current_time heartbeat_needed_as_of heartbeat_frames message_number gets send
      update_client_last_active pure ◌>>=◌
  send_broker_heartbeat now = do
    update_current_time now
    needed ← gets (heartbeat_needed_as_of now)
    delay ← gets (λ s. s.self_heartbeat_delay)
    if needed
        then (do
          ret ← send broker_messaging (heartbeat_frames (message_number client_heartbeat) now delay)
          update_client_last_active
          pure ret)
        else pure (pos 0)

module _ {F : Type 0} where
  unfoldable pub check_broker_pulse : ℤ → Act (ClientProxy F) ℤ
  unfolding update_current_time is_broker_alive_as_of gets set_exit_state pure ◌>>=◌
  check_broker_pulse now = do
    update_current_time now
    alive ← gets (is_broker_alive_as_of now)
    if alive then pure (pos 0) else (do set_exit_state broker_died; pure (negsuc 0))
