-- ===== src/Proxy/Passage.antt =====
-- Messages on their way through the client proxy of liblhcluster/src/clientproxy.cxx.
use lhcluster.Common.{
  ℕ, ◌+◌, ◌<◌, ◌≡◌, refl, true, false, Bool-cases, inl, inr, some, [], ◌∷◌, arith, if◌then◌else◌,
}
use lhcluster.Common.Int.{ℤ, pos, is_neg}
use lhcluster.Cluster.{has_any, message_number, message_of, broker_response, broker_heartbeat}
use lhcluster.Cluster.MessageFlag
use lhcluster.Wire.{Wire, Message}
use lhcluster.Wire.Envelope.{is_empty}
use lhcluster.Broker.Parse.{RequestKey, parsed, parse_key}
use lhcluster.Broker.Reading.{FitsWire, request_frames, split_delimiter_lem}
use lhcluster.Action.{
  returned, pure, gets, modify, value, continue, ◌>>=◌, with_fields, network_send, next_answer,
}
use lhcluster.Worker.Parse.{pop_delimiter, parse_broker_heartbeat}
use lhcluster.Worker.Messages.{heartbeat_frames}
use lhcluster.Proxy.Buffer.{add_request, erase_request}
use lhcluster.Proxy.Parse.{parse_proxy_request, parse_proxy_response, parse_proxy_heartbeat}
use lhcluster.Proxy.State.{
  ClientProxy, client_messaging, broker_messaging, send, allocate, on_buffer,
}
use lhcluster.Proxy.Handlers.{
  forward_request, handle_client_message, handle_broker_message, read_broker, dispatch_broker,
  handle_broker_response, handle_broker_heartbeat,
}

null_lem : {F : Type 0} (w : Wire F) → is_empty ⦃w = w⦄ w.null_frame ≡ true
null_lem w = ground (arith, w.size-null_frame)

module _ {F : Type 0} ⦃w : Wire F⦄ where
  key_lem :
      (no_flags no_type no_id : ℕ) (k : RequestKey) (rest : Message F)
      → FitsWire k
      → parse_key no_flags no_type no_id (request_frames k rest) ≡ parsed k
  key_lem no_flags no_type no_id k rest fits = ground (
    arith,
    w.get_vfs-put_vfs k.vfs fits.0 fits.1 fits.2,
    w.get_u32-put_u32 k.request_type fits.3,
    w.get_u64-put_u64 k.request_id fits.4,
    w.size-put_vfs k.vfs,
    w.size-put_u32 k.request_type,
    w.size-put_u64 k.request_id,
  )

  filled_lem : (f : F) → 0 < w.size f → is_empty f ≡ false
  filled_lem f h = ground (arith, h)

  -- The proxy that has kept a copy of the request, if receipts are asked for.
  abbrev pub kept : RequestKey → Message F → ClientProxy F → ClientProxy F
  kept k m s =
      if has_any k.vfs (MessageFlag.receipt_on_receive + MessageFlag.receipt_on_send)
      then (record s {
        next_address = s.next_address + 1;
        requests_buffer =
            add_request k.request_type k.request_id s.next_address k.vfs m s.requests_buffer;
      })
      else s

  abbrev pub sent_to_broker : Message F → ClientProxy F → ClientProxy F
  sent_to_broker m s = record s { network = network_send broker_messaging m s.network }

  forward_request_lem :
      (k : RequestKey) (m : Message F) (s : ClientProxy F)
      → forward_request k m s ≡ (returned (next_answer s.network), sent_to_broker m (kept k m s))
  unfolding forward_request ◌>>=◌ gets modify continue pure send allocate on_buffer
  forward_request_lem k m s =
      elim (Bool-cases
        (has_any k.vfs (MessageFlag.receipt_on_receive + MessageFlag.receipt_on_send))) [
          | inl asks ↦ rw (asks, continue) refl
          | inr silent ↦ rw (silent, continue) refl
        ]

  -- A client's request goes to the broker as it came, whatever frame says what message it is. A copy is
  -- kept exactly if the request asks for a receipt. Only a negative result of `Send` is passed on.
  pub handle_client_message-sent :
      (identity type_frame : F) (k : RequestKey) (rest : Message F) (s : ClientProxy F)
      → 0 < w.size identity
      → FitsWire k
      → let m = identity ∷ w.null_frame ∷ type_frame ∷ request_frames k rest in
        handle_client_message m s ≡ (
          returned (if is_neg (next_answer s.network) then next_answer s.network else pos 0),
          sent_to_broker m (kept k m s),
        )
  unfolding handle_client_message ◌>>=◌ with_fields pure parse_proxy_request pop_delimiter
  handle_client_message-sent identity type_frame k rest s known fits =
      rw
        (
          filled_lem identity known,
          null_lem w,
          key_lem 1 1 2 k rest fits,
          forward_request_lem k (identity ∷ w.null_frame ∷ type_frame ∷ request_frames k rest) s,
          continue,
        )
        refl

  -- A response, as a worker's finished message has it behind the proxy's own identity, goes to the
  -- client without the frame that says that it is a response.
  pub handle_broker_message-response :
      (address : ℕ) (identity : F) (k : RequestKey) (rest : Message F) (s : ClientProxy F)
      → 0 < w.size identity
      → FitsWire k
      → handle_broker_message address
          (identity
            ∷ w.null_frame
            ∷ w.put_u32 (message_number broker_response)
            ∷ request_frames k rest)
          s
        ≡ (
          returned (next_answer s.network),
          record s {
            requests_buffer = erase_request k.request_type k.request_id address s.requests_buffer;
            network =
                network_send client_messaging
                  (identity ∷ w.null_frame ∷ request_frames k rest)
                  s.network;
          },
        )
  unfolding handle_broker_message read_broker dispatch_broker message_of message_number
      handle_broker_response ◌>>=◌ with_fields pure value modify gets continue parse_proxy_response
      pop_delimiter send on_buffer
  handle_broker_message-response address identity k rest s known fits =
      let body : Message F = w.put_u32 7 ∷ request_frames k rest in
      let size : is_empty (w.put_u32 7) ≡ false = filled_lem _ (w.size-put_u32 7) in
      let seven : w.get_u32 (w.put_u32 7) ≡ some 7 = w.get_u32-put_u32 7 (omega arith) in
      rw
        (
          handle_broker_message,
          split_delimiter_lem (identity ∷ []) body (known, tt),
          size,
          seven,
          continue,
          filled_lem identity known,
          null_lem w,
          continue,
          key_lem 1 1 1 k rest fits,
          continue,
        )
        refl

  -- A heartbeat of the broker, as `SendHeartbeat` writes it, sets the delay between the proxy's own
  -- heartbeats to 0, whatever delay the broker gave: it is written as a time and read as an `int`.
  pub handle_broker_message-heartbeat_frames :
      (address : ℕ) (sent_as_of delay : ℤ) (s : ClientProxy F)
      → handle_broker_message address
          (heartbeat_frames (message_number broker_heartbeat) sent_as_of delay)
          s
        ≡ (returned (pos 0), record s { broker_heartbeat_delay = pos 0 })
  unfolding handle_broker_message read_broker dispatch_broker message_of message_number
      handle_broker_heartbeat ◌>>=◌ with_fields pure value modify continue parse_proxy_heartbeat
      pop_delimiter parse_broker_heartbeat heartbeat_frames
  handle_broker_message-heartbeat_frames address sent_as_of delay s =
      let body : Message F = w.put_u32 5 ∷ w.put_time sent_as_of ∷ w.put_time delay ∷ [] in
      let size : is_empty (w.put_u32 5) ≡ false = filled_lem _ (w.size-put_u32 5) in
      let five : w.get_u32 (w.put_u32 5) ≡ some 5 = w.get_u32-put_u32 5 (omega arith) in
      rw
        (
          handle_broker_message,
          split_delimiter_lem [] body tt,
          size,
          five,
          continue,
          null_lem w,
          filled_lem _ (w.size-put_time sent_as_of),
          filled_lem _ (w.size-put_time delay),
          w.get_i32-put_time delay,
        )
        refl
