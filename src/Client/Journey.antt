-- ===== src/Client/Journey.antt =====
-- A request and its response on their whole way: liblhcluster/src/client.cxx, clientproxy.cxx,
-- broker.cxx and requestresponse.cxx. A socket puts the peer's identity in front of what it receives,
-- and takes it off what it sends.
use lhcluster.Common.{ℕ, ◌^◌, ◌<◌, ◌≡◌, refl, [], ◌∷◌, arith, if◌then◌else◌}
use lhcluster.Common.Int.{pos, is_neg}
use lhcluster.Cluster.{client_new_request, broker_response, message_of, message_number}
use lhcluster.Wire.{Wire, Message}
use lhcluster.Action.{returned, next_answer, network_send}
use lhcluster.Broker.Parse.{RequestKey, parsed, parse_client_request, parse_worker_finished}
use lhcluster.Broker.Reading.{
  FitsWire, request_frames, parse_client_request-request_frames, handle_frontend_message-dispatch,
}
use lhcluster.Broker.Worker.{handle_worker_finished, finish_request}
use lhcluster.Broker.Client.{with_fields}
use lhcluster.Broker.Requests.{after_sending}
use lhcluster.Broker.State
use lhcluster.Broker.State.{Broker, Op, frontend, send, ◌>>◌}
use lhcluster.Cluster.MessageFlag
use lhcluster.Cluster.{has_any}
use lhcluster.Common.{ap, ◌∙◌, length, false}
use lhcluster.Broker.Reactor.{handle_frontend_message, dispatch_frontend, handle_backend_message}
use lhcluster.Worker.Service.{response_frames}
use lhcluster.Worker.Requests.{finished_message}
use lhcluster.Worker.Parse.{pop_delimiter}
use lhcluster.Worker.Broker.{handle_backend_message-finished_message}
use lhcluster.Proxy.State.{ClientProxy, client_messaging}
use lhcluster.Proxy.Handlers.{handle_client_message, handle_broker_message}
use lhcluster.Proxy.Passage.{
  sent_to_broker, kept, handle_client_message-sent, handle_broker_message-response,
}
use lhcluster.Client.{flags_only, request_message}
use lhcluster.Client.Response.{fill_from_message}

-- The key of a request that a client sends.
abbrev pub client_key : ℕ → ℕ → ℕ → RequestKey
client_key type id flags = record { vfs = flags_only flags; request_type = type; request_id = id }

client_key-FitsWire :
    (type id flags : ℕ)
    → type < 2 ^ 32
    → id < 2 ^ 64
    → flags < 2 ^ 64
    → FitsWire (client_key type id flags)
client_key-FitsWire type id flags t i f = (omega arith, omega arith, f, t, i)

module _ {F : Type 0} ⦃w : Wire F⦄ where
  fill_from_message-response_frames :
      (k : RequestKey) (status : ℕ) (rest : Message F)
      → FitsWire k
      → status < 2 ^ 32
      → fill_from_message (w.null_frame ∷ response_frames k status rest)
        ≡ parsed (record {
          id = k.request_id;
          type = k.request_type;
          status = status;
          message = rest;
          vfs = k.vfs;
        })
  unfolding fill_from_message pop_delimiter
  fill_from_message-response_frames k status rest fits small = ground (
    arith,
    w.size-null_frame,
    w.get_vfs-put_vfs k.vfs fits.0 fits.1 fits.2,
    w.get_u32-put_u32 k.request_type fits.3,
    w.get_u64-put_u64 k.request_id fits.4,
    w.get_u32-put_u32 status small,
    w.size-put_vfs k.vfs,
    w.size-put_u32 k.request_type,
    w.size-put_u64 k.request_id,
    w.size-put_u32 status,
  )

  -- A client's request, by the identities of the client and of the proxy: the proxy sends it on as it
  -- came, keeping a copy if its flags ask for a receipt, and the broker hands it to the handler of new
  -- requests, which reads the type, the id, the flags and the version that the client sent.
  pub request_message-arrives :
      (proxy client : F) (type id flags : ℕ) (data_frames : Message F) (s : ClientProxy F)
      → 0 < w.size proxy
      → 0 < w.size client
      → type < 2 ^ 32
      → id < 2 ^ 64
      → flags < 2 ^ 64
      → let k = client_key type id flags in
        let m = client ∷ request_message type id flags data_frames in
        let arrived = proxy ∷ client ∷ w.null_frame ∷ request_frames k data_frames in
        (handle_client_message m s ≡ (
          returned (if is_neg (next_answer s.network) then next_answer s.network else pos 0),
          sent_to_broker m (kept k m s),
        ))
        × (handle_frontend_message (proxy ∷ m) ≡ dispatch_frontend client_new_request arrived)
        × (parse_client_request arrived ≡ parsed k)
  unfolding request_message message_number message_of
  request_message-arrives proxy client type id flags data_frames s p c t i f =
      let k : RequestKey = client_key type id flags in
      let fits = client_key-FitsWire type id flags t i f in
      (
        handle_client_message-sent client (w.put_u32 12) k data_frames s c fits,
        handle_frontend_message-dispatch (proxy ∷ client ∷ []) 12 _ (p, (c, tt)) (omega arith),
        parse_client_request-request_frames (proxy ∷ client ∷ []) k data_frames (p, (c, tt)) fits,
      )

  -- What the broker does with a finished message: it sends the body to the client's proxy, whatever it
  -- knows of the worker, and then finishes the request.
  handle_worker_finished-sent :
      (worker : F) (m : Message F) (k : RequestKey) (b : Broker F)
      → parse_worker_finished m ≡ parsed k
      → has_any k.vfs MessageFlag.asynchronous ≡ false
      → handle_worker_finished worker m b
        ≡ (finish_request worker k.request_type k.request_id
              >> State.pure (b.answers (length b.sent)))
            (after_sending
              (record { socket = frontend; message = m; result = b.answers (length b.sent) })
              b)
  unfolding handle_worker_finished State.◌>>=◌ State.pure send
  handle_worker_finished-sent worker m k b read waits =
      rw (handle_worker_finished, read, with_fields, waits, send, State.continue) refl

  -- The response of a worker to a request that is not asynchronous, by the identities of the proxy and of
  -- the client: the broker sends it to the proxy, without the frames in front of its envelope, and then
  -- finishes the request, whose key it has read; the proxy sends it to the client without the frame of
  -- its message type; and the client's user gets the type, the id, the flags, the status and the frames
  -- that the worker's processor gave.
  pub finished_message-arrives :
      (worker proxy client : F) (k : RequestKey) (status : ℕ) (rest : Message F) (address : ℕ)
      (b : Broker F) (s : ClientProxy F)
      → 0 < w.size worker
      → 0 < w.size proxy
      → 0 < w.size client
      → FitsWire k
      → has_any k.vfs MessageFlag.asynchronous ≡ false
      → status < 2 ^ 32
      → let answer = response_frames k status rest in
        let m = client ∷ w.null_frame ∷ w.put_u32 (message_number broker_response) ∷ answer in
        (handle_backend_message (worker ∷ finished_message (proxy ∷ client ∷ []) answer) b
          ≡ (finish_request worker k.request_type k.request_id
                >> State.pure (b.answers (length b.sent)))
              (after_sending
                (record {
                  socket = frontend;
                  message = proxy ∷ m;
                  result = b.answers (length b.sent);
                })
                b))
        × ((handle_broker_message address m s).1.network
            ≡ network_send client_messaging (client ∷ w.null_frame ∷ answer) s.network)
        × (fill_from_message (w.null_frame ∷ answer)
            ≡ parsed (record {
              id = k.request_id;
              type = k.request_type;
              status = status;
              message = rest;
              vfs = k.vfs;
            }))
  unfolding message_number
  finished_message-arrives worker proxy client k status rest address b s known p c fits waits
        small =
      let read =
        handle_backend_message-finished_message worker proxy (client ∷ []) k
          (w.put_u32 status ∷ rest) known (p, (c, tt)) fits in
      (
        ap (λ (op : Op F _). op b) read.0 ∙ handle_worker_finished-sent worker _ k b read.1 waits,
        rw (handle_broker_message-response address client k (w.put_u32 status ∷ rest) s c fits)
            refl,
        fill_from_message-response_frames k status rest fits small,
      )
