-- ===== src/Proxy/Kept.antt =====
-- The buffer of the client proxy under the broker's messages: liblhcluster/src/clientproxy.cxx looks
-- an entry up by the address of a frame of the message that it has just received.
use lhcluster.Common.{
  ℕ, ◌+◌, ◌<◌, ◌≡◌, refl, ap, ◌∙◌, inl, inr, Option, some, none, [], ◌∷◌, ◌++◌, nat_eq, pair_eq,
  arith, Option-cases,
}
use lhcluster.Common.Int.{ℤ, pos}
use lhcluster.Common.Assoc
use lhcluster.Cluster.{
  ClusterMessage, message_of, broker_sent_receipt, broker_received_receipt, broker_response,
  broker_heartbeat,
}
use lhcluster.Wire.{Wire, Message}
use lhcluster.Wire.Envelope.{is_empty}
use lhcluster.Broker.Reactor.{split_delimiter}
use lhcluster.Action.{pure, gets, modify, continue, ◌>>=◌}
use lhcluster.Action.Keeps.{
  Keeps, Keeps-pure, Keeps-value, Keeps-modify, Keeps-bind, Keeps-if, Keeps-option,
  Keeps-with_fields,
}
use lhcluster.Proxy.Buffer.{Buffer, BufferKey, BufferValue, erase_if_last_receipt, erase_request}
use lhcluster.Proxy.Parse.{parse_receipt, parse_proxy_response, parse_proxy_heartbeat}
use lhcluster.Proxy.State.{
  ClientProxy, Socket, client_messaging, update_current_time, update_broker_last_active, send,
  allocate, on_buffer,
}
use lhcluster.Proxy.Handlers.{
  handle_broker_receipt, handle_broker_response, handle_broker_heartbeat, dispatch_broker,
  read_broker, handle_broker_message, receive_from_broker,
}

-- No entry is under this address.
abbrev pub IsAway : {F : Type 0} → ℕ → Buffer F → Type 0
IsAway address b = (t id : ℕ) → Assoc.lookup (t, (id, address)) b ≡ none

module _ {F : Type 0} where
  -- The buffer, and the address of the next frame.
  pub record Same (b₀ : Buffer F) (n : ℕ) (s : ClientProxy F) : Type 0 where
    pub buffer : s.requests_buffer ≡ b₀
    pub next : s.next_address ≡ n

  erase_if_last_receipt-away :
      (r : ClusterMessage) (t id address : ℕ) (b : Buffer F)
      → IsAway address b
      → erase_if_last_receipt r t id address b ≡ b
  unfolding erase_if_last_receipt
  erase_if_last_receipt-away r t id address b away = rw (erase_if_last_receipt, away t id) refl

  erase_request-away :
      (t id address : ℕ) (b : Buffer F) → IsAway address b → erase_request t id address b ≡ b
  unfolding erase_request
  erase_request-away t id address b away = rw (erase_request, away t id) refl

module _ {F : Type 0} {b₀ : Buffer F} {n : ℕ} where
  on_buffer-Same : (f : Buffer F → Buffer F) → f b₀ ≡ b₀ → Keeps (Same b₀ n) (on_buffer f)
  unfolding on_buffer
  on_buffer-Same f e = Keeps-modify _ (λ s h. record { buffer = ap f h.buffer ∙ e; next = h.next })

  send-Same : (k : Socket) (m : Message F) → Keeps (Same b₀ n) (send k m)
  unfolding send ◌>>=◌ gets modify continue pure
  send-Same k m = record { at = λ s h. record { buffer = h.buffer; next = h.next } }

module _ {F : Type 0} ⦃w : Wire F⦄ {b₀ : Buffer F} {n : ℕ} where
  handle_broker_receipt-Same :
      (r : ClusterMessage) (address : ℕ) (m : Message F)
      → IsAway address b₀
      → Keeps (Same b₀ n) (handle_broker_receipt r address m)
  unfolding handle_broker_receipt
  handle_broker_receipt-Same r address m away = Keeps-with_fields (parse_receipt m) _ λ x.
      Keeps-bind _ _
        (on_buffer-Same (erase_if_last_receipt r x.0 x.1 address)
          (erase_if_last_receipt-away r x.0 x.1 address b₀ away))
        (λ _. Keeps-pure (pos 0))

  handle_broker_response-Same :
      (address : ℕ) (m : Message F)
      → IsAway address b₀
      → Keeps (Same b₀ n) (handle_broker_response address m)
  unfolding handle_broker_response
  handle_broker_response-Same address m away = Keeps-with_fields (parse_proxy_response m) _ λ k.
      Keeps-bind _ _
        (on_buffer-Same (erase_request k.request_type k.request_id address)
          (erase_request-away k.request_type k.request_id address b₀ away))
        (λ _. send-Same client_messaging m)

  handle_broker_heartbeat-Same : (m : Message F) → Keeps (Same b₀ n) (handle_broker_heartbeat m)
  unfolding handle_broker_heartbeat
  handle_broker_heartbeat-Same m = Keeps-with_fields (parse_proxy_heartbeat m) _ λ delay.
      Keeps-bind _ _ (Keeps-modify _ (λ s h. record { buffer = h.buffer; next = h.next }))
        (λ _. Keeps-pure (pos 0))

  dispatch_broker-Same :
      (c : ClusterMessage) (address : ℕ) (m : Message F)
      → IsAway address b₀
      → Keeps (Same b₀ n) (dispatch_broker c address m)
  unfolding dispatch_broker
  dispatch_broker-Same broker_sent_receipt address m away =
      handle_broker_receipt-Same broker_sent_receipt address m away
  dispatch_broker-Same broker_received_receipt address m away =
      handle_broker_receipt-Same broker_received_receipt address m away
  dispatch_broker-Same broker_response address m away = handle_broker_response-Same address m away
  dispatch_broker-Same broker_heartbeat address m away = handle_broker_heartbeat-Same m
  dispatch_broker-Same _ address m away = Keeps-pure (pos 0)

  read_broker-Same :
      (address : ℕ) (env body : Message F)
      → IsAway address b₀
      → Keeps (Same b₀ n) (read_broker address env body)
  unfolding read_broker
  read_broker-Same address env [] away = Keeps-pure (pos 0)
  read_broker-Same address env (f ∷ body) away = Keeps-if (is_empty f) _ _ (Keeps-pure (pos 0)) (
      Keeps-bind _ _ (Keeps-value (w.get_u32 f))
        (λ c. dispatch_broker-Same (message_of c) address (env ++ body) away))

  handle_broker_message-Same :
      (address : ℕ) (m : Message F)
      → IsAway address b₀
      → Keeps (Same b₀ n) (handle_broker_message address m)
  unfolding handle_broker_message
  handle_broker_message-Same address m away =
      Keeps-option (split_delimiter m) _ _ (Keeps-pure (pos 0))
        (λ parts _. read_broker-Same address parts.0 parts.1 away)

module _ {F : Type 0} where
  -- Every entry is under the address of a frame that has been allocated.
  pub record IsFresh (s : ClientProxy F) : Type 0 where
    pub below :
        (k : BufferKey) (v : BufferValue F)
        → Assoc.lookup k s.requests_buffer ≡ some v
        → k.1.1 < s.next_address

  pub fresh-IsAway : (s : ClientProxy F) → IsFresh s → IsAway s.next_address s.requests_buffer
  fresh-IsAway s h t id =
      elim (Option-cases (Assoc.lookup (t, (id, s.next_address)) s.requests_buffer)) [
        | inl e ↦ e
        | inr (v, e) ↦ absurd (omega (arith, h.below (t, (id, s.next_address)) v e))
      ]

module _ {F : Type 0} ⦃w : Wire F⦄ where
  pub message-Same :
      (m : Message F) (s : ClientProxy F)
      → IsAway s.next_address s.requests_buffer
      → (now : ℤ)
      → Same s.requests_buffer (s.next_address + 1) (receive_from_broker now (some m) s).1
  unfolding receive_from_broker update_current_time update_broker_last_active allocate ◌>>=◌ modify
      gets continue pure
  message-Same m s away now =
      (Keeps-bind _ _ (handle_broker_message-Same s.next_address m away)
          (λ _. Keeps-pure (pos 0))).at
        _ (record { buffer = refl; next = refl })

  -- No message of the broker, be it a receipt or a response, takes a request out of the buffer, or
  -- settles one of its receipts: the frame by whose address it looks the request up is a new one.
  pub receive_from_broker-requests_buffer :
      (now : ℤ) (m : Option (Message F)) (s : ClientProxy F)
      → IsFresh s
      → (receive_from_broker now m s).1.requests_buffer ≡ s.requests_buffer
  unfolding receive_from_broker update_current_time ◌>>=◌ modify continue pure
  receive_from_broker-requests_buffer now none s h = refl
  receive_from_broker-requests_buffer now (some m) s h =
      (message-Same m s (fresh-IsAway s h) now).buffer
