-- ===== src/Proxy/Parse.antt =====
-- The checks by which the handlers of liblhcluster/src/clientproxy.cxx read the frames of a message.
use lhcluster.Common.{ℕ, drop}
use lhcluster.Common.Int.{ℤ}
use lhcluster.Wire.{Wire, Message}
use lhcluster.Broker.Parse.{
  Parsed, parsed, next_frame, field, or_refuse, RequestKey, parse_key, ◌>>=◌,
}
use lhcluster.Worker.Parse.{pop_delimiter, parse_broker_heartbeat}

module _ {F : Type 0} ⦃w : Wire F⦄ where
  -- `handleClientMessage` and `handleClientRequest`: the client's identity, the delimiter, a message type
  -- that is not looked at, and the key
  unfoldable pub parse_proxy_request : Message F → Parsed RequestKey
  unfolding pop_delimiter
  parse_proxy_request m = do
    (_, m₁) ← next_frame m 0
    m₂ ← or_refuse (pop_delimiter m₁) 1
    parse_key 1 1 2 (drop 1 m₂)

  -- `handleBrokerReceipt`: the client's identity, the delimiter, type and id
  unfoldable pub parse_receipt : Message F → Parsed (ℕ × ℕ)
  unfolding pop_delimiter
  parse_receipt m = do
    (_, m₁) ← next_frame m 1
    m₂ ← or_refuse (pop_delimiter m₁) 1
    (type_frame, m₃) ← next_frame m₂ 1
    type ← field (w.get_u32 type_frame)
    (id_frame, _) ← next_frame m₃ 1
    id ← field (w.get_u64 id_frame)
    parsed (type, id)

  -- `handleBrokerResponse`: the client's identity, the delimiter, and the key
  unfoldable pub parse_proxy_response : Message F → Parsed RequestKey
  unfolding pop_delimiter
  parse_proxy_response m = do
    (_, m₁) ← next_frame m 1
    m₂ ← or_refuse (pop_delimiter m₁) 1
    parse_key 1 1 1 m₂

  -- `handleBrokerHeartbeat`: the delimiter, the time, which is not read, and the delay
  unfoldable pub parse_proxy_heartbeat : Message F → Parsed ℤ
  unfolding pop_delimiter parse_broker_heartbeat
  parse_proxy_heartbeat m = do m₁ ← or_refuse (pop_delimiter m) 1; parse_broker_heartbeat m₁
