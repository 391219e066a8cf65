-- ===== src/Proxy/State.antt =====
-- The client proxy's state (liblhcluster/include/lhcluster_impl/lhcluster_impl/clientproxy.h) and the
-- actions on it.
use lhcluster.Common.{ℕ, ◌+◌, Bool, not, []}
use lhcluster.Common.Int.{ℤ, pos, ltb_ℤ, ◌+ℤ◌}
use lhcluster.Wire.{Message}
use lhcluster.Action.{Act, pure, gets, modify, ◌>>=◌, ◌>>◌, Network, next_answer, network_send}
use lhcluster.Proxy.Buffer.{Buffer}

-- `enum class ClientProxyExitState`
pub data ClientProxyExitState : Type 0 where
  no_exit graceful_stop broker_died start_failed : ClientProxyExitState

-- `clientMessagingSocket` and `brokerMessagingSocket`
pub data Socket : Type 0 where
  client_messaging broker_messaging : Socket

pub record ClientProxy (F : Type 0) : Type 0 where
  pub exit_state : ClientProxyExitState
  pub broker_heartbeat_delay : ℤ
  pub self_heartbeat_delay : ℤ
  pub broker_death_delay : ℤ
  pub broker_last_active : ℤ
  pub client_last_active : ℤ
  pub current_time : ℤ
  pub requests_buffer : Buffer F
  -- the address of the next frame that is allocated; no frame gets the address of one that lives
  pub next_address : ℕ
  pub network : Network Socket F

module _ {F : Type 0} where
  -- the constructor
  unfoldable pub new_proxy : ℤ → ℤ → ℤ → Network Socket F → ClientProxy F
  unfolding ◌+ℤ◌
  new_proxy self_delay broker_delay now network = record {
    exit_state = no_exit;
    broker_heartbeat_delay = broker_delay;
    self_heartbeat_delay = self_delay;
    broker_death_delay = self_delay +ℤ self_delay;
    broker_last_active = pos 0;
    client_last_active = pos 0;
    current_time = now;
    requests_buffer = [];
    next_address = 0;
    network = network;
  }

  unfoldable pub set_exit_state : ClientProxyExitState → Act (ClientProxy F) (Unit {0})
  unfolding modify
  set_exit_state e = modify (λ s. record s { exit_state = e })

  -- with what `std::time` returns
  unfoldable pub update_current_time : ℤ → Act (ClientProxy F) (Unit {0})
  unfolding modify
  update_current_time now = modify (λ s. record s { current_time = now })

  unfoldable pub update_client_last_active : Act (ClientProxy F) (Unit {0})
  unfolding modify
  update_client_last_active = modify (λ s. record s { client_last_active = s.current_time })

  unfoldable pub update_broker_last_active : Act (ClientProxy F) (Unit {0})
  unfolding modify
  update_broker_last_active = modify (λ s. record s { broker_last_active = s.current_time })

  -- `clientLastActive + brokerHeartbeatDelay <= time_asof`
  unfoldable pub heartbeat_needed_as_of : ℤ → ClientProxy F → Bool
  unfolding ◌+ℤ◌
  heartbeat_needed_as_of t s = not (ltb_ℤ t (s.client_last_active +ℤ s.broker_heartbeat_delay))

  -- `brokerLastActive + brokerDeathDelay >= asOfTime`
  unfoldable pub is_broker_alive_as_of : ℤ → ClientProxy F → Bool
  unfolding ◌+ℤ◌
  is_broker_alive_as_of t s = not (ltb_ℤ (s.broker_last_active +ℤ s.broker_death_delay) t)

  -- `senderReceiver->Send( &msg, socket )`
  unfoldable pub send : Socket → Message F → Act (ClientProxy F) ℤ
  unfolding network_send next_answer gets modify ◌>>=◌ pure
  send socket m = do
    ret ← gets (λ s. next_answer s.network)
    modify (λ s. record s { network = network_send socket m s.network })
    pure ret

  -- the first frame of a message that `Receive` or `zmsg_dup` makes: its address
  unfoldable pub allocate : Act (ClientProxy F) ℕ
  unfolding gets modify ◌>>=◌ pure
  allocate = do
    address ← gets (λ s. s.next_address)
    modify (λ s. record s { next_address = s.next_address + 1 })
    pure address

  -- A method of the buffer that changes it.
  unfoldable pub on_buffer : (Buffer F → Buffer F) → Act (ClientProxy F) (Unit {0})
  unfolding modify
  on_buffer f = modify (λ s. record s { requests_buffer = f s.requests_buffer })
