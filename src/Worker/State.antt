-- ===== src/Worker/State.antt =====
-- The worker's state (liblhcluster/include/lhcluster_impl/lhcluster_impl/worker.h), the records that
-- it keeps (liblhcluster/src/clientrequestcontext.cxx, workerrequesttypecontext.cxx), and the small
-- operations on them.
use lhcluster.Common.{
  ℕ, Bool, true, false, ◌&&◌, not, Option, some, none, List, [], ◌∷◌, ltb, nat_beq, nat_eq, pair_eq,
  add, remove, if◌then◌else◌,
}
use lhcluster.Common.Int.{ℤ, pos, ltb_ℤ, ◌+ℤ◌}
use lhcluster.Common.Assoc
use lhcluster.Cluster.{VersionFlags}
use lhcluster.Wire.{Message}
use lhcluster.Action.{Act, pure, gets, modify, ◌>>=◌, ◌>>◌, Network, next_answer, network_send}

-- `enum class WorkerExitState`
pub data WorkerExitState : Type 0 where
  no_exit graceful_stop broker_died processor_inaccessable : WorkerExitState
  received_unsupported_request processor_fatal_error start_failed : WorkerExitState

-- `messagingSocket`, to the broker, and `requestProcessorMessagingSocket`
pub data Socket : Type 0 where
  messaging request_processor : Socket

-- `ClientRequestContext`
pub record ClientRequestContext (F : Type 0) : Type 0 where
  pub request_type : ℕ
  pub request_id : ℕ
  pub vfs : VersionFlags
  pub envelope : Message F

-- `WorkerRequestTypeContext`
pub record WorkerRequestTypeContext : Type 0 where
  pub request_type : ℕ
  pub in_progress_requests : List ℕ

pub record Worker (F : Type 0) : Type 0 where
  -- `requestProcessor.SupportedRequestTypes()`
  pub supported_request_types : List ℕ
  pub capacity : ℕ
  pub exit_state : WorkerExitState
  pub broker_heartbeat_delay : ℤ
  pub self_heartbeat_delay : ℤ
  pub broker_death_delay : ℤ
  pub broker_last_active : ℤ
  pub worker_last_active : ℤ
  pub current_time : ℤ
  pub request_type_contexts : List (ℕ × WorkerRequestTypeContext)
  pub request_contexts : List ((ℕ × ℕ) × ClientRequestContext F)
  pub network : Network Socket F

abbrev pub new_type_context : ℕ → WorkerRequestTypeContext
new_type_context t = record { request_type = t; in_progress_requests = [] }

-- `initializeRequestTypeContexts`
unfoldable pub initial_type_contexts :
    List ℕ → List (ℕ × WorkerRequestTypeContext) → List (ℕ × WorkerRequestTypeContext)
unfolding Assoc.emplace Assoc.lookup
initial_type_contexts [] m = m
initial_type_contexts (t ∷ ts) m = initial_type_contexts ts (Assoc.emplace t (new_type_context t) m)

-- `AddInProgress`, and `GetInProgressRequests().insert`
unfoldable pub add_in_progress : ℕ → WorkerRequestTypeContext → WorkerRequestTypeContext
unfolding add
add_in_progress id c = record c { in_progress_requests = add id c.in_progress_requests }

-- `RequestHasFinished`, and `GetInProgressRequests().erase`
unfoldable pub request_has_finished : ℕ → WorkerRequestTypeContext → WorkerRequestTypeContext
unfolding remove
request_has_finished id c = record c { in_progress_requests = remove id c.in_progress_requests }

module _ {F : Type 0} where
  -- the constructor
  unfoldable pub new_worker : List ℕ → ℤ → ℤ → ℤ → Network Socket F → Worker F
  unfolding initial_type_contexts ◌+ℤ◌
  new_worker supported self_delay broker_delay now network = record {
    supported_request_types = supported;
    capacity = 1;
    exit_state = no_exit;
    broker_heartbeat_delay = broker_delay;
    self_heartbeat_delay = self_delay;
    broker_death_delay = self_delay +ℤ self_delay;
    broker_last_active = pos 0;
    worker_last_active = pos 0;
    current_time = now;
    request_type_contexts = initial_type_contexts supported [];
    request_contexts = [];
    network = network;
  }

  -- `operator==` of the request contexts
  unfoldable pub context_eq : ClientRequestContext F → ClientRequestContext F → Bool
  context_eq a b = nat_beq a.request_type b.request_type && nat_beq a.request_id b.request_id

  -- `operator<` of the request contexts
  unfoldable pub context_lt : ClientRequestContext F → ClientRequestContext F → Bool
  context_lt a b =
      if ltb a.request_type b.request_type
      then true
      else if nat_beq a.request_type b.request_type
      then ltb a.request_id b.request_id
      else false

  -- `UpdateEnvelope`: the envelope moves over from the other context
  unfoldable pub update_envelope : ClientRequestContext F → Message F → ClientRequestContext F
  update_envelope c env = record c { envelope = env }

  abbrev pub key : ClientRequestContext F → ℕ × ℕ
  key c = (c.request_type, c.request_id)

  unfoldable pub set_exit_state : WorkerExitState → Act (Worker F) (Unit {0})
  unfolding modify
  set_exit_state e = modify (λ s. record s { exit_state = e })

  -- with what `std::time` returns
  unfoldable pub update_current_time : ℤ → Act (Worker F) (Unit {0})
  unfolding modify
  update_current_time now = modify (λ s. record s { current_time = now })

  unfoldable pub update_worker_last_active : Act (Worker F) (Unit {0})
  unfolding modify
  update_worker_last_active = modify (λ s. record s { worker_last_active = s.current_time })

  unfoldable pub update_broker_last_active : Act (Worker F) (Unit {0})
  unfolding modify
  update_broker_last_active = modify (λ s. record s { broker_last_active = s.current_time })

  -- `workerLastActive + brokerHeartbeatDelay <= timeAsOf`
  unfoldable pub heartbeat_needed_as_of : ℤ → Worker F → Bool
  unfolding ◌+ℤ◌
  heartbeat_needed_as_of t s = not (ltb_ℤ t (s.worker_last_active +ℤ s.broker_heartbeat_delay))

  -- `brokerLastActive + brokerDeathDelay >= asOfTime`
  unfoldable pub is_broker_alive_as_of : ℤ → Worker F → Bool
  unfolding ◌+ℤ◌
  is_broker_alive_as_of t s = not (ltb_ℤ (s.broker_last_active +ℤ s.broker_death_delay) t)

  -- `senderReceiver->Send( &msg, socket )`
  unfoldable pub send : Socket → Message F → Act (Worker F) ℤ
  unfolding network_send next_answer gets modify ◌>>=◌ pure
  send socket m = do
    ret ← gets (λ s. next_answer s.network)
    modify (λ s. record s { network = network_send socket m s.network })
    pure ret

  -- `requestTypeContexts.find( type )`
  unfoldable pub find_type_context : ℕ → Act (Worker F) (Option WorkerRequestTypeContext)
  unfolding gets Assoc.lookup
  find_type_context t = gets (λ s. Assoc.lookup t s.request_type_contexts)

  -- `requestContexts.find( ( type, id ) )`
  unfoldable pub find_context : ℕ × ℕ → Act (Worker F) (Option (ClientRequestContext F))
  unfolding gets Assoc.lookup
  find_context k = gets (λ s. Assoc.lookup k s.request_contexts)

  -- A context written through the iterator that `find` returned.
  unfoldable pub put_type_context : ℕ → WorkerRequestTypeContext → Act (Worker F) (Unit {0})
  unfolding modify Assoc.update
  put_type_context t c =
      modify (λ s. record s { request_type_contexts = Assoc.update t c s.request_type_contexts })

  unfoldable pub put_context : ℕ × ℕ → ClientRequestContext F → Act (Worker F) (Unit {0})
  unfolding modify Assoc.update
  put_context k c =
      modify (λ s. record s { request_contexts = Assoc.update k c s.request_contexts })

  -- `requestContexts.insert`, which keeps an entry that is there
  unfoldable pub insert_context : ClientRequestContext F → Act (Worker F) (Unit {0})
  unfolding modify Assoc.emplace Assoc.lookup
  insert_context c =
      modify (λ s. record s { request_contexts = Assoc.emplace (key c) c s.request_contexts })

  -- `requestContexts.erase`
  unfoldable pub erase_context : ℕ × ℕ → Act (Worker F) (Unit {0})
  unfolding modify Assoc.erase
  erase_context k = modify (λ s. record s { request_contexts = Assoc.erase k s.request_contexts })

  -- `addNewInProgressRequest`: a type that is not served is only logged
  unfoldable pub add_new_in_progress_request : ℕ → ℕ → Act (Worker F) (Unit {0})
  unfolding find_type_context put_type_context add_in_progress pure ◌>>=◌
  add_new_in_progress_request type id = do
    found ← find_type_context type
    elim found [ none ↦ pure tt | some types ↦ put_type_context type (add_in_progress id types) ]
