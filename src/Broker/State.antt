-- ===== src/Broker/State.antt =====
-- The broker's state (liblhcluster/include/lhcluster_impl/lhcluster_impl/broker.h) and the actions
-- on it. A handler returns, or throws (a frame that protobuf cannot parse), or does what C++ leaves
-- undefined, such as a read through a pointer to an object that is gone.
use lhcluster.Common.{ℕ, Option, some, none, List, ◌∷◌, length, nat_eq, if◌then◌else◌}
use lhcluster.Common.Int.{ℤ, is_zero}
use lhcluster.Common.Assoc
use lhcluster.Wire.{Wire, Message, identity_eq}
use lhcluster.RequestState.{RequestState}
use lhcluster.Context
use lhcluster.Context.{Context}
use lhcluster.WorkerInfo.{WorkerInfo}

-- `frontendMessagingSocket` and `backendMessagingSocket`
pub data Socket : Type 0 where
  frontend backend : Socket

-- A call of `senderReceiver->Send` and what it returned.
pub record Sent (F : Type 0) : Type 0 where
  pub socket : Socket
  pub message : Message F
  pub result : ℤ

pub record Broker (F : Type 0) : Type 0 where
  pub worker_info_lookup : List (F × WorkerInfo F)
  pub request_type_context_lookup : List (ℕ × Context F)
  pub self_heartbeat_delay : ℤ
  pub worker_death_delay : ℤ
  pub minimum_worker_heartbeat_delay : ℤ
  pub current_time : ℤ
  -- what the n-th call of `Send` will return: the network's choice
  pub answers : ℕ → ℤ
  -- the calls of `Send` so far, the last one first
  pub sent : List (Sent F)

pub data Fault : Type 0 where
  missing_context dangling_worker dangling_request : Fault
  dangling_assigned_worker bad_iterator null_message out_of_rounds : Fault

pub data Outcome (A : Type 0) : Type 0 where
  returned : A → Outcome A
  thrown : Outcome A
  undefined : Fault → Outcome A

abbrev pub Op : Type 0 → Type 0 → Type 0
Op F A = Broker F → Outcome A × Broker F

module _ {F A : Type 0} where
  unfoldable pub pure : A → Op F A
  pure a b = (returned a, b)

  unfoldable pub throw : Op F A
  throw b = (thrown, b)

  unfoldable pub undefined_by : Fault → Op F A
  undefined_by e b = (undefined e, b)

  unfoldable pub gets : (Broker F → A) → Op F A
  gets f b = (returned (f b), b)

  -- What a pointer, an iterator or a union member gives, or a fault.
  unfoldable pub deref : Fault → Option A → Op F A
  deref e none b = (undefined e, b)
  deref e (some a) b = (returned a, b)

  -- `get_frame_value`, which throws where the frame does not parse
  unfoldable pub value : Option A → Op F A
  value none b = (thrown, b)
  value (some a) b = (returned a, b)

module _ {F A B : Type 0} where
  unfoldable pub continue : Outcome A → (A → Op F B) → Op F B
  continue (returned a) f b = f a b
  continue thrown f b = (thrown, b)
  continue (undefined e) f b = (undefined e, b)

  infixl 5 ◌>>=◌ ◌>>◌
  unfoldable pub ◌>>=◌ : Op F A → (A → Op F B) → Op F B
  unfolding continue
  ◌>>=◌ m f b = continue (m b).0 f (m b).1

  abbrev pub ◌>>◌ : Op F A → Op F B → Op F B
  m >> k = m >>= λ _. k

module _ {F : Type 0} where
  unfoldable pub modify : (Broker F → Broker F) → Op F (Unit {0})
  modify f b = (returned tt, f b)

  -- `requestTypeContextLookup.find( type )`
  unfoldable pub find_context : ℕ → Op F (Option (Context F))
  unfolding gets Assoc.lookup
  find_context t = gets (λ b. Assoc.lookup t b.request_type_context_lookup)

  -- The context behind the iterator that `find` returned, used without a test.
  unfoldable pub the_context : ℕ → Op F (Context F)
  unfolding find_context deref ◌>>=◌
  the_context t = do c ← find_context t; deref missing_context c

  unfoldable pub set_context : ℕ → Context F → Op F (Unit {0})
  unfolding modify Assoc.update
  set_context t c = modify (λ b. record b {
    request_type_context_lookup = Assoc.update t c b.request_type_context_lookup;
  })

  -- `requestTypeContextLookup.insert( ( type, BrokerRequestTypeContext( type ) ) )`
  unfoldable pub insert_context : ℕ → Op F (Unit {0})
  unfolding modify Assoc.emplace Assoc.lookup Context.new_context
  insert_context t = modify (λ b. record b {
    request_type_context_lookup =
        Assoc.emplace t (Context.new_context t) b.request_type_context_lookup;
  })

  -- A method of the context that changes it.
  unfoldable pub on_context : ℕ → (Context F → Context F) → Op F (Unit {0})
  unfolding the_context set_context ◌>>=◌
  on_context t f = do c ← the_context t; set_context t (f c)

  -- A `RequestState*`, read: the object that a context owns under the id.
  unfoldable pub the_request : ℕ → ℕ → Op F (RequestState F)
  unfolding find_context deref ◌>>=◌ Context.get_request_state
  the_request t id = do
    found ← find_context t
    elim found [
      | none ↦ deref dangling_request none
      | some c ↦ deref dangling_request (Context.get_request_state id c)
    ]

  -- A method of the request's state that changes it.
  unfoldable pub on_request : ℕ → ℕ → (RequestState F → RequestState F) → Op F (Unit {0})
  unfolding the_request on_context ◌>>=◌ Context.put_request
  on_request t id f = do r ← the_request t id; on_context t (Context.put_request id (f r))

module _ {F : Type 0} ⦃w : Wire F⦄ where
  -- `workerInfoLookup.LookupWorkerInfo( identity )`
  unfoldable pub lookup_worker_info : F → Op F (Option (WorkerInfo F))
  unfolding gets Assoc.lookup
  lookup_worker_info identity = gets (λ b. Assoc.lookup identity b.worker_info_lookup)

  -- `workerInfoLookup.InsertWorkerInfo`, by `insert`
  unfoldable pub insert_worker_info : WorkerInfo F → Op F (Unit {0})
  unfolding modify Assoc.emplace Assoc.lookup
  insert_worker_info i =
      modify
        (λ b. record b { worker_info_lookup = Assoc.emplace i.identity i b.worker_info_lookup })

  -- `workerInfoLookup.RemoveWorkerInfo`
  unfoldable pub remove_worker_info : F → Op F (Unit {0})
  unfolding modify Assoc.erase
  remove_worker_info identity =
      modify (λ b. record b { worker_info_lookup = Assoc.erase identity b.worker_info_lookup })

  -- A `WorkerInfo*`, read.
  unfoldable pub the_worker : F → Op F (WorkerInfo F)
  unfolding lookup_worker_info deref ◌>>=◌
  the_worker identity = do i ← lookup_worker_info identity; deref dangling_worker i

  -- A method of the worker's record that changes it.
  unfoldable pub on_worker : F → (WorkerInfo F → WorkerInfo F) → Op F (Unit {0})
  unfolding the_worker modify ◌>>=◌ Assoc.update
  on_worker identity f = do
    i ← the_worker identity
    modify (λ b. record b { worker_info_lookup = Assoc.update identity (f i) b.worker_info_lookup })

module _ {F : Type 0} where
  -- `senderReceiver->Send( &msg, socket )`: its result, and the pointer, which a success sets to null.
  unfoldable pub send : Socket → Message F → Op F (ℤ × Option (Message F))
  send socket m b =
      let ret = b.answers (length b.sent) in
      (
        returned (ret, if is_zero ret then none else some m),
        record b { sent = record { socket = socket; message = m; result = ret } ∷ b.sent },
      )
