-- ===== src/Broker/Availability.antt =====
-- How broker.cxx gives waiting requests to a worker that has room: `updateContextsForNewWorker` and
-- `updateContextsForFinishedWorker`. A worker's request types are visited in order, and `before`
-- holds those in front of the current one, the last one first.
use lhcluster.Common.{
  ℕ, zero, suc, Bool, true, false, not, ◌&&◌, ◌||◌, Option, some, none, List, [], ◌∷◌, nat_beq,
  if◌then◌else◌,
}
use lhcluster.Common.Int.{ℤ, pos, is_zero}
use lhcluster.Wire.{Wire, identity_eq}
use lhcluster.Context
use lhcluster.WorkerInfo.{has_capacity}
use lhcluster.Broker.State.{
  Op, out_of_rounds, pure, undefined_by, ◌>>=◌, ◌>>◌, find_context, the_context, insert_context,
  on_context, the_worker,
}
use lhcluster.Broker.Forward.{forward_pending}
use lhcluster.Broker.Client.{remove_from_contexts}

-- What a loop over the request types hands on: `thereAreMoreRequests`, the return code, and for
-- a finished worker `removedInProgressRequest`.
pub record Progress : Type 0 where
  pub more : Bool
  pub ret : ℤ
  pub removed : Bool

-- before the first round
abbrev pub no_progress : Progress
no_progress = record { more = false; ret = pos 0; removed = false }

abbrev is_some : {A : Type 0} → Option A → Bool
is_some none = false
is_some (some a) = true

module _ {F : Type 0} ⦃w : Wire F⦄ where
  -- `RemoveAvailableWorker` in the context of each type, which is taken to exist
  unfoldable pub remove_from_known_contexts : F → List ℕ → Op F (Unit {0})
  unfolding on_context pure ◌>>=◌ Context.remove_available_worker
  remove_from_known_contexts worker [] = pure tt
  remove_from_known_contexts worker (t ∷ ts) = do
    on_context t (Context.remove_available_worker worker)
    remove_from_known_contexts worker ts

  -- `worker->FreeCapacity() > 0`
  unfoldable pub worker_has_room : F → Op F Bool
  unfolding the_worker pure ◌>>=◌
  worker_has_room worker = do i ← the_worker worker; pure (has_capacity i.free_capacity)

  -- `GetNextPendingRequest() != nullptr`
  unfoldable pub has_pending : ℕ → Op F Bool
  unfolding the_context pure ◌>>=◌ Context.get_next_pending_request
  has_pending t = do c ← the_context t; pure (is_some (Context.get_next_pending_request c))

  -- one type of a new worker, after its context counts the worker: the first waiting request
  unfoldable pub give_first_pending : F → List ℕ → ℕ → Progress → Op F Progress
  unfolding the_context worker_has_room has_pending forward_pending on_context
      remove_from_known_contexts pure ◌>>=◌ Context.get_next_pending_request
      Context.add_available_worker
  give_first_pending worker before t p = do
    c ← the_context t
    elim (Context.get_next_pending_request c) [
      | none ↦ do on_context t (Context.add_available_worker worker); pure p
      | some id ↦ do
        ret ← forward_pending worker t id
        if is_zero ret
            then (do
              room ← worker_has_room worker
              if room
                  then (do
                    on_context t (Context.add_available_worker worker)
                    next ← has_pending t
                    pure (record p { ret = ret; more = p.more || next }))
                  else (do remove_from_known_contexts worker before; pure (record p { ret = ret })))
            else (do
              on_context t (Context.add_available_worker worker)
              pure (record p { ret = pos 0; more = true }))
    ]

  -- one round of the first loop of `updateContextsForNewWorker`
  unfoldable pub register_type : F → List ℕ → ℕ → Progress → Op F Progress
  unfolding find_context worker_has_room give_first_pending insert_context on_context pure ◌>>=◌
      Context.increment_num_workers Context.add_available_worker
  register_type worker before t p = do
    found ← find_context t
    elim found [
      | some _ ↦ do
        on_context t Context.increment_num_workers
        room ← worker_has_room worker
        if room then give_first_pending worker before t p else pure p
      | none ↦ do
        insert_context t
        on_context t Context.increment_num_workers
        room ← worker_has_room worker
        if room then (do on_context t (Context.add_available_worker worker); pure p) else pure p
    ]

  unfoldable pub register_types : F → List ℕ → List ℕ → Progress → Op F Progress
  unfolding register_type pure ◌>>=◌
  register_types worker before [] p = pure p
  register_types worker before (t ∷ ts) p = do
    p' ← register_type worker before t p
    register_types worker (t ∷ before) ts p'

  -- one pass over the types: at most one waiting request of each, until the worker is full
  unfoldable pub sweep_types : F → List ℕ → List ℕ → Progress → Op F Progress
  unfolding the_context worker_has_room has_pending forward_pending remove_from_contexts pure ◌>>=◌
      Context.get_next_pending_request
  sweep_types worker before [] p = pure p
  sweep_types worker before (t ∷ ts) p = do
    c ← the_context t
    elim (Context.get_next_pending_request c) [
      | none ↦ sweep_types worker (t ∷ before) ts p
      | some id ↦ do
        ret ← forward_pending worker t id
        if is_zero ret
            then (do
              room ← worker_has_room worker
              if room
                  then (do
                    next ← has_pending t
                    sweep_types worker (t ∷ before) ts
                        (record p { ret = ret; more = p.more || next }))
                  else (do remove_from_contexts worker (t ∷ before); pure (record p { ret = ret })))
            else sweep_types worker (t ∷ before) ts (record p { ret = pos 0 })
    ]

  -- `while ( worker->FreeCapacity() > 0 && thereAreMoreRequests )`, for a number of rounds
  unfoldable pub sweep : ℕ → F → List ℕ → Progress → Op F Progress
  unfolding worker_has_room sweep_types undefined_by pure ◌>>=◌
  sweep zero worker types p = undefined_by out_of_rounds
  sweep (suc rounds) worker types p = do
    room ← worker_has_room worker
    if room && p.more
        then (do
          p' ← sweep_types worker [] types (record p { more = false })
          sweep rounds worker types p')
        else pure p

  -- A pass that asks for another one has given the worker a request, so the worker's room, when the
  -- loop begins, bounds the rounds.
  unfoldable pub sweep_all : F → List ℕ → Progress → Op F ℤ
  unfolding the_worker sweep pure ◌>>=◌
  sweep_all worker types p = do
    i ← the_worker worker
    p' ← sweep (suc (suc i.free_capacity)) worker types p
    pure p'.ret

  unfoldable pub update_contexts_for_new_worker : F → Op F ℤ
  unfolding the_worker register_types sweep_all ◌>>=◌
  update_contexts_for_new_worker worker = do
    i ← the_worker worker
    let types = i.supported_request_types
    p ← register_types worker [] types no_progress
    sweep_all worker types p

  -- `if ( !removedInProgressRequest && ( *it == type ) )`, in the context of `*it`
  unfoldable pub remove_finished : ℕ → ℕ → ℕ → Progress → Op F Progress
  unfolding on_context pure ◌>>=◌ Context.remove_in_progress_request
  remove_finished type id t p =
      if not p.removed && nat_beq t type
      then (do
        on_context t (Context.remove_in_progress_request id)
        pure (record p { removed = true }))
      else pure p

  -- the first loop of `updateContextsForFinishedWorker`; the waiting request is looked up before
  -- the finished one is removed
  unfoldable pub refill_types : F → ℕ → ℕ → List ℕ → List ℕ → Progress → Op F Progress
  unfolding find_context remove_finished forward_pending worker_has_room has_pending on_context
      remove_from_known_contexts pure ◌>>=◌ Context.get_next_pending_request
      Context.add_available_worker
  refill_types worker type id before [] p = pure p
  refill_types worker type id before (t ∷ ts) p = do
    found ← find_context t
    elim found [
      | none ↦ refill_types worker type id (t ∷ before) ts p
      | some c ↦ do
        p₁ ← remove_finished type id t p
        elim (Context.get_next_pending_request c) [
          | none ↦ do
            on_context t (Context.add_available_worker worker)
            refill_types worker type id (t ∷ before) ts p₁
          | some next_id ↦ do
            ret ← forward_pending worker t next_id
            if is_zero ret
                then (do
                  room ← worker_has_room worker
                  if room
                      then (do
                        on_context t (Context.add_available_worker worker)
                        next ← has_pending t
                        refill_types worker type id (t ∷ before) ts
                            (record p₁ { ret = ret; more = p₁.more || next }))
                      else (do
                        remove_from_known_contexts worker (t ∷ before)
                        pure (record p₁ { ret = ret })))
                else (do
                  on_context t (Context.add_available_worker worker)
                  refill_types worker type id (t ∷ before) ts
                      (record p₁ { ret = pos 0; more = true }))
        ]
    ]

  -- `if ( !removedInProgressRequest )`: the context of the finished request, if there is one
  unfoldable pub remove_unvisited : ℕ → ℕ → Bool → Op F (Unit {0})
  unfolding find_context on_context pure ◌>>=◌ Context.remove_in_progress_request
  remove_unvisited type id true = pure tt
  remove_unvisited type id false = do
    found ← find_context type
    elim found [ none ↦ pure tt | some _ ↦ on_context type (Context.remove_in_progress_request id) ]

  unfoldable pub update_contexts_for_finished_worker : F → ℕ → ℕ → Op F ℤ
  unfolding the_worker worker_has_room refill_types remove_unvisited sweep_all pure ◌>>=◌
  update_contexts_for_finished_worker worker type id = do
    i ← the_worker worker
    let types = i.supported_request_types
    p ←
        if has_capacity i.free_capacity
        then refill_types worker type id [] types no_progress
        else pure no_progress
    remove_unvisited type id p.removed
    sweep_all worker types p
