-- ===== src/RequestState.antt =====
-- liblhcluster/src/requeststate.cxx and requeststate.h: what the broker knows of one request.
-- Pointers are names: a `WorkerInfo*` is the worker's identity frame, a `std::list` iterator is a
-- number that the list gives out once, and `ZMQMessage*` is an option, `none` for a null pointer.
use lhcluster.Common.{ℕ, ◌+◌, ◌%◌, ◌^◌, Bool, true, false, ◌||◌, Option, some, none, leb, ltb}
use lhcluster.Cluster.{VersionFlags}
use lhcluster.Wire.{Message}

-- `enum class RequestStateFlag`
pub data RequestStateFlag : Type 0 where
  no_state pending in_progress : RequestStateFlag

-- The union `state`, with the member that was written last.
pub data Link (F : Type 0) : Type 0 where
  unset : Link F
  list_it : ℕ → Link F
  assigned_worker : F → Link F

pub record RequestState (F : Type 0) : Type 0 where
  pub request_id : ℕ
  pub flag : RequestStateFlag
  pub vfs : VersionFlags
  pub msg : Option (Message F)
  pub try_count : ℕ  -- a `short`, as its 16 bits
  pub state : Link F

-- `++tryCount`
abbrev pub next_try : ℕ → ℕ
next_try n = (n + 1) % 2 ^ 16

-- `tryCount < k` for a `short`: 2 ^ 15 and above stand for negative numbers.
abbrev pub try_lt : ℕ → ℕ → Bool
try_lt n k = leb (2 ^ 15) n || ltb n k

module _ {F : Type 0} where
  -- the constructor for a request that waits
  unfoldable pub new_pending : ℕ → VersionFlags → Option (Message F) → RequestState F
  new_pending id vfs msg = record {
    request_id = id;
    flag = pending;
    vfs = vfs;
    msg = msg;
    try_count = 0;
    state = unset;
  }

  -- the constructor for a request that a worker has
  unfoldable pub new_in_progress : ℕ → VersionFlags → F → RequestState F
  new_in_progress id vfs worker = record {
    request_id = id;
    flag = in_progress;
    vfs = vfs;
    msg = none;
    try_count = 1;
    state = assigned_worker worker;
  }

  unfoldable pub is_in_progress : RequestState F → Bool
  is_in_progress r = elim r.flag [ in_progress ↦ true | _ ↦ false ]

  unfoldable pub is_pending : RequestState F → Bool
  is_pending r = elim r.flag [ pending ↦ true | _ ↦ false ]

  unfoldable pub assign : F → RequestState F → RequestState F
  assign worker r = record r {
    flag = in_progress;
    state = assigned_worker worker;
    try_count = next_try r.try_count;
  }

  -- `UpdateRequest( lpMsg )`
  unfoldable pub update_message : Option (Message F) → RequestState F → RequestState F
  update_message msg r = record r { msg = msg }

  -- `UpdateRequest( vfs )`
  unfoldable pub update_flags : VersionFlags → RequestState F → RequestState F
  update_flags vfs r = record r { vfs = vfs }

  -- `UpdateRequest( lpMsg, vfs )`; `SetRequest` writes the same fields, without freeing the old message
  unfoldable pub update_request :
      Option (Message F) → VersionFlags → RequestState F → RequestState F
  update_request msg vfs r = record r { msg = msg; vfs = vfs }

  unfoldable pub set_request : Option (Message F) → VersionFlags → RequestState F → RequestState F
  set_request msg vfs r = record r { msg = msg; vfs = vfs }

  unfoldable pub set_queue_cursor : ℕ → RequestState F → RequestState F
  set_queue_cursor it r = record r { flag = pending; state = list_it it }

  -- `GetQueueCursor`; reading the other member of the union is undefined
  unfoldable pub queue_cursor : RequestState F → Option ℕ
  queue_cursor r = elim r.state [ list_it it ↦ some it | _ ↦ none ]

  -- `GetAssignedWorker`
  unfoldable pub get_assigned_worker : RequestState F → Option F
  get_assigned_worker r = elim r.state [ assigned_worker worker ↦ some worker | _ ↦ none ]
