-- ===== src/Context.antt =====
-- liblhcluster/src/brokerrequesttypecontext.cxx: the requests of one type and the workers that can
-- take one. A `RequestState*` is the id under which `requests` owns the object; an operation on an
-- object that is not there, or through an iterator that is not in the queue, is undefined: `none`.
pub mod Queue
pub mod Links
use lhcluster.Common.{
  ℕ, zero, suc, ◌+◌, ◌≡◌, Bool, true, false, Option, some, none, List, [], ◌∷◌, ◌++◌, head?, add,
  remove, nat_beq, nat_eq, if◌then◌else◌, map, length,
}
use lhcluster.Common.Int.{ℤ, pos, negsuc, ◌+ℤ◌}
use lhcluster.Common.Assoc
use lhcluster.Cluster.{VersionFlags}
use lhcluster.Wire.{Wire, Message, identity_eq}
use lhcluster.RequestState
use lhcluster.RequestState.{RequestState}

pub record Context (F : Type 0) : Type 0 where
  pub total_workers : ℤ
  pub request_type : ℕ
  -- `std::unordered_set`: `begin()` is the head
  pub available_workers : List F
  -- `std::list`: an iterator and the request that it points to
  pub pending_client_requests : List (ℕ × ℕ)
  -- the iterator that the next insertion returns
  pub next_it : ℕ
  pub requests : List (ℕ × RequestState F)

-- `std::list::erase( it )`
unfoldable pub erase_it : ℕ → List (ℕ × ℕ) → Option (List (ℕ × ℕ))
erase_it it [] = none
erase_it it ((j, id) ∷ q) =
    if nat_beq j it
    then some q
    else elim (erase_it it q) [ none ↦ none | some r ↦ some ((j, id) ∷ r) ]

abbrev pub erase_cursor : Option ℕ → List (ℕ × ℕ) → Option (List (ℕ × ℕ))
erase_cursor none q = none
erase_cursor (some it) q = erase_it it q

module _ {F : Type 0} where
  unfoldable pub new_context : ℕ → Context F
  new_context type = record {
    total_workers = pos 0;
    request_type = type;
    available_workers = [];
    pending_client_requests = [];
    next_it = 0;
    requests = [];
  }

  abbrev pub num_requests_pending : Context F → ℕ
  num_requests_pending c = length c.pending_client_requests

  abbrev pub num_workers_available : Context F → ℕ
  num_workers_available c = length c.available_workers

  unfoldable pub increment_num_workers : Context F → Context F
  unfolding ◌+ℤ◌
  increment_num_workers c = record c { total_workers = c.total_workers +ℤ pos 1 }

  unfoldable pub decrement_num_workers : Context F → Context F
  unfolding ◌+ℤ◌
  decrement_num_workers c = record c { total_workers = c.total_workers +ℤ negsuc 0 }

  unfoldable pub get_request_state : ℕ → Context F → Option (RequestState F)
  unfolding Assoc.lookup
  get_request_state id c = Assoc.lookup id c.requests

  -- A write to the object that `requests` owns under the id.
  unfoldable pub put_request : ℕ → RequestState F → Context F → Context F
  unfolding Assoc.update
  put_request id r c = record c { requests = Assoc.update id r c.requests }

  unfoldable pub get_next_pending_request : Context F → Option ℕ
  get_next_pending_request c = elim (head? c.pending_client_requests) [
    | none ↦ none
    | some (_, id) ↦ some id
  ]

  unfoldable pub get_next_available_worker : Context F → Option F
  get_next_available_worker c = head? c.available_workers

  -- `emplace` keeps the object that is there under the id.
  unfoldable pub add_in_progress_request : ℕ → VersionFlags → F → Context F → Context F
  unfolding Assoc.emplace Assoc.lookup RequestState.new_in_progress
  add_in_progress_request id vfs worker c = record c {
    requests = Assoc.emplace id (RequestState.new_in_progress id vfs worker) c.requests;
  }

  unfoldable pub remove_in_progress_request : ℕ → Context F → Context F
  unfolding Assoc.erase
  remove_in_progress_request id c = record c { requests = Assoc.erase id c.requests }

  -- The end of the queue gets the request, and the request its place there.
  unfoldable pub back_to_pending : ℕ → RequestState F → Context F → Context F
  unfolding Assoc.update RequestState.set_queue_cursor
  back_to_pending id r c = record c {
    pending_client_requests = c.pending_client_requests ++ (c.next_it, id) ∷ [];
    next_it = c.next_it + 1;
    requests = Assoc.update id (RequestState.set_queue_cursor c.next_it r) c.requests;
  }

  -- `insert` keeps the object that is there under the id; the queue gets that one.
  unfoldable pub add_pending_request : ℕ → VersionFlags → Option (Message F) → Context F → Context F
  unfolding back_to_pending Assoc.emplace Assoc.lookup RequestState.new_pending
  add_pending_request id vfs msg c =
      let new = RequestState.new_pending id vfs msg in
      elim (Assoc.lookup id c.requests) [
        | none ↦ back_to_pending id new (record c { requests = Assoc.emplace id new c.requests })
        | some r ↦ back_to_pending id r c
      ]

  -- `AssignToOtherWorker`
  unfoldable pub assign_to_other_worker : ℕ → F → Context F → Option (Context F)
  unfolding get_request_state put_request RequestState.assign
  assign_to_other_worker id worker c = elim (get_request_state id c) [
    | none ↦ none
    | some r ↦ some (put_request id (RequestState.assign worker r) c)
  ]

  -- `AssignWorkerFromPending`
  unfoldable pub assign_worker_from_pending : ℕ → F → Context F → Option (Context F)
  unfolding get_request_state put_request erase_it RequestState.assign RequestState.queue_cursor
  assign_worker_from_pending id worker c = elim (get_request_state id c) [
    | none ↦ none
    | some r ↦ elim (erase_cursor (RequestState.queue_cursor r) c.pending_client_requests) [
      | none ↦ none
      | some q ↦
          some (
            put_request id (RequestState.assign worker r)
              (record c { pending_client_requests = q }))
    ]
  ]

module _ {F : Type 0} ⦃w : Wire F⦄ where
  unfoldable pub add_available_worker : F → Context F → Context F
  unfolding add
  add_available_worker worker c = record c { available_workers = add worker c.available_workers }

  unfoldable pub remove_available_worker : F → Context F → Context F
  unfolding remove
  remove_available_worker worker c = record c {
    available_workers = remove worker c.available_workers;
  }
