-- ===== src/Broker/Waiting.antt =====
-- `handleClientRequest` of broker.cxx where no worker can take the request: what the broker then has.
use lhcluster.Common.{
  ℕ, ◌+◌, ◌≡◌, refl, ◌∙◌, Option, some, none, List, [], ◌∷◌, ◌++◌, nat_eq, eq_refl,
}
use lhcluster.Common.Int.{pos}
use lhcluster.Common.Assoc
use lhcluster.Common.Assoc.{update-update}
use lhcluster.Cluster.{VersionFlags}
use lhcluster.Wire.{Wire, Message}
use lhcluster.Wire.Envelope.{AllFilled}
use lhcluster.RequestState
use lhcluster.RequestState.{RequestState, Link, list_it}
use lhcluster.Context
use lhcluster.Context.{Context}
use lhcluster.Broker.State.{
  Broker, returned, continue, pure, ◌>>=◌, find_context, insert_context, modify,
}
use lhcluster.Broker.Parse.{RequestKey}
use lhcluster.Broker.Client.{handle_client_request, with_fields, forward_parsed_client_request}
use lhcluster.Broker.Reading.{FitsWire, request_frames, parse_client_request-request_frames}
use lhcluster.Broker.Requests.{on_context_lem, handle_client_request-no_worker}

pub emplace_new :
    {A : Type 0} (t : ℕ) (c : A) (cs : List (ℕ × A))
    → Assoc.lookup t cs ≡ none
    → Assoc.emplace t c cs ≡ (t, c) ∷ cs
unfolding Assoc.emplace
emplace_new t c cs new = rw (Assoc.emplace, new) refl

module _ {F : Type 0} where
  -- The request, waiting at this place of the queue with the client's message.
  abbrev pub waiting_at : ℕ → ℕ → VersionFlags → Message F → RequestState F
  waiting_at it id vfs m = record {
    request_id = id;
    flag = RequestState.pending;
    vfs = vfs;
    msg = some m;
    try_count = 0;
    state = list_it it;
  }

  -- The context with the request at the end of its queue.
  abbrev pub queued : ℕ → VersionFlags → Message F → Context F → Context F
  queued id vfs m c = record c {
    pending_client_requests = c.pending_client_requests ++ (c.next_it, id) ∷ [];
    next_it = c.next_it + 1;
    requests = (id, waiting_at c.next_it id vfs m) ∷ c.requests;
  }

  add_pending_request-queued :
      (id : ℕ) (vfs : VersionFlags) (m : Message F) (c : Context F)
      → Assoc.lookup id c.requests ≡ none
      → Context.add_pending_request id vfs (some m) c ≡ queued id vfs m c
  unfolding Context.add_pending_request Context.back_to_pending Assoc.emplace Assoc.update
      RequestState.new_pending RequestState.set_queue_cursor
  add_pending_request-queued id vfs m c new =
      rw
        (
          Context.add_pending_request,
          new,
          emplace_new id (RequestState.new_pending id vfs (some m)) c.requests new,
          eq_refl id,
        )
        refl

  -- The context of a type that the broker does not have yet: no worker, no request.
  abbrev pub empty_context : ℕ → Context F
  empty_context type = record {
    total_workers = pos 0;
    request_type = type;
    available_workers = [];
    pending_client_requests = [];
    next_it = 0;
    requests = [];
  }

  -- No worker of the type can take a request under this id, which the broker does not have.
  abbrev pub NoneServes : ℕ → Option (Context F) → Type 0
  NoneServes id none = Unit {0}
  NoneServes id (some c) = (Assoc.lookup id c.requests ≡ none) × (c.available_workers ≡ [])

  -- The broker once the request waits; a type that it does not have gets a context.
  abbrev pub waits : Option (Context F) → ℕ → ℕ → VersionFlags → Message F → Broker F → Broker F
  waits none type id vfs m b = record b {
    request_type_context_lookup =
        (type, queued id vfs m (empty_context type)) ∷ b.request_type_context_lookup;
  }
  waits (some c) type id vfs m b = record b {
    request_type_context_lookup =
        Assoc.update type (queued id vfs m c) b.request_type_context_lookup;
  }

module _ {F : Type 0} ⦃w : Wire F⦄ where
  -- A request under an id that the broker does not have, of a type that is new or has no available
  -- worker, is kept: the type has a context, whose queue ends with the request, and the request is there
  -- under its id, pending, with its flags, the client's whole message, no try and its place in the
  -- queue. Nothing is sent, and nothing else changes.
  pub handle_client_request-waits :
      (found : Option (Context F)) (env : Message F) (k : RequestKey) (data_frames : Message F)
      (b : Broker F)
      → AllFilled env
      → FitsWire k
      → Assoc.lookup k.request_type b.request_type_context_lookup ≡ found
      → NoneServes k.request_id found
      → let m = env ++ w.null_frame ∷ request_frames k data_frames in
        handle_client_request m b
        ≡ (returned (pos 0), waits found k.request_type k.request_id k.vfs m b)
  unfolding handle_client_request insert_context modify find_context ◌>>=◌ continue pure
      Context.get_request_state Context.get_next_available_worker Assoc.emplace Assoc.update
      Assoc.lookup Context.new_context
  handle_client_request-waits none env k data_frames b filled fits unknown h =
      let m = env ++ w.null_frame ∷ request_frames k data_frames in
      let empty : Context F = empty_context k.request_type in
      let add = Context.add_pending_request k.request_id k.vfs (some m) in
      let opened : Broker F = record b {
        request_type_context_lookup = (k.request_type, empty) ∷ b.request_type_context_lookup;
      } in
      let there : Assoc.lookup k.request_type opened.request_type_context_lookup ≡ some empty =
        rw (eq_refl k.request_type) refl in
      let emplaced = emplace_new k.request_type empty b.request_type_context_lookup unknown in
      rw
        (
          parse_client_request-request_frames env k data_frames filled fits,
          with_fields,
          forward_parsed_client_request,
          unknown,
          continue,
        )
        (rw (emplaced) (
          rw (on_context_lem k.request_type add opened empty there, continue)
            (rw (eq_refl k.request_type, add_pending_request-queued k.request_id k.vfs m empty refl)
              refl)))
  handle_client_request-waits (some c) env k data_frames b filled fits known h =
      let m = env ++ w.null_frame ∷ request_frames k data_frames in
      handle_client_request-no_worker env k data_frames b c filled fits known h.0 (rw (h.1) refl)
      ∙ rw (add_pending_request-queued k.request_id k.vfs m c h.0) refl
