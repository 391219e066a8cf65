-- ===== src/Broker/Taken.antt =====
-- `handleClientRequest` of broker.cxx where a worker takes the request: what the broker then has.
use lhcluster.Common.{ℕ, some, none, List, [], ◌∷◌, length, remove, nat_eq}
use lhcluster.Common.Assoc
use lhcluster.Cluster.{VersionFlags}
use lhcluster.Wire.{Wire, Message, identity_eq}
use lhcluster.RequestState
use lhcluster.RequestState.{RequestState, assigned_worker}
use lhcluster.Context
use lhcluster.Context.{Context}
use lhcluster.WorkerInfo
use lhcluster.WorkerInfo.{WorkerInfo}
use lhcluster.Broker.State.{Broker, backend}
use lhcluster.Broker.Parse.{RequestKey}
use lhcluster.Broker.Forward.{for_worker}
use lhcluster.Broker.Requests.{after_sending, with_context}
use lhcluster.Broker.Sending.{with_worker, busy}

module _ {F : Type 0} ⦃w : Wire F⦄ where
  -- The context without the worker among those available.
  abbrev pub unavailable : F → Context F → Context F
  unavailable worker c = record c { available_workers = remove worker c.available_workers }

  -- The broker with the worker available for none of these types.
  abbrev pub left : F → List ℕ → Broker F → Broker F
  left worker [] b = b
  left worker (t ∷ ts) b = left worker ts (elim (Assoc.lookup t b.request_type_context_lookup) [
    | none ↦ b
    | some c ↦ with_context t (unavailable worker c) b
  ])

  -- The request, in progress at the worker, and the context that has it.
  abbrev pub in_progress_at : F → ℕ → VersionFlags → Context F → Context F
  in_progress_at worker id vfs c = record c {
    requests =
        (
          id,
          record {
            request_id = id;
            flag = RequestState.in_progress;
            vfs = vfs;
            msg = none;
            try_count = 1;
            state = assigned_worker worker;
          },
        )
        ∷ c.requests;
  }

  -- The broker once the worker has got the request: it is in progress, and the worker has one place less.
  abbrev pub taken : F → RequestKey → Context F → WorkerInfo F → Message F → Broker F → Broker F
  taken worker k c i m b =
      with_worker worker (busy c.request_type k.request_type k.request_id b.current_time i) (
        with_context k.request_type (in_progress_at worker k.request_id k.vfs c) (
          after_sending
            (record {
              socket = backend;
              message = for_worker i.identity m;
              result = b.answers (length b.sent);
            })
            b))
