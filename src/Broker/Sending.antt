-- ===== src/Broker/Sending.antt =====
-- The first overload of `forwardWorkerParsedClientRequest` of broker.cxx where the worker gets the
-- request.
use lhcluster.Common.{ℕ, ◌≡◌, refl, ap, ◌∙◌, true, some, none, List, length, arith, nat_eq, eq_iff}
use lhcluster.Common.Int.{ℤ, is_zero}
use lhcluster.Common.Assoc
use lhcluster.Common.Assoc.{lookup-update, update-update}
use lhcluster.Cluster.{VersionFlags}
use lhcluster.Wire.{Wire, Message, identity_eq}
use lhcluster.Context
use lhcluster.Context.{Context}
use lhcluster.WorkerInfo
use lhcluster.WorkerInfo.{WorkerInfo, has_capacity}
use lhcluster.Broker.State.{
  Broker, backend, returned, continue, ◌>>=◌, find_context, the_context, deref, pure, gets, modify,
  send, the_worker, on_worker, lookup_worker_info,
}
use lhcluster.Broker.Replies.{copy_request_for_flags}
use lhcluster.Broker.Forward.{for_worker, forward_new, handle_copy}
use lhcluster.Broker.Requests.{after_sending, with_context, on_context_lem}

module _ {F : Type 0} ⦃w : Wire F⦄ where
  -- `b` with another record for the worker.
  abbrev pub with_worker : F → WorkerInfo F → Broker F → Broker F
  with_worker v i b = record b { worker_info_lookup = Assoc.update v i b.worker_info_lookup }

  on_worker_lem :
      (v : F) (f : WorkerInfo F → WorkerInfo F) (b : Broker F) (i : WorkerInfo F)
      → Assoc.lookup v b.worker_info_lookup ≡ some i
      → on_worker v f b ≡ (returned tt, with_worker v (f i) b)
  unfolding on_worker the_worker lookup_worker_info modify ◌>>=◌
  on_worker_lem v f b i e = rw (e, deref, continue) refl

  again_lem :
      (v : F) (g : WorkerInfo F → WorkerInfo F) (b : Broker F) (i j : WorkerInfo F)
      → Assoc.lookup v b.worker_info_lookup ≡ some i
      → on_worker v g (with_worker v j b) ≡ (returned tt, with_worker v (g j) b)
  again_lem v g b i j e =
      on_worker_lem v g (with_worker v j b) j
        (lookup-update v v j b.worker_info_lookup ∙ ground (arith, e, eq_iff v v))
      ∙ ap (λ (l : List (F × WorkerInfo F)). (returned tt, record b { worker_info_lookup = l }))
          (update-update v (g j) j b.worker_info_lookup)

  -- the worker's record once it has got the request
  abbrev pub busy : ℕ → ℕ → ℕ → ℤ → WorkerInfo F → WorkerInfo F
  busy request_type context_type id now i =
      WorkerInfo.update_worker_last_active now
        (WorkerInfo.add_in_progress_request request_type (context_type, id) i)

  -- the broker once the worker has got the request
  abbrev pub given : F → ℕ → VersionFlags → ℕ → Context F → WorkerInfo F → Broker F → Broker F
  given worker id vfs t c i b =
      with_worker worker (busy c.request_type t id b.current_time i)
        (with_context t (Context.add_in_progress_request id vfs worker c) b)

  pub forward_new-sent :
      (worker : F) (id : ℕ) (vfs : VersionFlags) (m : Message F) (t : ℕ) (b : Broker F)
      (c : Context F) (i : WorkerInfo F)
      → Assoc.lookup t b.request_type_context_lookup ≡ some c
      → Assoc.lookup worker b.worker_info_lookup ≡ some i
      → is_zero (b.answers (length b.sent)) ≡ true
      → copy_request_for_flags vfs m ≡ none
      → forward_new worker id vfs (some m) (λ _. pure tt) t b ≡ (
        returned (b.answers (length b.sent), none),
        after_sending
            (record {
              socket = backend;
              message = for_worker i.identity m;
              result = b.answers (length b.sent);
            })
            (given worker id vfs t c i b),
      )
  unfolding forward_new ◌>>=◌ the_context find_context the_worker lookup_worker_info send gets
  forward_new-sent worker id vfs m t b c i context there sent no_copy =
      let s =
        after_sending
          (record {
            socket = backend;
            message = for_worker i.identity m;
            result = b.answers (length b.sent);
          })
          b in
      let taken = WorkerInfo.add_in_progress_request c.request_type (t, id) in
      let active = WorkerInfo.update_worker_last_active b.current_time in
      let s' = with_context t (Context.add_in_progress_request id vfs worker c) s in
      rw
        (
          context,
          there,
          deref,
          continue,
          sent,
          no_copy,
          pure,
          on_context_lem t (Context.add_in_progress_request id vfs worker) s c context,
          on_worker_lem worker taken s' i there,
          again_lem worker active s' i (taken i) there,
          handle_copy,
        )
        refl
