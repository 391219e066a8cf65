-- ===== src/Broker/Undo.antt =====
-- `forwardWorkerParsedClientRequest` of broker.cxx on a waiting request that cannot be sent.
use lhcluster.Common.{
  ℕ, ◌≡◌, refl, sym, ap, ◌∙◌, false, Option, some, length, arith, nat_eq, eq_iff,
}
use lhcluster.Common.Int.{is_zero}
use lhcluster.Common.Assoc
use lhcluster.Common.Assoc.{lookup-update, update-update, update-same}
use lhcluster.Wire.{Wire, Message, identity_eq}
use lhcluster.RequestState
use lhcluster.RequestState.{RequestState}
use lhcluster.Context
use lhcluster.Context.{Context}
use lhcluster.WorkerInfo.{WorkerInfo}
use lhcluster.Broker.State.{
  Broker, backend, returned, continue, ◌>>=◌, find_context, the_context, the_request, on_request,
  deref, pure, send, the_worker, lookup_worker_info,
}
use lhcluster.Broker.Forward.{for_worker, forward_pending}
use lhcluster.Broker.Requests.{after_sending, with_context, on_context_lem}

module _ {F : Type 0} ⦃w : Wire F⦄ where
  the_request_lem :
      (t id : ℕ) (b : Broker F) (c : Context F) (r : RequestState F)
      → Assoc.lookup t b.request_type_context_lookup ≡ some c
      → Context.get_request_state id c ≡ some r
      → the_request t id b ≡ (returned r, b)
  unfolding the_request find_context ◌>>=◌
  the_request_lem t id b c r context found = rw (context, continue, found, deref) refl

  on_request_lem :
      (t id : ℕ) (f : RequestState F → RequestState F) (b : Broker F) (c : Context F)
      (r : RequestState F)
      → Assoc.lookup t b.request_type_context_lookup ≡ some c
      → Context.get_request_state id c ≡ some r
      → on_request t id f b ≡ (returned tt, with_context t (Context.put_request id (f r) c) b)
  unfolding on_request ◌>>=◌
  on_request_lem t id f b c r context found =
      rw (the_request_lem t id b c r context found, continue)
        (on_context_lem t (Context.put_request id (f r)) b c context)

  -- Two writes to one request, of which the second restores it, leave the broker as it was.
  restored :
      (t id : ℕ) (b : Broker F) (c : Context F) (r changed : RequestState F)
      → Assoc.lookup t b.request_type_context_lookup ≡ some c
      → Context.get_request_state id c ≡ some r
      → with_context t
          (Context.put_request id r (Context.put_request id changed c))
          (with_context t (Context.put_request id changed c) b)
        ≡ b
  unfolding Context.put_request Context.get_request_state
  restored t id b c r changed context found =
      rw
        (
          update-update id r changed c.requests,
          update-same id r c.requests found,
          update-update t c (record c { requests = Assoc.update id changed c.requests })
              b.request_type_context_lookup,
          update-same t c b.request_type_context_lookup context,
        )
        refl

  -- the two writes, as the code makes them
  rewritten_lem :
      (t id : ℕ) (f g : RequestState F → RequestState F) (b : Broker F) (c : Context F)
      (r : RequestState F)
      → Assoc.lookup t b.request_type_context_lookup ≡ some c
      → Context.get_request_state id c ≡ some r
      → g (f r) ≡ r
      → on_request t id g (with_context t (Context.put_request id (f r) c) b) ≡ (returned tt, b)
  unfolding Context.put_request Context.get_request_state
  rewritten_lem t id f g b c r context found back =
      on_request_lem t id g (with_context t (Context.put_request id (f r) c) b)
        (Context.put_request id (f r) c) (f r)
        (lookup-update t t (Context.put_request id (f r) c) b.request_type_context_lookup
          ∙ ground (arith, context, eq_iff t t))
        (lookup-update id id (f r) c.requests ∙ ground (arith, found, eq_iff id id))
      ∙ ap (λ (x : Broker F). (returned tt, x))
          (ap
              (λ (x : RequestState F).
                with_context t (Context.put_request id x (Context.put_request id (f r) c))
                  (with_context t (Context.put_request id (f r) c) b))
              back
            ∙ restored t id b c r (f r) context found)

  -- A waiting request whose message cannot be sent to the worker stays as it is, with its message
  -- and its place in the queue, and so do its context, the worker and the rest of the broker.
  pub forward_pending-failed :
      (worker : F) (t id : ℕ) (m : Message F) (b : Broker F) (c : Context F) (r : RequestState F)
      (i : WorkerInfo F)
      → Assoc.lookup t b.request_type_context_lookup ≡ some c
      → Context.get_request_state id c ≡ some r
      → r.msg ≡ some m
      → Assoc.lookup worker b.worker_info_lookup ≡ some i
      → is_zero (b.answers (length b.sent)) ≡ false
      → forward_pending worker t id b ≡ (
        returned (b.answers (length b.sent)),
        after_sending
            (record {
              socket = backend;
              message = for_worker i.identity m;
              result = b.answers (length b.sent);
            })
            b,
      )
  unfolding forward_pending ◌>>=◌ the_context find_context the_worker lookup_worker_info send
      RequestState.update_message
  forward_pending-failed worker t id m b c r i context found kept there failed =
      let message = for_worker i.identity m in
      let b' =
        after_sending
          (record { socket = backend; message = message; result = b.answers (length b.sent) }) b in
      let f = RequestState.update_message (some message) in
      let g = RequestState.update_message (some m) in
      let back : g (f r) ≡ r = ap (λ (o : Option (Message F)). record r { msg = o }) (sym kept) in
      rw
        (
          context,
          continue,
          deref,
          the_request_lem t id b c r context found,
          there,
          kept,
          failed,
          on_request_lem t id f b' c r context found,
          rewritten_lem t id f g b' c r context found back,
          pure,
        )
        refl
