-- ===== src/Broker/Requests.antt =====
-- `handleClientRequest` of broker.cxx on the branches where no worker gets the request.
use lhcluster.Common.{ℕ, ◌≡◌, refl, false, Option, some, none, [], ◌∷◌, ◌++◌, length, nat_eq}
use lhcluster.Common.Int.{pos, is_zero}
use lhcluster.Common.Assoc
use lhcluster.Cluster.{VersionFlags, status_number, rejected, has_any}
use lhcluster.Cluster.MessageFlag
use lhcluster.Wire.{Wire, Message, identity_eq}
use lhcluster.Wire.Envelope.{AllFilled}
use lhcluster.RequestState.{RequestState}
use lhcluster.Context
use lhcluster.Context.{Context}
use lhcluster.WorkerInfo.{WorkerInfo}
use lhcluster.Broker.State.{
  Broker, Sent, frontend, backend, returned, continue, ◌>>=◌, ◌>>◌, find_context, the_context,
  on_context, set_context, modify, deref, pure, send, the_worker, lookup_worker_info,
}
use lhcluster.Broker.Parse.{RequestKey}
use lhcluster.Broker.Replies.{reject_request}
use lhcluster.Broker.Forward.{for_worker, forward_new, undo}
use lhcluster.Broker.Client.{
  handle_client_request, with_fields, forward_parsed_client_request, forward_known, forward_unknown,
}
use lhcluster.Broker.Reading.{
  FitsWire, request_frames, parse_client_request-request_frames, request_header-request_frames,
}

module _ {F : Type 0} ⦃w : Wire F⦄ where
  -- `b` after a call of `Send`.
  abbrev pub after_sending : Sent F → Broker F → Broker F
  after_sending s b = record b { sent = s ∷ b.sent }

  -- `b` with another context for the type.
  abbrev pub with_context : ℕ → Context F → Broker F → Broker F
  with_context t c b = record b {
    request_type_context_lookup = Assoc.update t c b.request_type_context_lookup;
  }

  pub on_context_lem :
      (t : ℕ) (f : Context F → Context F) (b : Broker F) (c : Context F)
      → Assoc.lookup t b.request_type_context_lookup ≡ some c
      → on_context t f b ≡ (returned tt, with_context t (f c) b)
  unfolding on_context the_context find_context set_context modify ◌>>=◌
  on_context_lem t f b c e = rw (e, deref, continue) refl

  queue_lem :
      (t id : ℕ) (vfs : VersionFlags) (m : Option (Message F)) (b : Broker F) (c : Context F)
      → Assoc.lookup t b.request_type_context_lookup ≡ some c
      → (do on_context t (Context.add_pending_request id vfs m); pure (pos 0)) b
        ≡ (returned (pos 0), with_context t (Context.add_pending_request id vfs m c) b)
  unfolding ◌>>=◌ continue pure
  queue_lem t id vfs m b c e =
      rw (on_context_lem t (Context.add_pending_request id vfs m) b c e) refl

  -- A new request whose message cannot be sent to the worker leaves the broker as it was, but for
  -- the call of `Send`, and the caller has its message again.
  pub forward_new-failed :
      (worker : F) (id : ℕ) (vfs : VersionFlags) (m : Message F) (t : ℕ) (b : Broker F)
      (c : Context F) (i : WorkerInfo F)
      → Assoc.lookup t b.request_type_context_lookup ≡ some c
      → Assoc.lookup worker b.worker_info_lookup ≡ some i
      → is_zero (b.answers (length b.sent)) ≡ false
      → forward_new worker id vfs (some m) (λ _. pure tt) t b ≡ (
        returned (b.answers (length b.sent), some m),
        after_sending
            (record {
              socket = backend;
              message = for_worker i.identity m;
              result = b.answers (length b.sent);
            })
            b,
      )
  unfolding forward_new ◌>>=◌ the_context find_context the_worker lookup_worker_info send
  forward_new-failed worker id vfs m t b c i context there failed =
      rw (context, there, deref, continue, failed, pure, undo) refl

module _ {F : Type 0} ⦃w : Wire F⦄ (env : Message F) (k : RequestKey) (data_frames : Message F)
    (b : Broker F) (c : Context F) (filled : AllFilled env) (fits : FitsWire k)
    (context : Assoc.lookup k.request_type b.request_type_context_lookup ≡ some c) where
  -- A request under a type and id that the broker has, where the one that it has may not be
  -- redirected, changes no context and no worker: the client gets its envelope and the key back,
  -- with the status `Rejected`.
  pub handle_client_request-duplicate :
      (r : RequestState F)
      → Context.get_request_state k.request_id c ≡ some r
      → has_any r.vfs MessageFlag.allow_redirect ≡ false
      → handle_client_request (env ++ w.null_frame ∷ request_frames k data_frames) b ≡ (
        returned (b.answers (length b.sent)),
        after_sending
            (record {
              socket = frontend;
              message =
                  (env ++ w.null_frame ∷ request_frames k [])
                  ++ w.put_u32 (status_number rejected) ∷ [];
              result = b.answers (length b.sent);
            })
            b,
      )
  unfolding handle_client_request ◌>>=◌ find_context
  handle_client_request-duplicate r known refused =
      rw
        (
          parse_client_request-request_frames env k data_frames filled fits,
          with_fields,
          forward_parsed_client_request,
          context,
          known,
          continue,
          forward_known,
          refused,
          reject_request,
          deref,
          request_header-request_frames env k data_frames filled,
          send,
          pure,
        )
        refl

  -- A request under a new id, where no worker is available for its type, goes to the end of the
  -- queue of its context, with its message and flags.
  pub handle_client_request-no_worker :
      Context.get_request_state k.request_id c ≡ none
      → Context.get_next_available_worker c ≡ none
      → handle_client_request (env ++ w.null_frame ∷ request_frames k data_frames) b ≡ (
        returned (pos 0),
        with_context k.request_type
            (Context.add_pending_request k.request_id k.vfs
              (some (env ++ w.null_frame ∷ request_frames k data_frames))
              c)
            b,
      )
  unfolding handle_client_request ◌>>=◌ find_context
  handle_client_request-no_worker new nobody =
      rw
        (
          parse_client_request-request_frames env k data_frames filled fits,
          with_fields,
          forward_parsed_client_request,
          context,
          new,
          nobody,
          continue,
          forward_unknown,
        )
        (queue_lem k.request_type k.request_id k.vfs _ b c context)

  -- A request under a new id whose worker cannot be reached goes to the end of the queue as well,
  -- with the message that the client sent: the frames for the worker are taken off again.
  pub handle_client_request-failed_send :
      (worker : F) (i : WorkerInfo F)
      → Context.get_request_state k.request_id c ≡ none
      → Context.get_next_available_worker c ≡ some worker
      → Assoc.lookup worker b.worker_info_lookup ≡ some i
      → is_zero (b.answers (length b.sent)) ≡ false
      → handle_client_request (env ++ w.null_frame ∷ request_frames k data_frames) b ≡ (
        returned (pos 0),
        with_context k.request_type
            (Context.add_pending_request k.request_id k.vfs
              (some (env ++ w.null_frame ∷ request_frames k data_frames))
              c)
            (after_sending
              (record {
                socket = backend;
                message =
                    for_worker i.identity (env ++ w.null_frame ∷ request_frames k data_frames);
                result = b.answers (length b.sent);
              })
              b),
      )
  unfolding handle_client_request ◌>>=◌ find_context
  handle_client_request-failed_send worker i new free there failed =
      rw
        (
          parse_client_request-request_frames env k data_frames filled fits,
          with_fields,
          forward_parsed_client_request,
          context,
          new,
          free,
          continue,
          forward_unknown,
          forward_new-failed worker k.request_id k.vfs
              (env ++ w.null_frame ∷ request_frames k data_frames) k.request_type b c i context
              there failed,
          failed,
        )
        (queue_lem k.request_type k.request_id k.vfs _ _ c context)
