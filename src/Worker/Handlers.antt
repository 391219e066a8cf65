-- ===== src/Worker/Handlers.antt =====
-- What the handlers of liblhcluster/src/worker.cxx do to the records of the requests.
use lhcluster.Common.{
  ℕ, ◌≡◌, ap, ◌∙◌, inl, inr, Option, some, none, contains, nat_beq, nat_eq, pair_eq, arith,
  Option-cases, Bool-cases,
}
use lhcluster.Common.Int.{ℤ, pos, is_zero}
use lhcluster.Common.Assoc
use lhcluster.Cluster.{status_number, fatal_error}
use lhcluster.Wire.{Wire, Message}
use lhcluster.Action.{pure, gets, modify, continue, ◌>>=◌, ◌>>◌, next_answer}
use lhcluster.Action.Keeps.{
  Keeps, Keeps-modify, Keeps-bind, Keeps-with_fields, with_fields_at, keeping,
}
use lhcluster.Worker.State.{
  Worker, WorkerExitState, Socket, ClientRequestContext, WorkerRequestTypeContext, key,
  set_exit_state, update_current_time, update_worker_last_active, update_broker_last_active, send,
  find_type_context, find_context, put_type_context, put_context, insert_context, erase_context,
  request_has_finished, received_unsupported_request,
}
use lhcluster.Worker.Parse.{RequestHead, parse_request_head, parse_request_id, parse_response}
use lhcluster.Worker.Requests.{
  request_redirected, send_receipt, forward_request, finish_request, take_request, take_response,
  handle_broker_new_request, handle_processor_message, new_context,
}
use lhcluster.Worker.Tracking.{
  Tracks, Tracks-begin, Tracks-finish, Tracks-drop, Tracks-redirect, in_progress,
}

module _ {F : Type 0} where
  abbrev pub IsTracking : Worker F → Type 0
  IsTracking s = Tracks s.request_type_contexts s.request_contexts

  pub set_exit_state-Keeps : (e : WorkerExitState) → Keeps IsTracking (set_exit_state {F = F} e)
  unfolding set_exit_state
  set_exit_state-Keeps e = Keeps-modify _ (λ s h. record { same = h.same })

  pub update_current_time-Keeps : (now : ℤ) → Keeps IsTracking (update_current_time {F = F} now)
  unfolding update_current_time
  update_current_time-Keeps now = Keeps-modify _ (λ s h. record { same = h.same })

  pub update_worker_last_active-Keeps : Keeps IsTracking (update_worker_last_active {F = F})
  unfolding update_worker_last_active
  update_worker_last_active-Keeps = Keeps-modify _ (λ s h. record { same = h.same })

  pub update_broker_last_active-Keeps : Keeps IsTracking (update_broker_last_active {F = F})
  unfolding update_broker_last_active
  update_broker_last_active-Keeps = Keeps-modify _ (λ s h. record { same = h.same })

  pub send-Keeps : (k : Socket) (m : Message F) → Keeps IsTracking (send k m)
  unfolding send ◌>>=◌ gets modify continue pure
  send-Keeps k m = record { at = λ s h. record { same = h.same } }

  send_receipt-Keeps : (receipt : Option (Message F)) → Keeps IsTracking (send_receipt receipt)
  unfolding send_receipt
  send_receipt-Keeps none = search keeping depth 4
  send_receipt-Keeps (some m) = search (keeping, send-Keeps) depth 6

  receipt_last-Keeps :
      (receipt : Option (Message F)) (ret : ℤ) → Keeps IsTracking (send_receipt receipt >> pure ret)
  receipt_last-Keeps receipt ret = search (keeping, send_receipt-Keeps) depth 4

  forward_request-tracks :
      (c : WorkerRequestTypeContext) (x : ClientRequestContext F) (body : Message F)
      (receipt : Option (Message F)) (s : Worker F)
      → IsTracking s
      → Assoc.lookup x.request_type s.request_type_contexts ≡ some c
      → IsTracking (forward_request c x body receipt s).1
  unfolding forward_request request_redirected ◌>>=◌ gets modify continue find_context send
      put_context pure put_type_context insert_context set_exit_state
  forward_request-tracks c x body receipt s h e =
      elim (Option-cases (Assoc.lookup (key x) s.request_contexts)) [
        | inr (old, found) ↦
            rw (found, continue)
              ((receipt_last-Keeps receipt (pos 0)).at _
                (record { same = (Tracks-redirect _ _ (key x) _ h).same }))
        | inl missing ↦ elim (Bool-cases (is_zero (next_answer s.network))) [
          | inl sent ↦
              rw (missing, continue, sent)
                ((receipt_last-Keeps receipt (pos 0)).at _
                  (record { same = (Tracks-begin _ _ c x h e).same }))
          | inr failed ↦ rw (missing, continue, failed) (record { same = h.same })
        ]
      ]

  finish_request-tracks :
      (c : WorkerRequestTypeContext) (x : ClientRequestContext F) (type id status : ℕ)
      (m : Message F) (s : Worker F) ⦃w : Wire F⦄
      → IsTracking s
      → Assoc.lookup type s.request_type_contexts ≡ some c
      → IsTracking
          ((finish_request c x type id status m >>= λ ret. erase_context (type, id) >> pure ret)
            s).1
  unfolding finish_request ◌>>=◌ gets modify continue send update_worker_last_active pure
      put_type_context erase_context set_exit_state
  finish_request-tracks c x type id status m s h e =
      let done : Tracks (Assoc.update type (request_has_finished id c) s.request_type_contexts)
          (Assoc.erase (type, id) s.request_contexts) =
        Tracks-finish _ _ c type id h e in
      elim (Bool-cases (is_zero (next_answer s.network))) [
        | inl sent ↦ elim (Bool-cases (nat_beq status (status_number fatal_error))) [
          | inl fatal ↦ rw (sent, continue, fatal) done
          | inr other ↦ rw (sent, continue, other) done
        ]
        | inr failed ↦ elim (Bool-cases (nat_beq status (status_number fatal_error))) [
          | inl fatal ↦ rw (failed, continue, fatal) done
          | inr other ↦ rw (failed, continue, other) done
        ]
      ]

module _ {F : Type 0} ⦃w : Wire F⦄ where
  take_request-Keeps : (head : RequestHead F) → Keeps IsTracking (take_request head)
  unfolding take_request ◌>>=◌ find_type_context gets
  take_request-Keeps head = record {
    at = λ s h. elim (Option-cases (Assoc.lookup head.request_type s.request_type_contexts)) [
      | inl missing ↦
          rw (missing, continue) ((set_exit_state-Keeps received_unsupported_request).at s h)
      | inr (c, found) ↦
          rw (found, continue)
            (with_fields_at IsTracking (parse_request_id head.behind) _ s h
              (λ i. forward_request-tracks c (new_context head i.1) head.body _ s h found))
    ];
  }

  pub handle_broker_new_request-Keeps :
      (m : Message F) → Keeps IsTracking (handle_broker_new_request m)
  unfolding handle_broker_new_request
  handle_broker_new_request-Keeps m =
      Keeps-with_fields (parse_request_head m) take_request take_request-Keeps

  take_response-Keeps :
      (type id status : ℕ) (m : Message F) → Keeps IsTracking (take_response type id status m)
  unfolding take_response ◌>>=◌ find_type_context find_context gets erase_context modify
      put_type_context
  take_response-Keeps type id status m = record {
    at = λ s h. elim (Option-cases (Assoc.lookup type s.request_type_contexts)) [
      | inl no_type ↦ elim (Option-cases (Assoc.lookup (type, id) s.request_contexts)) [
        | inl missing ↦ rw (no_type, missing, continue) h
        | inr (x, found) ↦
            rw (no_type, found, continue)
              (Tracks-drop _ _ type id h (ap (λ o. in_progress o id) no_type))
      ]
      | inr (c, known) ↦ elim (Option-cases (Assoc.lookup (type, id) s.request_contexts)) [
        | inl missing ↦ elim (Bool-cases (contains c.in_progress_requests id)) [
          | inl there ↦ absurd (ground (arith, h.same type id))
          | inr gone ↦ rw (known, missing, continue, gone) h
        ]
        | inr (x, found) ↦ elim (Bool-cases (contains c.in_progress_requests id)) [
          | inl there ↦
              rw (known, found, continue, there)
                (finish_request-tracks c x type id status m s h known)
          | inr gone ↦
              rw (known, found, continue, gone)
                (Tracks-drop _ _ type id h (ap (λ o. in_progress o id) known ∙ gone))
        ]
      ]
    ];
  }

  pub handle_processor_message-Keeps :
      (m : Message F) → Keeps IsTracking (handle_processor_message m)
  unfolding handle_processor_message
  handle_processor_message-Keeps m =
      Keeps-with_fields (parse_response m) _
        λ r. take_response-Keeps r.0.request_type r.0.request_id r.1 m

pub ruleset worker_keeping = (
  keeping, set_exit_state-Keeps, update_current_time-Keeps, update_worker_last_active-Keeps,
  update_broker_last_active-Keeps, send-Keeps, handle_broker_new_request-Keeps,
  handle_processor_message-Keeps,
)
