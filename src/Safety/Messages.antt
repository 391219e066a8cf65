-- ===== src/Safety/Messages.antt =====
-- The handlers of messages in broker.cxx, from a consistent state.
use lhcluster.Common.{
  ℕ, ◌≡◌, sym, ap, ◌∙◌, true, some, none, [], ◌∷◌, contains, arith, nat_eq, eq_iff, if◌then◌else◌,
  Option-cases, inl, inr,
}
use lhcluster.Common.Int.{ℤ, pos, pos_part}
use lhcluster.Common.Assoc
use lhcluster.Common.Assoc.{lookup-emplace}
use lhcluster.Cluster.{VersionFlags, has_any}
use lhcluster.Cluster.MessageFlag
use lhcluster.Wire.{Wire, Message, identity_eq}
use lhcluster.Context
use lhcluster.Context.{Context}
use lhcluster.WorkerInfo
use lhcluster.WorkerInfo.{WorkerInfo}
use lhcluster.Broker.State.{
  Broker, Op, returned, continue, ◌>>=◌, ◌>>◌, pure, gets, throw, lookup_worker_info,
  insert_worker_info, modify, find_context, insert_context,
}
use lhcluster.Broker.Parse.{
  Parsed, parsed, malformed, unparsable, parse_worker_ready, Ready, parse_worker_finished,
}
use lhcluster.Broker.Replies.{handle_client_heartbeat, send_heartbeat}
use lhcluster.Broker.Client.{with_fields, forward_parsed_client_request, handle_client_request}
use lhcluster.Broker.Worker.{
  handle_worker_ready, handle_worker_heartbeat, finish_request, handle_worker_finished,
  handle_worker_receipt,
}
use lhcluster.Broker.Availability.{update_contexts_for_new_worker}
use lhcluster.Safety.Rules.{
  is_some, has_context, types_of, available_in, is_available, Stays-bind, Stays-pure, Stays-gets,
  Stays-undefined_by, Stays-option,
}
use lhcluster.Safety.Actions.{Stays-lookup}
use lhcluster.Safety.Handlers.{basic, add_pending-Stays, worker_active-Stays}
use lhcluster.Safety.Clients.{picked_available, forward_known-Stays, forward_unknown-Stays}
use lhcluster.Safety.Rounds.{update_contexts_for_finished_worker-Stays}
use lhcluster.Safety.Consistent.{
  supports, lists, IsConsistent, Preserves, types_open, knows_supported, Stays-Preserves,
  Preserves-bind, Preserves-pure, Ensures, continue-Ensures,
}
use lhcluster.Safety.Entering.{Entered, enter-Ensures, ends-IsConsistent}
use lhcluster.Safety.Answers.{
  answer, finished-Stays, with_fields-Stays, answer-Stays, heartbeat-Stays, receipt-Stays,
}

module _ {F : Type 0} ⦃w : Wire F⦄ where
  inserted-IsConsistent :
      (t : ℕ) (b : Broker F)
      → Assoc.lookup t b.request_type_context_lookup ≡ none
      → IsConsistent b
      → IsConsistent (insert_context t b).1 × (has_context t (insert_context t b).1 ≡ true)
  unfolding insert_context modify has_context is_available supports types_of Context.new_context
      contains
  inserted-IsConsistent t b missing h =
      let look =
        λ (j : ℕ). lookup-emplace t j (Context.new_context t) b.request_type_context_lookup in
      (
        record {
          available = λ j v p.
              ground (arith, sym (ap (λ o. available_in o v) (look j)) ∙ p, h.available j v);
          covered = λ j v p. ap is_some (look j) ∙ ground (arith, h.covered j v p);
          distinct = h.distinct;
        },
        ap is_some (look t) ∙ ground (arith, missing, eq_iff t t),
      )

  forward_parsed_client_request-Preserves :
      (vfs : VersionFlags) (type id : ℕ) (m : Message F)
      → Preserves (forward_parsed_client_request vfs type id m)
  unfolding forward_parsed_client_request ◌>>=◌ find_context has_context is_available
  forward_parsed_client_request-Preserves vfs type id m = record {
    at = λ b h. elim (Option-cases (Assoc.lookup type b.request_type_context_lookup)) [
      | inl e ↦
          let new = inserted-IsConsistent type b e h in
          rw (e, continue)
            (ends-IsConsistent (insert_context type b).1 _ new.0 (
              Stays-bind _ _ (add_pending-Stays type id vfs (some m) new.1)
                (λ _. Stays-pure (pos 0))))
      | inr (c, e) ↦
          let there = ap is_some e in
          rw (e, continue)
            (ends-IsConsistent b _ h (
              Stays-option (Context.get_request_state id c) _ _
                (λ missing.
                  forward_unknown-Stays (Context.get_next_available_worker c) vfs type id m there
                    λ v picked. knows_supported b type v (
                      h.available type v
                        (ap (λ o. available_in o v) e ∙ picked_available c v picked)))
                (λ r found. forward_known-Stays r vfs type id m there)))
    ];
  }

  with_fields-Preserves :
      {A : Type 0} (p : Parsed A) (k : A → Op F ℤ)
      → ((a : A) → Preserves (k a))
      → Preserves (with_fields p k)
  unfolding with_fields throw pure
  with_fields-Preserves (parsed a) k h = h a
  with_fields-Preserves (malformed code) k h = record { at = λ b g. (tt, λ x e. g) }
  with_fields-Preserves unparsable k h = record { at = λ b g. (tt, λ x e. g) }

  pub handle_client_request-Preserves : (m : Message F) → Preserves (handle_client_request m)
  unfolding handle_client_request
  handle_client_request-Preserves m =
      with_fields-Preserves _ _
        (λ k. forward_parsed_client_request-Preserves k.vfs k.request_type k.request_id m)

  pub handle_client_heartbeat-Preserves : (m : Message F) → Preserves (handle_client_heartbeat m)
  unfolding handle_client_heartbeat send_heartbeat
  handle_client_heartbeat-Preserves [] = Stays-Preserves _ (λ b h. Stays-undefined_by _ tt)
  handle_client_heartbeat-Preserves (identity ∷ m) = Stays-Preserves _ (λ b h. search basic depth 8)

  finish_request-Preserves : (worker : F) (type id : ℕ) → Preserves (finish_request worker type id)
  unfolding finish_request
  finish_request-Preserves worker type id = Stays-Preserves _ λ b h.
      Stays-lookup worker _ _ (λ e. Stays-pure tt)
        λ i e.
          let known = ap is_some e in
          Stays-bind _ _ (Stays-gets _) λ now.
            Stays-bind _ _ (worker_active-Stays worker now known) λ _.
              Stays-bind _ _ (finished-Stays worker type id known) λ _.
                Stays-bind _ _
                  (update_contexts_for_finished_worker-Stays worker known type id
                    (λ ts e'. types_open b worker ts ts h e' (λ t p. p)))
                  (λ _. Stays-pure tt)

  pub handle_worker_finished-Preserves :
      (worker : F) (m : Message F) → Preserves (handle_worker_finished worker m)
  unfolding handle_worker_finished
  handle_worker_finished-Preserves worker m = with_fields-Preserves (parse_worker_finished m) _ λ k.
      Preserves-bind (if has_any k.vfs MessageFlag.asynchronous then pure (pos 0) else answer m) _
        (Stays-Preserves _ (λ b h. search (basic, answer-Stays) depth 8))
        λ ret.
          Preserves-bind _ _ (finish_request-Preserves worker k.request_type k.request_id)
            (λ _. Preserves-pure ret)

  pub handle_worker_heartbeat-Preserves :
      (worker : F) (m : Message F) → Preserves (handle_worker_heartbeat worker m)
  unfolding handle_worker_heartbeat
  handle_worker_heartbeat-Preserves worker m = Stays-Preserves _ λ b h.
      Stays-lookup worker _ _ (λ e. Stays-pure (pos 1))
        λ i e.
          let known = ap is_some e in
          search (basic, with_fields-Stays, heartbeat-Stays, known) depth 12

  pub handle_worker_receipt-Preserves :
      (worker : F) (m : Message F) → Preserves (handle_worker_receipt worker m)
  unfolding handle_worker_receipt
  handle_worker_receipt-Preserves worker m = Stays-Preserves _ λ b h. receipt-Stays worker m

  entering-Ensures :
      (i : WorkerInfo F) (b : Broker F)
      → Assoc.lookup i.identity b.worker_info_lookup ≡ none
      → IsConsistent b
      → Ensures
          (Entered i)
          ((do insert_worker_info i; update_contexts_for_new_worker i.identity; pure (pos 0)) b)
  unfolding ◌>>=◌ insert_worker_info modify continue pure
  entering-Ensures i b missing h =
      let r = enter-Ensures i b missing h in
      continue-Ensures (Entered i) _ (λ _. pure (pos 0)) _ r.0 (λ a e. (tt, λ x _. r.1 a e))

  with_fields-Ensures :
      {A : Type 0} (p : Parsed A) (k : A → Op F ℤ) (b : Broker F)
      → IsConsistent b
      → ((a : A) → Ensures IsConsistent (k a b))
      → Ensures IsConsistent (with_fields p k b)
  unfolding with_fields throw pure
  with_fields-Ensures (parsed a) k b h f = f a
  with_fields-Ensures (malformed code) k b h f = (tt, λ x e. h)
  with_fields-Ensures unparsable k b h f = (tt, λ x e. h)

  pub handle_worker_ready-Preserves :
      (worker : F) (m : Message F) → Preserves (handle_worker_ready worker m)
  unfolding handle_worker_ready ◌>>=◌ lookup_worker_info gets pure WorkerInfo.new_worker_info
  handle_worker_ready-Preserves worker m = record {
    at = λ b h. elim (Option-cases (Assoc.lookup worker b.worker_info_lookup)) [
      | inl e ↦
          rw (e, continue)
            (with_fields-Ensures (parse_worker_ready m) _ b h
              λ ready. let r = entering-Ensures _ b e h in (r.0, λ x q. (r.1 x q).0))
      | inr (i, e) ↦ rw (e, continue) (tt, λ x _. h)
    ];
  }

  -- the record that a ready message makes
  abbrev recorded : F → Ready → Broker F → WorkerInfo F
  recorded worker ready b =
      WorkerInfo.new_worker_info worker b.current_time (pos_part ready.free_capacity) ready.types
        ready.send_delay ready.ready_flags

  ready_lem :
      (worker : F) (m : Message F) (ready : Ready) (b : Broker F)
      → parse_worker_ready m ≡ parsed ready
      → Assoc.lookup worker b.worker_info_lookup ≡ none
      → IsConsistent b
      → Ensures (Entered (recorded worker ready b)) (handle_worker_ready worker m b)
  unfolding handle_worker_ready ◌>>=◌ lookup_worker_info gets pure WorkerInfo.new_worker_info
  ready_lem worker m ready b read e h =
      rw (e, continue, read, with_fields) (entering-Ensures (recorded worker ready b) b e h)

  -- A ready message that is well-formed, of a worker that is not known, makes the worker known with
  -- the request types that it names, and each of them has a context afterwards.
  pub handle_worker_ready-registers :
      (worker : F) (m : Message F) (ready : Ready) (t : ℕ) (ret : ℤ) (b : Broker F)
      → parse_worker_ready m ≡ parsed ready
      → Assoc.lookup worker b.worker_info_lookup ≡ none
      → IsConsistent b
      → (handle_worker_ready worker m b).0 ≡ returned ret
      → contains ready.types t ≡ true
      → (types_of worker (handle_worker_ready worker m b).1 ≡ some ready.types)
        × (has_context t (handle_worker_ready worker m b).1 ≡ true)
  unfolding supports WorkerInfo.new_worker_info
  handle_worker_ready-registers worker m ready t ret b read e h q named =
      let r = (ready_lem worker m ready b read e h).1 ret q in
      (r.1, r.0.covered t worker (ap (λ o. lists o t) r.1 ∙ named))
