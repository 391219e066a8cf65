-- ===== src/Safety/Reactor.antt =====
-- The callbacks of the broker's reactor in broker.cxx, from a consistent state.
use lhcluster.Common.{
  ℕ, ◌≡◌, refl, sym, ◌∙◌, true, false, Option, some, none, List, [], ◌∷◌, ◌++◌, contains, arith,
  eq_iff, if◌then◌else◌,
}
use lhcluster.Common.Int.{ℤ, pos, negsuc, is_neg}
use lhcluster.Common.Assoc.{contains-keys}
use lhcluster.Cluster.{
  ClusterMessage, message_of, worker_heartbeat, worker_ready, worker_finished, worker_receipt,
  client_heartbeat, client_new_request,
}
use lhcluster.Wire.{Wire, Message, identity_eq}
use lhcluster.Wire.Envelope.{is_empty}
use lhcluster.Broker.State.{
  Broker, Op, Outcome, returned, thrown, undefined, continue, ◌>>=◌, gets, value, modify,
}
use lhcluster.Broker.Replies.{send_worker_heartbeat, send_heartbeat}
use lhcluster.Broker.Death.{send_heartbeats, send_worker_heartbeats}
use lhcluster.Broker.Reactor.{
  split_delimiter, dispatch_frontend, read_frontend, handle_frontend_message, dispatch_backend,
  handle_backend_message, update_current_time, receive, caught, Event, frontend_message,
  backend_message, heartbeat_timer, pulse_timer, reactor,
}
use lhcluster.Safety.Rules.{
  EndsWell, is_some, has_context, types_of, is_available, worker_keys, Stays, Stays-pure,
  Stays-value,
}
use lhcluster.Safety.Actions.{Stays-the_worker}
use lhcluster.Safety.Handlers.{basic, broker_active-Stays}
use lhcluster.Safety.Consistent.{
  supports, IsConsistent, Preserves, Stays-Preserves, Preserves-bind, Preserves-if, Preserves-pure,
  Ensures,
}
use lhcluster.Safety.Entering.{ends-IsConsistent}
use lhcluster.Safety.Pulse.{check_workers_pulse-Preserves}
use lhcluster.Safety.Messages.{
  handle_client_request-Preserves, handle_client_heartbeat-Preserves, handle_worker_ready-Preserves,
  handle_worker_heartbeat-Preserves, handle_worker_finished-Preserves,
  handle_worker_receipt-Preserves,
}

module _ {F : Type 0} ⦃w : Wire F⦄ {b₀ : Broker F} {Bound : ℕ → F → Type 0} where
  heartbeat_sent-Stays :
      (worker : F)
      → is_some (types_of worker b₀) ≡ true
      → Stays b₀ Bound (send_worker_heartbeat worker)
  unfolding send_worker_heartbeat send_heartbeat
  heartbeat_sent-Stays worker known = search (basic, broker_active-Stays, known) depth 12

  send_heartbeats-Stays :
      (ws : List F) (ret : ℤ)
      → ((v : F) → contains ws v ≡ true → is_some (types_of v b₀) ≡ true)
      → Stays b₀ Bound (send_heartbeats ws ret)
  unfolding send_heartbeats contains
  send_heartbeats-Stays [] ret known = Stays-pure ret
  send_heartbeats-Stays (v ∷ ws) ret known =
      let here = known v (ground (arith, eq_iff v v)) in
      let rest : (r : ℤ) → Stays b₀ Bound (send_heartbeats ws r) =
        λ r. send_heartbeats-Stays ws r (λ u p. known u (ground (arith, p))) in
      Stays-the_worker v _ here λ i e. search (basic, heartbeat_sent-Stays, here, rest) depth 12

module _ {F : Type 0} ⦃w : Wire F⦄ where
  send_worker_heartbeats-Preserves : Preserves (send_worker_heartbeats {F = F})
  unfolding send_worker_heartbeats ◌>>=◌ gets continue types_of
  send_worker_heartbeats-Preserves = record {
    at = λ b h. ends-IsConsistent b (send_heartbeats (worker_keys b) (pos 0)) h (
        send_heartbeats-Stays (worker_keys b) (pos 0)
          (λ v p. ground (arith, sym (contains-keys v b.worker_info_lookup) ∙ p)));
  }

  value-Preserves : {A : Type 0} (o : Option A) → Preserves (value {F = F} o)
  value-Preserves o = Stays-Preserves _ (λ b h. Stays-value o)

  dispatch_frontend-Preserves :
      (c : ClusterMessage) (m : Message F) → Preserves (dispatch_frontend c m)
  unfolding dispatch_frontend
  dispatch_frontend-Preserves client_new_request m =
      Preserves-bind _ _ (handle_client_request-Preserves m) (λ _. Preserves-pure (pos 0))
  dispatch_frontend-Preserves client_heartbeat m = handle_client_heartbeat-Preserves m
  dispatch_frontend-Preserves _ m = Preserves-pure (pos 0)

  Preserves-option :
      {A : Type 0} (o : Option A) (m : Op F ℤ) (k : A → Op F ℤ)
      → Preserves m
      → ((a : A) → Preserves (k a))
      → Preserves (elim o [ none ↦ m | some a ↦ k a ])
  Preserves-option none m k hm hk = hm
  Preserves-option (some a) m k hm hk = hk a

  read_frontend-Preserves : (env body : Message F) → Preserves (read_frontend env body)
  unfolding read_frontend
  read_frontend-Preserves env [] = Preserves-pure (pos 0)
  read_frontend-Preserves env (f ∷ body) = Preserves-if (is_empty f) _ _ (Preserves-pure (pos 0)) (
      Preserves-bind _ _ (value-Preserves (w.get_u32 f))
        (λ n. dispatch_frontend-Preserves (message_of n) (env ++ body)))

  handle_frontend_message-Preserves : (m : Message F) → Preserves (handle_frontend_message m)
  unfolding handle_frontend_message
  handle_frontend_message-Preserves m =
      Preserves-option (split_delimiter m) _ _ (Preserves-pure (pos 0))
        (λ parts. read_frontend-Preserves parts.0 parts.1)

  dispatch_backend-Preserves :
      (c : ClusterMessage) (worker : F) (m : Message F) → Preserves (dispatch_backend c worker m)
  unfolding dispatch_backend
  dispatch_backend-Preserves worker_receipt worker m = handle_worker_receipt-Preserves worker m
  dispatch_backend-Preserves worker_heartbeat worker m = handle_worker_heartbeat-Preserves worker m
  dispatch_backend-Preserves worker_ready worker m = handle_worker_ready-Preserves worker m
  dispatch_backend-Preserves worker_finished worker m = handle_worker_finished-Preserves worker m
  dispatch_backend-Preserves _ worker m = Preserves-pure (pos 0)

  handle_backend_message-Preserves : (m : Message F) → Preserves (handle_backend_message m)
  unfolding handle_backend_message
  handle_backend_message-Preserves (identity ∷ delimiter ∷ type ∷ m) =
      Preserves-if (is_empty identity) _ _ (Preserves-pure (pos 0)) (
        Preserves-if (is_empty delimiter) _ _
          (Preserves-if (is_empty type) _ _ (Preserves-pure (pos 0)) (
            Preserves-bind _ _ (value-Preserves (w.get_u32 type))
              (λ n. dispatch_backend-Preserves (message_of n) identity m)))
          (Preserves-pure (pos 0)))
  handle_backend_message-Preserves [] = Preserves-pure (pos 0)
  handle_backend_message-Preserves (a ∷ []) = Preserves-pure (pos 0)
  handle_backend_message-Preserves (a ∷ b ∷ []) = Preserves-pure (pos 0)

  update_current_time-Preserves : (now : ℤ) → Preserves (update_current_time {F = F} now)
  unfolding update_current_time modify has_context supports is_available types_of
  update_current_time-Preserves now = record {
    at = λ b h.
        (tt, λ x e. record { available = h.available; covered = h.covered; distinct = h.distinct });
  }

  receive-Preserves :
      (handle : Message F → Op F ℤ)
      → ((m : Message F) → Preserves (handle m))
      → (now : ℤ) (m : Option (Message F)) → Preserves (receive handle now m)
  unfolding receive
  receive-Preserves handle k now none =
      Preserves-bind _ _ (update_current_time-Preserves now) (λ _. Preserves-pure (pos 0))
  receive-Preserves handle k now (some m) =
      Preserves-bind _ _ (update_current_time-Preserves now)
        λ _. Preserves-bind _ _ (k m) (λ ret. Preserves-pure (if is_neg ret then ret else pos 0))

-- The action has none of the faults, and unless it returns a negative number it leaves a consistent
-- state.
abbrev pub Endures : {F : Type 0} ⦃w : Wire F⦄ → Outcome ℤ × Broker F → Type 0
Endures r = EndsWell r.0 × ((ret : ℤ) → r.0 ≡ returned ret → is_neg ret ≡ false → IsConsistent r.1)

module _ {F : Type 0} ⦃w : Wire F⦄ where
  caught-Endures : (m : Op F ℤ) (b : Broker F) → Ensures IsConsistent (m b) → Endures (caught m b)
  unfolding caught
  caught-Endures m b h =
      elim (m b).0
          as (λ r.
            EndsWell r
            → ((x : ℤ) → r ≡ returned x → IsConsistent (m b).1)
            → Endures {F = F} (elim r [
              | returned ret ↦ (returned ret, (m b).1)
              | thrown ↦ (returned (negsuc 0), (m b).1)
              | undefined e ↦ (undefined e, (m b).1)
            ])) [
              | returned ret ↦ λ e k. (tt, λ x q _. k ret refl)
              | thrown ↦ λ e k. (tt, λ x q n. ground (arith, q, n))
              | undefined f ↦ λ e k. (e, λ x q n. ground (arith, q))
            ]
        h.0 h.1

  callback-Endures :
      (m : Op F ℤ) → Preserves m → (b : Broker F) → IsConsistent b → Endures (caught m b)
  callback-Endures m p b h = caught-Endures m b (p.at b h)

  pub reactor-Endures : (e : Event F) (b : Broker F) → IsConsistent b → Endures (reactor e b)
  unfolding reactor
  reactor-Endures (frontend_message now m) =
      callback-Endures _ (receive-Preserves _ handle_frontend_message-Preserves now m)
  reactor-Endures (backend_message now m) =
      callback-Endures _ (receive-Preserves _ handle_backend_message-Preserves now m)
  reactor-Endures (heartbeat_timer now) = callback-Endures _ (
      Preserves-bind _ _ (update_current_time-Preserves now)
        (λ _. send_worker_heartbeats-Preserves))
  reactor-Endures (pulse_timer now) =
      callback-Endures _ (
        Preserves-bind _ _ (update_current_time-Preserves now) (λ _. check_workers_pulse-Preserves))
