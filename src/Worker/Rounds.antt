-- ===== src/Worker/Rounds.antt =====
-- The rounds of StartAsPrimary of liblhcluster/src/worker.cxx while the broker is silent.
use lhcluster.Common.{ℕ, zero, suc, ◌≡◌, refl, ap, ◌∙◌, true, List, [], ◌∷◌, map, length}
use lhcluster.Common.Int.{ℤ, negsuc, is_zero, ltb_ℤ, ◌+ℤ◌}
use lhcluster.Wire.{Wire, Message}
use lhcluster.Action.{
  returned, pure, gets, modify, continue, ◌>>=◌, ◌>>◌, caught-returned, next_answer, network_send,
}
use lhcluster.Worker.State.{
  Worker, no_exit, broker_died, messaging, set_exit_state, update_current_time,
  update_worker_last_active, send, is_broker_alive_as_of,
}
use lhcluster.Worker.Messages.{ready_message, send_broker_ready_message, check_broker_pulse}
use lhcluster.Worker.Reactor.{
  Event, pulse_timer, reactor, run, Round, start_round, start_as_primary,
}

-- The worker's pulse timer goes off first, when the broker has been silent for too long: `dead_at` is
-- the last moment at which it counts as alive.
pub record IsSilent {F : Type 0} (dead_at : ℤ) (r : Round F) : Type 0 where
  pub at : ℤ
  pub later : List (Event F)
  pub set_up : r.setup_failures ≡ 0
  pub woken : r.events ≡ pulse_timer at ∷ later
  pub late : ltb_ℤ dead_at at ≡ true

abbrev pub AreSilent : {F : Type 0} → ℤ → List (Round F) → Type 0
AreSilent dead_at [] = Unit {0}
AreSilent dead_at (r ∷ rs) = IsSilent dead_at r × AreSilent dead_at rs

-- `n` copies in front.
abbrev pub repeated {ℓ} : {A : Type ℓ} → ℕ → A → List A → List A
repeated zero x xs = xs
repeated (suc n) x xs = x ∷ repeated n x xs

repeated_front {ℓ} :
    {A : Type ℓ} (n : ℕ) (x : A) (xs : List A) → repeated n x (x ∷ xs) ≡ x ∷ repeated n x xs
repeated_front zero x xs = refl
repeated_front (suc n) x xs = ap (λ ys. x ∷ ys) (repeated_front n x xs)

module _ {F : Type 0} where
  abbrev pub dead_at : Worker F → ℤ
  dead_at s = s.broker_last_active +ℤ s.broker_death_delay

  abbrev pub sent_messages : Worker F → List (Message F)
  sent_messages s = map (λ c. c.message) s.network.calls

module _ {F : Type 0} ⦃w : Wire F⦄ where
  -- The worker after a round in which the broker was silent.
  abbrev pub announced : Round F → Worker F → Worker F
  announced r s = record s {
    exit_state = broker_died;
    current_time = r.ends_at;
    worker_last_active = r.ready_at;
    network = network_send messaging (ready_message s) s.network;
  }

  pulse-dead :
      (at : ℤ) (s : Worker F)
      → ltb_ℤ (dead_at s) at ≡ true
      → (update_current_time at >> check_broker_pulse) s
        ≡ (returned (negsuc 0), record s { exit_state = broker_died; current_time = at })
  unfolding check_broker_pulse ◌>>=◌ modify gets continue pure set_exit_state update_current_time
      is_broker_alive_as_of
  pulse-dead at s late = rw (late, continue) refl

  reactor-dead :
      (at : ℤ) (s : Worker F)
      → ltb_ℤ (dead_at s) at ≡ true
      → reactor (pulse_timer at) s
        ≡ (returned (negsuc 0), record s { exit_state = broker_died; current_time = at })
  unfolding reactor
  reactor-dead at s late =
      caught-returned (update_current_time at >> check_broker_pulse) s _ (negsuc 0)
        (pulse-dead at s late)

  run-dead :
      (at : ℤ) (later : List (Event F)) (s : Worker F)
      → ltb_ℤ (dead_at s) at ≡ true
      → run (pulse_timer at ∷ later) s
        ≡ (returned (negsuc 0), record s { exit_state = broker_died; current_time = at })
  unfolding run ◌>>=◌ pure
  run-dead at later s late = rw (reactor-dead at s late, continue) refl

  start_round-announced :
      (r : Round F) (s : Worker F)
      → IsSilent (dead_at s) r
      → is_zero (next_answer s.network) ≡ true
      → start_round r s ≡ (returned true, announced r s)
  unfolding start_round ◌>>=◌ modify gets continue pure set_exit_state update_current_time
      send_broker_ready_message send update_worker_last_active ready_message
  start_round-announced r s silent sent =
      let started : Worker F = record s {
        exit_state = no_exit;
        current_time = r.ready_at;
        worker_last_active = r.ready_at;
        network = network_send messaging (ready_message s) s.network;
      } in
      let e = run-dead silent.at silent.later started silent.late in
      rw (sent, continue, silent.set_up, sent, silent.woken, e, continue) refl

  -- Round after round in which the broker is silent and `Send` succeeds, the worker starts again and
  -- sends its ready message: it does not give up, and says the same each time.
  pub start_as_primary-silent :
      (rs : List (Round F)) (s : Worker F)
      → AreSilent (dead_at s) rs
      → ((n : ℕ) → is_zero (s.network.answers n) ≡ true)
      → ((start_as_primary rs s).0 ≡ returned true)
        × (sent_messages (start_as_primary rs s).1
            ≡ repeated (length rs) (ready_message s) (sent_messages s))
  unfolding start_as_primary ◌>>=◌ pure network_send next_answer ready_message
  start_as_primary-silent [] s silent sent = (refl, refl)
  start_as_primary-silent (r ∷ rs) s silent sent =
      let e = start_round-announced r s silent.0 (sent (length s.network.calls)) in
      let rest = start_as_primary-silent rs (announced r s) silent.1 sent in
      rw (e, continue)
        (rest.0, rest.1 ∙ repeated_front (length rs) (ready_message s) (sent_messages s))
