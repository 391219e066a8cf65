-- ===== src/Notify/Rounds.antt =====
-- How long the loop of StartAsPrimary of liblhcluster/src/notifysubscriber.cxx goes on.
use lhcluster.Common.{
  ℕ, ◌≡◌, refl, ap, Bool, true, false, ◌||◌, Bool-cases, inl, inr, Option, some, none, List, [],
  ◌∷◌, nat_beq, if◌then◌else◌, arith,
}
use lhcluster.Common.Int.{pos, negsuc, is_neg}
use lhcluster.Cluster.{RequestStatus, succeeded}
use lhcluster.Wire.{Wire, Message}
use lhcluster.Wire.Envelope.{is_empty}
use lhcluster.Notify.Strings.{NotificationType, get_frame_value_as_str, null_string}
use lhcluster.Action.{Result, returned, pure, gets, modify, continue, ◌>>=◌}
use lhcluster.Action.Keeps.{
  Keeps, Keeps-pure, Keeps-value, Keeps-modify, Keeps-if, Keeps-bind, Keeps-value_bind,
}
use lhcluster.Action.Yields.{
  HasReturned, Yields, Yields-bind, Yields-caught, Yields-pure, Yields-gets, Yields-modify,
  Yields-if,
}
use lhcluster.Notify.{
  NotifySubscriber, NotifySubscriberExitState, no_exit, start_failed, SubscriptionCall, subscribed,
  unsubscribed, stop, command_number, change_subscriptions, signal, handle_controller_command,
  controller_reactor, after_notification, handle_publisher_notification, publisher_reactor,
}
use lhcluster.Notify.Reactor.{
  Event, notification, command, reconnect_timer, Round, goes_on, set_exit_state, subscribe_each,
  activate_subscriber_sockets, reactor, run, start_round, start_as_primary,
}

-- The loop goes on after the round.
abbrev pub GoesOn : {T : Type 0} → NotifySubscriber T → Type 0
GoesOn s = goes_on s.exit_state ≡ true

module _ {F : Type 0} ⦃w : Wire F⦄ where
  -- A command to stop.
  abbrev pub is_stop : Event F → Bool
  is_stop (command (some (f ∷ m))) =
      if is_empty f
      then false
      else elim (w.get_u32 f) [ none ↦ false | some n ↦ nat_beq n (command_number stop) ]
  is_stop _ = false

  abbrev pub NeverStops : List (Event F) → Type 0
  NeverStops [] = Unit {0}
  NeverStops (e ∷ es) = (is_stop e ≡ false) × NeverStops es

  abbrev pub NeverStopped : List (Round F) → Type 0
  NeverStopped [] = Unit {0}
  NeverStopped (r ∷ rs) = NeverStops r.events × NeverStopped rs

  not_stop :
      (f : F) (m : Message F) (n : ℕ)
      → is_empty f ≡ false
      → w.get_u32 f ≡ some n
      → is_stop (command (some (f ∷ m))) ≡ false
      → nat_beq n (command_number stop) ≡ false
  not_stop f m n filled read e = ground (arith, filled, read, e)

module _ {F : Type 0} ⦃w : Wire F⦄ (process : NotificationType → Message F → RequestStatus) where
  calls-GoesOn :
      (call : NotificationType → SubscriptionCall NotificationType) (m : Message F)
      → Keeps GoesOn (change_subscriptions call m)
  unfolding change_subscriptions
  calls-GoesOn call [] = Keeps-pure tt
  calls-GoesOn call (f ∷ m) = Keeps-if (is_empty f) _ _ (Keeps-pure tt) (
      Keeps-bind _ _ (Keeps-value _)
        (λ t. Keeps-bind _ _ (Keeps-modify _ (λ s h. h)) (λ _. calls-GoesOn call m)))

  signal-GoesOn : Keeps GoesOn (signal)
  unfolding signal ◌>>=◌ gets modify continue pure
  signal-GoesOn = record { at = λ s h. h }

  command-GoesOn :
      (m : Message F)
      → is_stop (command (some m)) ≡ false
      → Keeps GoesOn (handle_controller_command m)
  unfolding handle_controller_command
  command-GoesOn [] e = Keeps-pure (pos 0)
  command-GoesOn (f ∷ m) e =
      let signalled = λ (call : NotificationType → SubscriptionCall NotificationType).
        Keeps-bind _ _ (calls-GoesOn call m) (λ _. signal-GoesOn) in
      elim (Bool-cases (is_empty f)) [
        | inl empty ↦ rw (empty) (Keeps-pure (pos 0))
        | inr filled ↦ rw (filled) (
            Keeps-value_bind (w.get_u32 f) _ λ n read.
              let other : nat_beq n (command_number stop) ≡ false = not_stop f m n filled read e in
              rw other (
                Keeps-if _ _ _ (signalled subscribed)
                  (Keeps-if _ _ _ (signalled unsubscribed) (Keeps-pure (pos 3)))))
      ]

  after_notification-GoesOn :
      (status : RequestStatus) (t : NotificationType) → Keeps GoesOn (after_notification status t)
  unfolding after_notification
  after_notification-GoesOn succeeded t =
      Keeps-bind _ _ (Keeps-modify _ (λ s h. h)) (λ _. Keeps-pure (pos 0))
  after_notification-GoesOn _ t = Keeps-pure _

  notification-GoesOn :
      (m : Option (Message F)) → Keeps GoesOn (handle_publisher_notification process m)
  unfolding handle_publisher_notification
  notification-GoesOn none = Keeps-pure (pos 0)
  notification-GoesOn (some []) = Keeps-pure (pos 1)
  notification-GoesOn (some (f ∷ m)) = Keeps-if (is_empty f) _ _ (Keeps-pure (pos 1)) (
      Keeps-bind _ _ (Keeps-value (get_frame_value_as_str f))
        (λ t. after_notification-GoesOn (process t m) t))

  reactor-Yields : (e : Event F) → is_stop e ≡ false → Yields GoesOn HasReturned (reactor process e)
  unfolding reactor publisher_reactor controller_reactor
  reactor-Yields (notification m) h =
      Yields-caught _ (Keeps-bind _ _ (notification-GoesOn m) (λ ret. Keeps-pure _))
  reactor-Yields (command none) h = Yields-caught _ (Keeps-pure (pos 0))
  reactor-Yields (command (some m)) h =
      Yields-caught _ (Keeps-bind _ _ (command-GoesOn m h) (λ ret. Keeps-pure _))
  reactor-Yields reconnect_timer h =
      Yields-bind _ _ (Yields-modify _ (λ s g. refl)) (λ _. Yields-pure (negsuc 0))

  run-Yields : (es : List (Event F)) → NeverStops es → Yields GoesOn HasReturned (run process es)
  unfolding run
  run-Yields [] h = Yields-pure (pos 0)
  run-Yields (e ∷ es) h =
      Yields-bind _ _ (reactor-Yields e h.0)
        (λ ret. Yields-if (is_neg ret) _ _ (Yields-pure ret) (run-Yields es h.1))

  subscribe_each-Yields :
      (ts : List NotificationType) → Yields GoesOn HasReturned (subscribe_each ts)
  unfolding subscribe_each
  subscribe_each-Yields [] = Yields-pure tt
  subscribe_each-Yields (t ∷ ts) =
      Yields-bind _ _ (Yields-if (null_string t) _ _ (Yields-pure tt) (Yields-modify _ (λ s h. h)))
        (λ _. subscribe_each-Yields ts)

  activate-Yields : (fails : Bool) → Yields GoesOn HasReturned (activate_subscriber_sockets fails)
  unfolding activate_subscriber_sockets
  activate-Yields fails = Yields-if fails _ _ (Yields-pure true) (
      Yields-bind _ _ (Yields-gets (λ s. s.subscriptions))
        (λ ts. Yields-bind _ _ (subscribe_each-Yields ts) (λ _. Yields-pure false)))

  -- The round is one of those after which the loop goes on.
  abbrev pub Continues : Result Bool → Type 0
  Continues r = r ≡ returned true

  asks-Yields :
      Yields GoesOn Continues
        (gets (λ (s : NotifySubscriber NotificationType). goes_on s.exit_state))
  unfolding gets
  asks-Yields = record { at = λ s h. (ap returned h, h) }

  set_exit_state-Yields :
      (e : NotifySubscriberExitState)
      → goes_on e ≡ true
      → Yields GoesOn HasReturned (set_exit_state e)
  unfolding set_exit_state
  set_exit_state-Yields e h = Yields-modify _ (λ s g. h)

  start_round-Yields :
      (r : Round F) → NeverStops r.events → Yields GoesOn Continues (start_round process r)
  unfolding start_round
  start_round-Yields r h = Yields-bind _ _ (set_exit_state-Yields no_exit refl) (λ _.
      Yields-bind _ _ (activate-Yields r.connect_fails) (λ failed.
        Yields-bind _ _
          (Yields-if (failed || r.callbacks_fail) _ _ (set_exit_state-Yields start_failed refl)
            (Yields-bind _ _ (run-Yields r.events h) (λ ret. Yields-pure tt)))
          (λ _. asks-Yields)))

  -- Without a command to stop, `StartAsPrimary` goes on through all its rounds: no notification, no status
  -- of the handler (also not `FatalError`), no frame that does not parse, no failed set-up and no timer
  -- ends it.
  pub start_as_primary-GoesOn :
      (rs : List (Round F)) (s : NotifySubscriber NotificationType)
      → NeverStopped rs
      → GoesOn s
      → (start_as_primary process rs s).0 ≡ returned true
  unfolding start_as_primary ◌>>=◌ pure
  start_as_primary-GoesOn [] s h g = refl
  start_as_primary-GoesOn (r ∷ rs) s h g =
      let first = (start_round-Yields r h.0).at s g in
      let s₁ = (start_round process r s).1 in
      rw (first.0, continue) (start_as_primary-GoesOn rs s₁ h.1 first.1)
