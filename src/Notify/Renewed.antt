-- ===== src/Notify/Renewed.antt =====
-- What the reconnect timer of liblhcluster/src/notifysubscriber.cxx does to the subscriptions.
use lhcluster.Common.{
  ℕ, suc, ◌+◌, ◌*◌, ◌≡◌, refl, ◌∙◌, Bool, true, false, Bool-cases, inl, inr, List, [], ◌∷◌, length,
  if◌then◌else◌, arith,
}
use lhcluster.Cluster.{RequestStatus}
use lhcluster.Wire.{Wire, Message}
use lhcluster.Notify.Strings.{NotificationType, c_str, null_string}
use lhcluster.Action.{returned, pure, gets, modify, continue, ◌>>=◌}
use lhcluster.Notify.{
  NotifySubscriber, no_exit, reconnect, SubscriptionCall, subscribed, unsubscribed,
}
use lhcluster.Notify.Reactor.{
  Event, reconnect_timer, Round, set_exit_state, subscribe_each, activate_subscriber_sockets,
  reactor, run, start_round, start_as_primary,
}

-- A round that is set up, and in which the timer goes off before anything else comes.
pub record IsQuiet {F : Type 0} (r : Round F) : Type 0 where
  pub later : List (Event F)
  pub connects : r.connect_fails ≡ false
  pub calls_back : r.callbacks_fail ≡ false
  pub woken : r.events ≡ reconnect_timer ∷ later

abbrev pub AreQuiet : {F : Type 0} → List (Round F) → Type 0
AreQuiet [] = Unit {0}
AreQuiet (r ∷ rs) = IsQuiet r × AreQuiet rs

one_more : (n k c : ℕ) → n * k + (k + c) ≡ suc n * k + c
one_more n k c = grind arith

-- How many calls subscribe to this type.
abbrev pub times : (NotificationType → Bool) → List (SubscriptionCall NotificationType) → ℕ
times is_it [] = 0
times is_it (subscribed t ∷ cs) = (if is_it t then 1 else 0) + times is_it cs
times is_it (unsubscribed t ∷ cs) = times is_it cs

-- How often this type is among those that the subscriber was built with, empty ones left out.
abbrev pub listed : (NotificationType → Bool) → List NotificationType → ℕ
listed is_it [] = 0
listed is_it (t ∷ ts) =
    (if null_string t then 0 else if is_it (c_str t) then 1 else 0) + listed is_it ts

-- The subscriber after `subscribe_each`, with this exit state.
abbrev after_each :
    List NotificationType → NotifySubscriber NotificationType → NotifySubscriber NotificationType
after_each [] s = s
after_each (t ∷ ts) s = after_each ts (record s {
  subscription_calls =
      if null_string t then s.subscription_calls else subscribed (c_str t) ∷ s.subscription_calls;
})

subscribe_each-after :
    (ts : List NotificationType) (s : NotifySubscriber NotificationType)
    → subscribe_each ts s ≡ (returned tt, after_each ts s)
unfolding subscribe_each ◌>>=◌ modify pure continue
subscribe_each-after [] s = refl
subscribe_each-after (t ∷ ts) s = elim (Bool-cases (null_string t)) [
  | inl blank ↦ rw (blank, continue) (subscribe_each-after ts s)
  | inr filled ↦
      rw (filled, continue)
        (subscribe_each-after ts
          (record s { subscription_calls = subscribed (c_str t) ∷ s.subscription_calls }))
]

times_if :
    (is_it : NotificationType → Bool) (blank : Bool) (t : NotificationType) (n : ℕ)
    (cs : List (SubscriptionCall NotificationType))
    → n + times is_it (if blank then cs else subscribed (c_str t) ∷ cs)
      ≡ (if blank then 0 else if is_it (c_str t) then 1 else 0) + n + times is_it cs
times_if is_it true t n cs = omega arith
times_if is_it false t n cs = omega arith

times-after_each :
    (is_it : NotificationType → Bool) (ts : List NotificationType)
    (s : NotifySubscriber NotificationType)
    → times is_it (after_each ts s).subscription_calls
      ≡ listed is_it ts + times is_it s.subscription_calls
times-after_each is_it [] s = omega arith
times-after_each is_it (t ∷ ts) s =
    times-after_each is_it ts _
    ∙ times_if is_it (null_string t) t (listed is_it ts) s.subscription_calls

subscriptions-after_each :
    (ts : List NotificationType) (s : NotifySubscriber NotificationType)
    → (after_each ts s).subscriptions ≡ s.subscriptions
subscriptions-after_each [] s = refl
subscriptions-after_each (t ∷ ts) s = subscriptions-after_each ts _

module _ {F : Type 0} ⦃w : Wire F⦄ (process : NotificationType → Message F → RequestStatus) where
  -- The subscriber after a quiet round.
  abbrev renewed : NotifySubscriber NotificationType → NotifySubscriber NotificationType
  renewed s = record (after_each s.subscriptions (record s { exit_state = no_exit })) {
    exit_state = reconnect;
  }

  start_round-renewed :
      (r : Round F) (s : NotifySubscriber NotificationType)
      → IsQuiet r
      → start_round process r s ≡ (returned true, renewed s)
  unfolding start_round activate_subscriber_sockets run reactor set_exit_state ◌>>=◌ modify gets
      pure continue
  start_round-renewed r s quiet =
      rw
        (
          quiet.connects,
          continue,
          subscribe_each-after s.subscriptions (record s { exit_state = no_exit }),
          quiet.calls_back,
          quiet.woken,
          continue,
        )
        refl

  -- Every time the reconnect timer goes off, the subscriber subscribes once more to all the types that it
  -- was built with, the empty ones left out, on the same socket: after n quiet rounds it has subscribed n
  -- times more to each, and the loop goes on.
  pub start_as_primary-renewed :
      (is_it : NotificationType → Bool) (rs : List (Round F))
      (s : NotifySubscriber NotificationType)
      → AreQuiet rs
      → let r = start_as_primary process rs s in
        (r.0 ≡ returned true)
        × (times is_it r.1.subscription_calls
            ≡ length rs * listed is_it s.subscriptions + times is_it s.subscription_calls)
  unfolding start_as_primary ◌>>=◌ pure
  start_as_primary-renewed is_it [] s quiet = (refl, omega arith)
  start_as_primary-renewed is_it (r ∷ rs) s quiet =
      let e = start_round-renewed r s quiet.0 in
      let rest = start_as_primary-renewed is_it rs (renewed s) quiet.1 in
      let started : NotifySubscriber NotificationType = record s { exit_state = no_exit } in
      let same = subscriptions-after_each s.subscriptions started in
      let more = times-after_each is_it s.subscriptions started in
      rw (e, continue) (rest.0, rest.1 ∙ rw (same, more) (one_more (length rs) _ _))
