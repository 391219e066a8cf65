-- ===== src/Notify/Reactor.antt =====
-- The callbacks and the loop of StartAsPrimary of liblhcluster/src/notifysubscriber.cxx.
use lhcluster.Common.{Bool, true, false, ◌||◌, Option, List, [], ◌∷◌, if◌then◌else◌}
use lhcluster.Common.Int.{ℤ, pos, negsuc, is_neg}
use lhcluster.Cluster.{RequestStatus}
use lhcluster.Wire.{Wire, Message}
use lhcluster.Notify.Strings.{NotificationType, c_str, null_string}
use lhcluster.Action.{Act, pure, gets, modify, ◌>>=◌, ◌>>◌}
use lhcluster.Notify.{
  NotifySubscriber, NotifySubscriberExitState, no_exit, graceful_stop, reconnect, start_failed,
  subscribed, controller_reactor, publisher_reactor,
}

-- What wakes the subscriber: a notification, a command, or its timer for a new connection.
pub data Event (F : Type 0) : Type 0 where
  notification command : Option (Message F) → Event F
  reconnect_timer : Event F

-- What one round of `StartAsPrimary` meets: whether the connection and the callbacks can be set up, and
-- what wakes the reactor.
pub record Round (F : Type 0) : Type 0 where
  pub connect_fails : Bool
  pub callbacks_fail : Bool
  pub events : List (Event F)

-- `exitState` for which the loop goes on
abbrev pub goes_on : NotifySubscriberExitState → Bool
goes_on graceful_stop = false
goes_on _ = true

unfoldable pub set_exit_state :
    NotifySubscriberExitState → Act (NotifySubscriber NotificationType) (Unit {0})
unfolding modify
set_exit_state e = modify (λ s. record s { exit_state = e })

-- the loop over `subscriptions`, without the empty ones
unfoldable pub subscribe_each :
    List NotificationType → Act (NotifySubscriber NotificationType) (Unit {0})
unfolding modify pure ◌>>=◌
subscribe_each [] = pure tt
subscribe_each (t ∷ ts) = do
  if null_string t
      then pure tt
      else modify
          (λ s. record s { subscription_calls = subscribed (c_str t) ∷ s.subscription_calls })
  subscribe_each ts

-- `activateSubscriberSockets`
unfoldable pub activate_subscriber_sockets : Bool → Act (NotifySubscriber NotificationType) Bool
unfolding subscribe_each gets pure ◌>>=◌
activate_subscriber_sockets connect_fails =
    if connect_fails
    then pure true
    else (do ts ← gets (λ s. s.subscriptions); subscribe_each ts; pure false)

module _ {F : Type 0} ⦃w : Wire F⦄ (process : NotificationType → Message F → RequestStatus) where
  -- the callback that the reactor calls for an event
  unfoldable pub reactor : Event F → Act (NotifySubscriber NotificationType) ℤ
  unfolding publisher_reactor controller_reactor set_exit_state pure ◌>>=◌
  reactor (notification m) = publisher_reactor process m
  reactor (command m) = controller_reactor m
  reactor reconnect_timer = do set_exit_state reconnect; pure (negsuc 0)

  -- `zloop_start`: one callback after the other, until one returns a negative number
  unfoldable pub run : List (Event F) → Act (NotifySubscriber NotificationType) ℤ
  unfolding reactor pure ◌>>=◌
  run [] = pure (pos 0)
  run (e ∷ es) = do ret ← reactor e; if is_neg ret then pure ret else run es

  -- one round of the loop; whether there is a next one
  unfoldable pub start_round : Round F → Act (NotifySubscriber NotificationType) Bool
  unfolding set_exit_state activate_subscriber_sockets run gets pure ◌>>=◌
  start_round r = do
    set_exit_state no_exit
    failed ← activate_subscriber_sockets r.connect_fails
    if failed || r.callbacks_fail then set_exit_state start_failed else (do run r.events; pure tt)
    gets (λ s. goes_on s.exit_state)

  -- `StartAsPrimary`, as far as the rounds go: whether it is still to go on
  unfoldable pub start_as_primary : List (Round F) → Act (NotifySubscriber NotificationType) Bool
  unfolding start_round pure ◌>>=◌
  start_as_primary [] = pure true
  start_as_primary (r ∷ rs) = do
    more ← start_round r
    if more then start_as_primary rs else pure false
