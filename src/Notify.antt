-- ===== src/Notify.antt =====
-- The subscriber to notifications of liblhcluster/src/notifysubscriber.cxx: commands of the primary
-- thread, notifications of publishers. The handler of the program's user is a parameter.
pub mod Strings
pub mod Reactor
pub mod Commands
pub mod Rounds
pub mod Renewed
pub mod Publisher
use lhcluster.Common.{
  ℕ, ◌+◌, Bool, true, false, ◌||◌, Option, some, none, List, [], ◌∷◌, ◌++◌, map, nat_beq,
  if◌then◌else◌,
}
use lhcluster.Common.Int.{ℤ, pos, negsuc, is_neg, is_zero}
use lhcluster.Cluster.{RequestStatus, in_progress, succeeded, fatal_error}
use lhcluster.Wire.{Wire, Message}
use lhcluster.Wire.Envelope.{is_empty}
use lhcluster.Notify.Strings.{NotificationType, get_frame_value_as_str, value_as_str, c_str}
use lhcluster.Action.{Act, pure, gets, modify, value, caught, ◌>>=◌, ◌>>◌, Network, transmit}

-- `enum class NotifySubscriberExitState`
pub data NotifySubscriberExitState : Type 0 where
  no_exit graceful_stop reconnect start_failed : NotifySubscriberExitState

-- `signalerSocket`, by which the primary thread sends commands
pub data Socket : Type 0 where
  signaler : Socket

-- A call of `socketFactory->Subscribe` or `UnSubscribe` on `selfSubscriberSocket`.
pub data SubscriptionCall (T : Type 0) : Type 0 where
  subscribed unsubscribed : T → SubscriptionCall T

pub record NotifySubscriber (T : Type 0) : Type 0 where
  pub exit_state : NotifySubscriberExitState
  -- the types that the subscriber was built with
  pub subscriptions : List T
  -- the calls so far, the last one first
  pub subscription_calls : List (SubscriptionCall T)
  -- what the n-th call of `Signal` will return, and how many there were
  pub signal_answers : ℕ → ℤ
  pub signals : ℕ

-- `enum class NotifySubscriberCommand`
pub data NotifySubscriberCommand : Type 0 where
  no_command start stop subscribe un_subscribe : NotifySubscriberCommand

unfoldable pub command_number : NotifySubscriberCommand → ℕ
command_number no_command = 0
command_number start = 1
command_number stop = 2
command_number subscribe = 3
command_number un_subscribe = 4

-- `senderReceiver->Signal( listenerSocket, 0 )`
unfoldable pub signal : Act (NotifySubscriber NotificationType) ℤ
unfolding gets modify pure ◌>>=◌
signal = do
  ret ← gets (λ s. s.signal_answers s.signals)
  modify (λ s. record s { signals = s.signals + 1 })
  pure ret

-- what the status that the handler gave does
unfoldable pub after_notification :
    RequestStatus → NotificationType → Act (NotifySubscriber NotificationType) ℤ
unfolding modify pure ◌>>=◌
after_notification in_progress type = pure (pos 0)
after_notification succeeded type = do
  modify (λ s. record s { subscription_calls = unsubscribed (c_str type) ∷ s.subscription_calls })
  pure (pos 0)
after_notification fatal_error type = pure (negsuc 0)
after_notification _ type = pure (pos 0)

module _ {F : Type 0} ⦃w : Wire F⦄ where
  -- the message of `subOrUnsub`
  unfoldable pub subscription_message : NotifySubscriberCommand → List NotificationType → Message F
  unfolding command_number
  subscription_message command types =
      w.put_u32 (command_number command) ∷ (map value_as_str types ++ w.null_frame ∷ [])

  -- `subOrUnsub`; `ready` is whether the poller sees an answer before the timeout
  unfoldable pub sub_or_unsub :
      NotifySubscriberCommand → List NotificationType → Bool → Act (Network Socket F) ℤ
  unfolding subscription_message transmit pure ◌>>=◌
  sub_or_unsub command types ready = do
    ret ← transmit signaler (subscription_message command types)
    pure (if is_zero ret then (if ready then pos 0 else pos 3) else pos 2)

  -- `Subscribe`
  unfoldable pub subscribe_to : List NotificationType → Bool → Act (Network Socket F) ℤ
  unfolding sub_or_unsub
  subscribe_to types ready = sub_or_unsub subscribe types ready

  -- `UnSubscribe`
  unfoldable pub unsubscribe_from : List NotificationType → Bool → Act (Network Socket F) ℤ
  unfolding sub_or_unsub
  unsubscribe_from types ready = sub_or_unsub subscribe types ready

  -- the loop over the types of a command, up to the end or an empty frame
  unfoldable pub change_subscriptions :
      (NotificationType → SubscriptionCall NotificationType)
      → Message F
      → Act (NotifySubscriber NotificationType) (Unit {0})
  unfolding value modify pure ◌>>=◌
  change_subscriptions call [] = pure tt
  change_subscriptions call (f ∷ m) = if is_empty f then pure tt else (do
    type ← value (get_frame_value_as_str f)
    modify (λ s. record s { subscription_calls = call (c_str type) ∷ s.subscription_calls })
    change_subscriptions call m)

  -- `handleControllerCommand( msg )`
  unfoldable pub handle_controller_command : Message F → Act (NotifySubscriber NotificationType) ℤ
  unfolding value modify pure ◌>>=◌ change_subscriptions signal command_number
  handle_controller_command [] = pure (pos 0)
  handle_controller_command (f ∷ m) = if is_empty f then pure (pos 0) else (do
    command ← value (w.get_u32 f)
    if nat_beq command (command_number stop)
        then (do modify (λ s. record s { exit_state = graceful_stop }); pure (negsuc 0))
        else if nat_beq command (command_number subscribe)
        then (do change_subscriptions subscribed m; signal)
        else if nat_beq command (command_number un_subscribe)
        then (do change_subscriptions unsubscribed m; signal)
        else pure (pos 3))

  -- `handleControllerCommand()`, under the catch of `subscriberPrimaryControllerReactor`
  unfoldable pub controller_reactor : Option (Message F) → Act (NotifySubscriber NotificationType) ℤ
  unfolding handle_controller_command caught pure ◌>>=◌
  controller_reactor none = caught (pure (pos 0))
  controller_reactor (some m) =
      caught (do ret ← handle_controller_command m; pure (if is_neg ret then ret else pos 0))

  -- `handlePublisherNotification`, with the message received, or null
  unfoldable pub handle_publisher_notification :
      (NotificationType → Message F → RequestStatus)
      → Option (Message F)
      → Act (NotifySubscriber NotificationType) ℤ
  unfolding after_notification value pure ◌>>=◌
  handle_publisher_notification process none = pure (pos 0)
  handle_publisher_notification process (some []) = pure (pos 1)
  handle_publisher_notification process (some (f ∷ m)) =
      if is_empty f
      then pure (pos 1)
      else (do type ← value (get_frame_value_as_str f); after_notification (process type m) type)

  -- `publisherNotificationReactor`
  unfoldable pub publisher_reactor :
      (NotificationType → Message F → RequestStatus)
      → Option (Message F)
      → Act (NotifySubscriber NotificationType) ℤ
  unfolding handle_publisher_notification caught pure ◌>>=◌
  publisher_reactor process m =
      caught
        (do ret ← handle_publisher_notification process m; pure (if is_neg ret then ret else pos 0))
