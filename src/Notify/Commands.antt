-- ===== src/Notify/Commands.antt =====
-- The commands of the primary thread and what becomes of them at the subscriber of
-- liblhcluster/src/notifysubscriber.cxx.
use lhcluster.Common.{◌+◌, ◌≡◌, refl, ap, Bool, true, false, some, List, [], ◌∷◌, ◌++◌, map, arith}
use lhcluster.Wire.{Wire}
use lhcluster.Wire.Envelope.{is_empty}
use lhcluster.Notify.Strings.{
  NotificationType, AreWords, value_as_str, value_as_str-filled, c_str-plain,
  get_frame_value_as_str-value_as_str,
}
use lhcluster.Common.Int.{ℤ, pos, is_neg}
use lhcluster.Common.{if◌then◌else◌}
use lhcluster.Action.{
  caught-returned, Act, last_message, returned, pure, gets, modify, value, continue, ◌>>=◌, Network,
  network_send, transmit,
}
use lhcluster.Notify.{
  NotifySubscriber, SubscriptionCall, subscribed, unsubscribed, Socket, subscribe, un_subscribe,
  subscription_message, unsubscribe_from, sub_or_unsub, change_subscriptions, signal,
  handle_controller_command, command_number, controller_reactor,
}

-- The calls for these types, the last one first, in front of the others.
abbrev pub called :
    {T : Type 0}
    → (T → SubscriptionCall T)
    → List T
    → List (SubscriptionCall T)
    → List (SubscriptionCall T)
called call [] cs = cs
called call (t ∷ ts) cs = called call ts (call t ∷ cs)

abbrev pub after_command :
    {T : Type 0} → (T → SubscriptionCall T) → List T → NotifySubscriber T → NotifySubscriber T
after_command call types s = record s {
  subscription_calls = called call types s.subscription_calls;
  signals = s.signals + 1;
}

module _ (F : Type 0) ⦃w : Wire F⦄ where
  change_subscriptions-called :
      (call : NotificationType → SubscriptionCall NotificationType) (types : List NotificationType)
      (s : NotifySubscriber NotificationType)
      → AreWords types
      → change_subscriptions {F = F} call (map value_as_str types ++ w.null_frame ∷ []) s
        ≡ (returned tt, record s { subscription_calls = called call types s.subscription_calls })
  unfolding change_subscriptions ◌>>=◌ value modify pure
  change_subscriptions-called call [] s words =
      let null : is_empty w.null_frame ≡ true = ground (arith, w.size-null_frame) in rw null refl
  change_subscriptions-called call (t ∷ types) s words =
      let rest =
        change_subscriptions-called call types
          (record s { subscription_calls = call t ∷ s.subscription_calls }) words.1 in
      rw
        (
          value_as_str-filled w t words.0,
          get_frame_value_as_str-value_as_str w t words.0,
          continue,
          c_str-plain t words.0.1,
        )
        rest

  -- A command to subscribe is carried out: the subscriber subscribes to each type of the command, in its
  -- order, and signals once.
  pub handle_controller_command-subscribe :
      (types : List NotificationType) (s : NotifySubscriber NotificationType)
      → AreWords types
      → handle_controller_command {F = F} (subscription_message subscribe types) s
        ≡ (returned (s.signal_answers s.signals), after_command subscribed types s)
  unfolding handle_controller_command subscription_message command_number signal ◌>>=◌ value gets
      modify pure
  handle_controller_command-subscribe types s words =
      let size : is_empty (w.put_u32 3) ≡ false = ground (arith, w.size-put_u32 3) in
      let three : w.get_u32 (w.put_u32 3) ≡ some 3 = w.get_u32-put_u32 3 (omega arith) in
      rw (size, three, continue, change_subscriptions-called subscribed types s words) refl

  -- A command to unsubscribe would be carried out likewise: the subscriber unsubscribes from each type.
  pub handle_controller_command-un_subscribe :
      (types : List NotificationType) (s : NotifySubscriber NotificationType)
      → AreWords types
      → handle_controller_command {F = F} (subscription_message un_subscribe types) s
        ≡ (returned (s.signal_answers s.signals), after_command unsubscribed types s)
  unfolding handle_controller_command subscription_message command_number signal ◌>>=◌ value gets
      modify pure
  handle_controller_command-un_subscribe types s words =
      let size : is_empty (w.put_u32 4) ≡ false = ground (arith, w.size-put_u32 4) in
      let four : w.get_u32 (w.put_u32 4) ≡ some 4 = w.get_u32-put_u32 4 (omega arith) in
      rw (size, four, continue, change_subscriptions-called unsubscribed types s words) refl

module _ {F : Type 0} ⦃w : Wire F⦄ where
  -- What `UnSubscribe` sends makes the subscriber, when its listener gets it, subscribe to the types that
  -- it was to unsubscribe from, in their order, and unsubscribe from none; it then signals once. The
  -- types have to be words: not empty, and without spaces and zeros.
  pub unsubscribe_from-subscribes :
      (types : List NotificationType) (ready : Bool) (n : Network Socket F)
      (s : NotifySubscriber NotificationType)
      → AreWords types
      → (controller_reactor (last_message (unsubscribe_from types ready n).1) s).1
        ≡ after_command subscribed types s
  unfolding unsubscribe_from sub_or_unsub transmit controller_reactor ◌>>=◌ gets modify pure
      continue network_send
  unsubscribe_from-subscribes types ready n s words =
      let m = subscription_message {F = F} subscribe types in
      let ret = s.signal_answers s.signals in
      let passed : Act (NotifySubscriber NotificationType) ℤ = (do
        ret ← handle_controller_command m
        pure (if is_neg ret then ret else pos 0)) in
      ap (λ r. r.1)
        (caught-returned passed s (after_command subscribed types s)
          (if is_neg ret then ret else pos 0)
          (rw (handle_controller_command-subscribe F types s words, continue) refl))
