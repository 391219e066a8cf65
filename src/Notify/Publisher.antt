-- ===== src/Notify/Publisher.antt =====
-- The publisher of notifications of liblhcluster/src/notifypublisher.cxx, and its notifications at the
-- subscriber of liblhcluster/src/notifysubscriber.cxx.
use lhcluster.Common.{ℕ, ◌≡◌, refl, [], ◌∷◌}
use lhcluster.Common.Int.{ℤ}
use lhcluster.Cluster.{RequestStatus}
use lhcluster.Wire.{Wire, Message}
use lhcluster.Notify.Strings.{
  NotificationType, IsWord, value_as_str, value_as_str-filled, get_frame_value_as_str-value_as_str,
}
use lhcluster.Action.{
  last_message, Act, pure, gets, modify, value, continue, ◌>>=◌, Network, network_send, transmit,
}
use lhcluster.Notify.{NotifySubscriber, after_notification, handle_publisher_notification}

-- `selfPublisherSocket`
pub data Socket : Type 0 where
  self_publisher : Socket

module _ {F : Type 0} ⦃w : Wire F⦄ where
  -- `Publish( notifyType )`
  unfoldable pub publish : NotificationType → Act (Network Socket F) ℤ
  unfolding transmit
  publish type = transmit self_publisher (value_as_str type ∷ [])

  -- `Publish( notifyType, requestId )`
  unfoldable pub publish_id : NotificationType → ℕ → Act (Network Socket F) ℤ
  unfolding transmit
  publish_id type id = transmit self_publisher (value_as_str type ∷ w.put_u64 id ∷ [])

  -- `Publish( notifyType, lpZMQMessage )`
  unfoldable pub publish_message : NotificationType → Message F → Act (Network Socket F) ℤ
  unfolding transmit
  publish_message type m = transmit self_publisher (value_as_str type ∷ m)

  -- `Publish( notifyType, requestId, lpZMQMessage )`
  unfoldable pub publish_id_message : NotificationType → ℕ → Message F → Act (Network Socket F) ℤ
  unfolding transmit
  publish_id_message type id m = transmit self_publisher (value_as_str type ∷ w.put_u64 id ∷ m)

module _ {F : Type 0} ⦃w : Wire F⦄ where
  -- The subscriber that receives the last message that was sent gives its handler the type and these
  -- frames, and does what the handler's status says.
  abbrev pub IsNotified : NotificationType → Message F → Network Socket F → Type 0
  IsNotified type frames n =
      (process : NotificationType → Message F → RequestStatus)
      (s : NotifySubscriber NotificationType)
      → handle_publisher_notification process (last_message n) s
        ≡ after_notification (process type frames) type s

  notified :
      (type : NotificationType) (frames : Message F) (n : Network Socket F)
      → IsWord type
      → IsNotified type frames (network_send self_publisher (value_as_str type ∷ frames) n)
  unfolding handle_publisher_notification value ◌>>=◌ continue network_send
  notified type frames n word process s =
      rw
        (value_as_str-filled w type word, get_frame_value_as_str-value_as_str w type word, continue)
        refl

  -- Whichever of the four ways to publish is taken, a subscriber that receives the message that was sent
  -- gives its handler the type, and behind it the request id, where there is one, and the frames of the
  -- caller's message; and it does what the handler's status says. The type has to be a word: not empty,
  -- and without spaces and zeros.
  pub publish-IsNotified :
      (type : NotificationType) (id : ℕ) (m : Message F) (n : Network Socket F)
      → IsWord type
      → IsNotified type [] (publish type n).1
        × IsNotified type (w.put_u64 id ∷ []) (publish_id type id n).1
        × IsNotified type m (publish_message type m n).1
        × IsNotified type (w.put_u64 id ∷ m) (publish_id_message type id m n).1
  unfolding publish publish_id publish_message publish_id_message transmit ◌>>=◌ gets modify pure
      continue
  publish-IsNotified type id m n word = (
    notified type [] n word,
    notified type (w.put_u64 id ∷ []) n word,
    notified type m n word,
    notified type (w.put_u64 id ∷ m) n word,
  )
