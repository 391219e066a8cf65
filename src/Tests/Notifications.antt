-- ===== src/Tests/Notifications.antt =====
-- The rounds of the subscriber of liblhcluster/src/notifysubscriber.cxx and the publisher of
-- liblhcluster/src/notifypublisher.cxx, at small examples.
use lhcluster.Common.{◌≡◌, refl, true, false, some, List, [], ◌∷◌}
use lhcluster.Common.Int.{pos}
use lhcluster.Cluster.{RequestStatus, fatal_error}
use lhcluster.Wire.{Message}
use lhcluster.Wire.Plain.{PlainFrame, plain_wire}
use lhcluster.Action.{returned}
use lhcluster.Notify.{subscribe, subscription_message}
use lhcluster.Common.{none}
use lhcluster.Notify.{NotifySubscriber, no_exit, subscribed, controller_reactor, unsubscribe_from}
use lhcluster.Notify.Strings.{c_str, NotificationType, IsWord, get_frame_value_as_str, value_as_str}
use lhcluster.Notify.Commands.{after_command, unsubscribe_from-subscribes}
use lhcluster.Action.{last_message}
use lhcluster.Wire.Plain.{plain_beq}
use lhcluster.Notify.Reactor.{Round, notification, command, reconnect_timer, start_as_primary}
use lhcluster.Notify.Rounds.{start_as_primary-GoesOn}
use lhcluster.Notify.Renewed.{times, start_as_primary-renewed}
use lhcluster.Notify.Publisher.{
  publish, publish_id, publish_message, publish_id_message, IsNotified, publish-IsNotified,
}
use lhcluster.Tests.Data
use lhcluster.Tests.Proxies.{network_of}

-- "p1" and "p2"
abbrev p1 : NotificationType
p1 = 112 ∷ 49 ∷ []

abbrev p2 : NotificationType
p2 = 112 ∷ 50 ∷ []

p1-IsWord : IsWord p1
p1-IsWord = (refl, (refl, refl, (refl, refl, tt)))

abbrev subscriber : NotifySubscriber NotificationType
subscriber = record {
  exit_state = no_exit;
  subscriptions = p1 ∷ [];
  subscription_calls = subscribed p1 ∷ [];
  signal_answers = Data.always (pos 0);
  signals = 0;
}

-- A handler that always fails.
abbrev fails : NotificationType → Message PlainFrame → RequestStatus
fails t m = fatal_error

-- A round in which the handler fails, one without a connection, and one with a command and a frame that
-- does not parse.
abbrev rough : List (Round PlainFrame)
rough =
    record {
      connect_fails = false;
      callbacks_fail = false;
      events = notification (some (p1 ∷ [])) ∷ [];
    }
    ∷ record { connect_fails = true; callbacks_fail = false; events = [] }
    ∷ record {
      connect_fails = false;
      callbacks_fail = false;
      events =
          command (some (subscription_message subscribe (p2 ∷ [])))
          ∷ command (some ((9 ∷ []) ∷ []))
          ∷ [];
    }
    ∷ []

start_as_primary-GoesOn_example : (start_as_primary fails rough subscriber).0 ≡ returned true
unfolding subscription_message
start_as_primary-GoesOn_example =
    start_as_primary-GoesOn fails rough subscriber ((refl, tt), (tt, ((refl, (refl, tt)), tt))) refl

abbrev quiet : Round PlainFrame
quiet = record { connect_fails = false; callbacks_fail = false; events = reconnect_timer ∷ [] }

start_as_primary-renewed_example :
    ((start_as_primary fails (quiet ∷ quiet ∷ []) subscriber).0 ≡ returned true)
    × (times
          (plain_beq p1)
          (start_as_primary fails (quiet ∷ quiet ∷ []) subscriber).1.subscription_calls
        ≡ 3)
unfolding plain_beq c_str
start_as_primary-renewed_example =
    start_as_primary-renewed fails (plain_beq p1) (quiet ∷ quiet ∷ []) subscriber (
      record { later = []; connects = refl; calls_back = refl; woken = refl },
      (record { later = []; connects = refl; calls_back = refl; woken = refl }, tt),
    )

publish-IsNotified_example :
    let n = network_of (Data.always (pos 0)) in
    IsNotified p1 [] (publish p1 n).1
    × IsNotified p1 ((2 ∷ 9 ∷ []) ∷ []) (publish_id p1 9 n).1
    × IsNotified p1 Data.data_frames (publish_message p1 Data.data_frames n).1
    × IsNotified p1 ((2 ∷ 9 ∷ []) ∷ Data.data_frames) (publish_id_message p1 9 Data.data_frames n).1
publish-IsNotified_example =
    publish-IsNotified p1 9 Data.data_frames (network_of (Data.always (pos 0))) p1-IsWord

unsubscribe_from-subscribes_example :
    (controller_reactor
      (last_message (unsubscribe_from (p1 ∷ []) true (network_of (Data.always (pos 0)))).1)
      subscriber).1
    ≡ after_command subscribed (p1 ∷ []) subscriber
unsubscribe_from-subscribes_example =
    unsubscribe_from-subscribes (p1 ∷ []) true (network_of (Data.always (pos 0))) subscriber
      (p1-IsWord, tt)

-- "a b" is read back as "a", and the empty type is not read back at all.
cut_at_space :
    get_frame_value_as_str {F = PlainFrame} (value_as_str (97 ∷ 32 ∷ 98 ∷ [])) ≡ some (97 ∷ [])
unfolding get_frame_value_as_str value_as_str
cut_at_space = refl

empty_unread : get_frame_value_as_str {F = PlainFrame} (value_as_str []) ≡ none
unfolding get_frame_value_as_str value_as_str
empty_unread = refl
