-- ===== src/Client/Subscriber.antt =====
-- include/mqtt5/client.hpp: `subscriber` and its overloads, `unsubscriber` and `filtered_subscriber`; and
-- the senders of include/mqtt5/detail that they make, with their `connect` and `start`.
pub mod Text
use mqtt.Base.{ℕ, List, [], ◌∷◌, Bool, false, Result}
use mqtt.Properties.{no_base}
use mqtt.TopicFilter.{Level}
use mqtt.Packet.Subscribe.{Subscribe}
use mqtt.Packet.Unsubscribe.{Unsubscribe}
use mqtt.Client.{Client}
use mqtt.Client.Delivering.{start_filter_subscribe}
use mqtt.Client.Subscribing.{SingleSubscription, start_subscribe, start_unsubscribe}

pub record SubscribeSender : Type 0 where
  pub modifier : Subscribe → Subscribe
  pub subscriptions : List SingleSubscription

unfoldable pub subscriber_modified :
    List SingleSubscription → (Subscribe → Subscribe) → SubscribeSender
subscriber_modified subs modifier = record { modifier = modifier; subscriptions = subs }

unfoldable pub subscriber : List SingleSubscription → SubscribeSender
unfolding subscriber_modified
subscriber subs = subscriber_modified subs (λ message. message)

abbrev pub default_subscription : SingleSubscription
default_subscription = record {
  topic = [];
  quality_of_service = 1;
  no_local = false;
  retain_as_published = false;
  subscription_retain_handling = 0;
}

unfoldable pub subscriber_to : List Level → ℕ → SubscribeSender
unfolding subscriber_modified
subscriber_to topic qos =
    subscriber_modified
      (record default_subscription { topic = topic; quality_of_service = qos } ∷ [])
      (λ message. message)

unfoldable pub start_subscriber : SubscribeSender → ℕ → Client → Result Client
start_subscriber sender receiver c = start_subscribe sender.modifier sender.subscriptions receiver c

abbrev pub unsubscriber : List (List ℕ) → Unsubscribe
unsubscriber topics = record { packet_identifier = 0; properties = no_base; topics = topics }

unfoldable pub start_unsubscriber : List (List ℕ) → ℕ → Client → Client
start_unsubscriber topics receiver c = start_unsubscribe (unsubscriber topics) receiver c

unfoldable pub start_filtered_subscriber : List Level → ℕ → Client → Client
start_filtered_subscriber topic receiver c = start_filter_subscribe topic receiver c
