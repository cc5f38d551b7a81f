-- ===== src/Client.antt =====
-- include/mqtt5/client.hpp: the state of a client, and what it does to the world outside. A receiver
-- is known by a number.
pub mod States
pub mod Find
pub mod Identifiers
pub mod WellFormed
pub mod Sending
pub mod Publisher
pub mod Delivering
pub mod Subscribing
pub mod Subscriber
pub mod Connecting
pub mod Machine
pub mod History
use mqtt.Base.{ℕ, List, [], ◌∷◌, ◌++◌, Option, none, Bool, true}
use mqtt.TopicFilter.{Level}
use mqtt.Wire.Text.{KeyValuePair}
use mqtt.Packet.Publish.{Publish}
use mqtt.Packet.Subscribe.{Subscribe}
use mqtt.Packet.Unsubscribe.{Unsubscribe}
use mqtt.ControlPacket.{ControlPacket}
use States.{ConnectionSm, initial}

-- `in_flight_publish::state_type`
pub data PublishState : Type 0 where
  waiting_puback waiting_pubrec waitiing_pubcomp : PublishState

pub record InFlightPublish : Type 0 where
  pub message : Publish
  pub receiver : ℕ
  pub state : PublishState

pub record InFlightSubscribe : Type 0 where
  pub message : Subscribe
  pub receiver : ℕ

pub record InFlightUnsubscribe : Type 0 where
  pub message : Unsubscribe
  pub receiver : ℕ

pub record FilteredSubscription : Type 0 where
  pub filter : List Level
  pub receivers : List ℕ

-- A `publish_op_starter`: what its function has captured.
pub record QueuedPublish : Type 0 where
  pub message : Publish
  pub receiver : ℕ

-- `last_will_t` of include/mqtt5/connect_options.hpp
pub record LastWill : Type 0 where
  pub topic : List ℕ
  pub payload : List ℕ
  pub content_type : List ℕ
  pub response_topic : List ℕ
  pub correlation_data : List ℕ
  pub user_property : List KeyValuePair
  pub delay_interval : ℕ
  pub message_expiry_interval : ℕ
  pub retain : Bool
  pub quality_of_service : ℕ
  pub payload_format_indicator : ℕ

pub record ConnectOptions : Type 0 where
  pub last_will : Option LastWill
  pub client_id : List ℕ
  pub keep_alive : ℕ
  pub username : List ℕ
  pub password : List ℕ
  pub receive_maximum : ℕ
  pub clean_start : Bool

-- A call of a receiver's `set_value` or `set_done`.
pub data Completion : Type 0 where
  publish_value : ℕ → ℕ → Completion
  publish_done : ℕ → Completion
  subscribe_value : ℕ → List ℕ → Completion
  unsubscribe_value : ℕ → List ℕ → Completion
  message_value : ℕ → Publish → Completion
  connect_value : ℕ → Completion
  connect_done : ℕ → Completion

-- What the client does outside itself: a packet that it hands to the connection's writer, a receiver
-- that it calls, the socket that it closes, and the operations that it starts.
pub data Effect : Type 0 where
  sent : ControlPacket → Effect
  completed : Completion → Effect
  closed : Effect
  receive_started : Effect
  connect_timer_started : Effect
  ping_timer_started : ℕ → Effect
  ping_timer_stopped : Effect
  keep_alive_timer_started : ℕ → Effect
  keep_alive_timer_stopped : Effect

pub record Client : Type 0 where
  pub next_identifier : ℕ
  pub connect_receivers : List ℕ
  pub connect_opts : ConnectOptions
  pub keep_alive_used : ℕ
  pub client_id : List ℕ
  pub published_messages : List InFlightPublish
  pub subscribe_messages : List InFlightSubscribe
  pub unsubscribe_messages : List InFlightUnsubscribe
  pub publish_waiters : List FilteredSubscription
  -- A `received_qos2_state` has one value of its enumeration only.
  pub received_qos2_states : List Publish
  pub queued_publishes : List QueuedPublish
  pub server_max_send_quota : ℕ
  pub server_send_quota : ℕ
  pub client_receive_quota : ℕ
  pub connection_sm : ConnectionSm
  pub effects : List Effect

abbrev pub default_options : ConnectOptions
default_options = record {
  last_will = none;
  client_id = [];
  keep_alive = 0;
  username = [];
  password = [];
  receive_maximum = 65535;
  clean_start = true;
}

abbrev pub new_client : Client
new_client = record {
  next_identifier = 1;
  connect_receivers = [];
  connect_opts = default_options;
  keep_alive_used = 0;
  client_id = [];
  published_messages = [];
  subscribe_messages = [];
  unsubscribe_messages = [];
  publish_waiters = [];
  received_qos2_states = [];
  queued_publishes = [];
  server_max_send_quota = 65535;
  server_send_quota = 65535;
  client_receive_quota = 65535;
  connection_sm = initial;
  effects = [];
}

abbrev pub emit : Effect → Client → Client
emit e c = record c { effects = c.effects ++ e ∷ [] }

-- The writer is started on the packet.
abbrev pub send_message : ControlPacket → Client → Client
send_message packet c = emit (sent packet) c

abbrev pub close : Client → Client
close c = emit closed c
