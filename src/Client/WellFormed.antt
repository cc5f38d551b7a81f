-- ===== src/Client/WellFormed.antt =====
-- The invariant of a client's state.
use mqtt.Base.{ℕ, ◌^◌, ◌<◌, ◌≤◌, ◌≡◌, ◌≢◌, ◌↔◌, List, All}
use mqtt.Packet.Publish.{Publish, quality_of_service}
use mqtt.Client.States.{ConnectionSm}
use mqtt.Client.{InFlightPublish, PublishState, waiting_puback, QueuedPublish, Client}
use mqtt.Client.Find.{IsDistinct}

abbrev pub IsIdentifier : ℕ → Type 0
IsIdentifier id = (0 < id) × (id < 2 ^ 16)

-- The state of a message goes with its quality of service.
abbrev pub Agrees : Publish → PublishState → Type 0
Agrees message state = (state ≡ waiting_puback) ↔ (quality_of_service message ≢ 2)

abbrev pub IsInFlight : InFlightPublish → Type 0
IsInFlight m = IsIdentifier m.message.packet_identifier × Agrees m.message m.state

abbrev pub IsQueued : QueuedPublish → Type 0
IsQueued q = IsIdentifier q.message.packet_identifier

abbrev pub received_identifier : Publish → ℕ
received_identifier p = p.packet_identifier

-- The parts of the state that it speaks of: the generator, the quota and its maximum, the messages
-- that are sent and that wait, those that are received and not released, and, by a predicate of its
-- states, the state machine.
pub record IsSound (P : ConnectionSm → Type 0) (sm : ConnectionSm) (next max quota : ℕ)
    (published : List InFlightPublish) (queued : List QueuedPublish) (received : List Publish)
    : Type 0 where
  pub identifier : IsIdentifier next
  pub maximum : max < 2 ^ 16
  pub sends : quota ≤ max
  pub in_flight : All IsInFlight published
  pub waiting : All IsQueued queued
  pub unreleased : IsDistinct received_identifier received
  pub machine : P sm

abbrev pub IsWellFormed : (ConnectionSm → Type 0) → Client → Type 0
IsWellFormed P c =
    IsSound P c.connection_sm c.next_identifier c.server_max_send_quota c.server_send_quota
      c.published_messages c.queued_publishes c.received_qos2_states
