-- ===== src/Client/Machine.antt =====
-- include/mqtt5/client.hpp: the transition table of `connection_sm_t`, a region to a function, and
-- what its actions do. The dispatch of events is code of boost::sml.
pub mod Laws
pub mod Dispatch
pub mod Kept
pub mod Raised
pub mod Ready
pub mod Processed
pub mod Linked
pub mod Handshake
pub mod Timer
use mqtt.Base.{ℕ, List, [], ◌∷◌, Option, none, some, Result, ok}
use mqtt.Packet.Connack.{Connack}
use mqtt.ControlPacket.{
  ControlPacket, connack, publish, puback, pubrec, pubrel, pubcomp, suback, unsuback,
}
use mqtt.Client.States.{
  MainState, idle, start_handshake, handshaking, connected, ReceiveState, rx_idle, rx_receiving,
  PingState, ping_idle, ping_waiting, KeepAliveState, keep_alive_idle, keep_alive_waiting,
}
use mqtt.Client.{Completion, Client, receive_started, emit, close}
use mqtt.Client.Sending.{handle_puback, handle_pubrec, handle_pubcomp}
use mqtt.Client.Delivering.{handle_publish, handle_pubrel, puback_sent}
use mqtt.Client.Subscribing.{handle_suback, handle_unsuback}
use mqtt.Client.Connecting.{
  send_connect, send_ping, start_connect_timer, start_ping_timer, stop_ping_timer,
  start_keep_alive_timer, stop_keep_alive_timer, handle_connack,
}

pub data Event : Type 0 where
  handshake_evt : Event
  disconnect_evt : Event
  handshake_done_evt : Event
  packet_received_evt : ControlPacket → Event
  packet_written_evt : Event
  ping_timeout_evt : Event
  keep_alive_timeout_evt : Event
  puback_sent_evt : Event

-- No action is the row that has none.
pub data Action : Type 0 where
  no_action ac_start_handshake close_socket puback_sent_handler start_receiving : Action
  start_pinging send_a_ping stop_pinging start_keep_alive stop_keep_alive : Action
  packet_handler : ControlPacket → Action

-- The packets of which a connected client has a handler.
abbrev pub connected_row : ControlPacket → Option (Action × MainState)
connected_row (puback p) = some (packet_handler (puback p), connected)
connected_row (suback p) = some (packet_handler (suback p), connected)
connected_row (unsuback p) = some (packet_handler (unsuback p), connected)
connected_row (publish p) = some (packet_handler (publish p), connected)
connected_row (pubrec p) = some (packet_handler (pubrec p), connected)
connected_row (pubrel p) = some (packet_handler (pubrel p), connected)
connected_row (pubcomp p) = some (packet_handler (pubcomp p), connected)
connected_row packet = none

abbrev pub handshaking_row : ControlPacket → Option (Action × MainState)
handshaking_row (connack p) = some (packet_handler (connack p), connected)
handshaking_row packet = none

-- The rows of the first region for an event.
unfoldable pub main_row : MainState → Event → Option (Action × MainState)
main_row idle handshake_evt = some (no_action, start_handshake)
main_row handshaking (packet_received_evt packet) = handshaking_row packet
main_row handshaking disconnect_evt = some (close_socket, idle)
main_row connected (packet_received_evt packet) = connected_row packet
main_row connected puback_sent_evt = some (puback_sent_handler, connected)
main_row state event = none

-- The row with no event, which is taken at once.
unfoldable pub anonymous_row : MainState → Option (Action × MainState)
anonymous_row start_handshake = some (ac_start_handshake, handshaking)
anonymous_row state = none

unfoldable pub receive_row : ReceiveState → Event → Option (Action × ReceiveState)
receive_row rx_idle handshake_evt = some (start_receiving, rx_receiving)
receive_row rx_receiving (packet_received_evt packet) = some (start_receiving, rx_receiving)
receive_row rx_receiving disconnect_evt = some (close_socket, rx_idle)
receive_row state event = none

unfoldable pub ping_row : PingState → Event → Option (Action × PingState)
ping_row ping_idle handshake_done_evt = some (start_pinging, ping_waiting)
ping_row ping_waiting disconnect_evt = some (stop_pinging, ping_idle)
ping_row ping_waiting ping_timeout_evt = some (send_a_ping, ping_waiting)
ping_row state event = none

unfoldable pub keep_alive_row : KeepAliveState → Event → Option (Action × KeepAliveState)
keep_alive_row keep_alive_idle handshake_done_evt = some (start_keep_alive, keep_alive_waiting)
keep_alive_row keep_alive_waiting (packet_received_evt packet) =
    some (start_keep_alive, keep_alive_waiting)
keep_alive_row keep_alive_waiting keep_alive_timeout_evt = some (close_socket, keep_alive_idle)
keep_alive_row keep_alive_waiting disconnect_evt = some (stop_keep_alive, keep_alive_idle)
keep_alive_row state event = none

-- The lambdas of the table. `process` is what the machine does with a `handshake_done_evt`.
module _ (resume : Completion → Client → Client) (process : Client → Result Client) where
  abbrev pub handle_packet : ControlPacket → Client → Result Client
  handle_packet (connack p) c = handle_connack resume process p c
  handle_packet (puback p) c = ok (handle_puback resume p c)
  handle_packet (suback p) c = ok (handle_suback resume p c)
  handle_packet (unsuback p) c = ok (handle_unsuback resume p c)
  handle_packet (publish p) c = handle_publish resume p c
  handle_packet (pubrec p) c = ok (handle_pubrec resume p c)
  handle_packet (pubrel p) c = handle_pubrel resume p c
  handle_packet (pubcomp p) c = ok (handle_pubcomp resume p c)
  handle_packet packet c = ok c

  unfoldable pub perform : Action → Client → Result Client
  unfolding send_connect start_ping_timer start_keep_alive_timer puback_sent
  perform no_action c = ok c
  perform ac_start_handshake c = ok (send_connect (start_connect_timer c))
  perform close_socket c = ok (close c)
  perform puback_sent_handler c = ok (puback_sent c)
  perform start_receiving c = ok (emit receive_started c)
  perform start_pinging c = ok (start_ping_timer c)
  perform send_a_ping c = ok (start_ping_timer (send_ping c))
  perform stop_pinging c = ok (stop_ping_timer c)
  perform start_keep_alive c = ok (start_keep_alive_timer c)
  perform stop_keep_alive c = ok (stop_keep_alive_timer c)
  perform (packet_handler packet) c = handle_packet packet c
