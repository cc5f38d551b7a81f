-- ===== src/Client/States.antt =====
-- include/mqtt5/client.hpp: the states of the four regions of `connection_sm_t`. Each region
-- begins in its first state.
use mqtt.Base.{Bool, true, false}

pub data MainState : Type 0 where
  idle start_handshake handshaking connected disconnected : MainState

pub data ReceiveState : Type 0 where
  rx_idle rx_receiving : ReceiveState

pub data PingState : Type 0 where
  ping_idle ping_waiting : PingState

pub data KeepAliveState : Type 0 where
  keep_alive_idle keep_alive_waiting : KeepAliveState

pub record ConnectionSm : Type 0 where
  pub main : MainState
  pub rx : ReceiveState
  pub ping : PingState
  pub keep_alive : KeepAliveState

abbrev pub initial : ConnectionSm
initial = record { main = idle; rx = rx_idle; ping = ping_idle; keep_alive = keep_alive_idle }

-- `sm::is(connected)`
unfoldable pub is_connected_state : MainState → Bool
is_connected_state connected = true
is_connected_state state = false

-- `sm::is(handshaking)`
unfoldable pub is_handshaking_state : MainState → Bool
is_handshaking_state handshaking = true
is_handshaking_state state = false
