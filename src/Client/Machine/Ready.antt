-- ===== src/Client/Machine/Ready.antt =====
-- When an action may run, and what the events that the client itself raises find.
use mqtt.Base.{◌≡◌, ◌≢◌, refl, Option, none, some, false, arith}
use mqtt.ControlPacket.{connack}
use mqtt.Client.States.{ConnectionSm, MainState, handshaking, connected, is_connected_state}
use mqtt.Client.Machine.{
  Event, handshake_evt, handshake_done_evt, packet_received_evt, Action, packet_handler, main_row,
  receive_row, ping_row, keep_alive_row,
}
use mqtt.Client.Machine.Dispatch.{Region, in_main}
use mqtt.Client.Machine.Kept.{advance, IsExternal}

-- A connected client stays so through the event that its handshake is done.
pub done-connected :
    (r : Region) (sm : ConnectionSm)
    → sm.main ≡ connected
    → (advance r handshake_done_evt sm).main ≡ connected
unfolding advance main_row receive_row ping_row keep_alive_row
done-connected r sm h = ground arith

pub handshake-not_connected :
    (r : Region) (sm : ConnectionSm)
    → sm.main ≢ connected
    → (advance r handshake_evt sm).main ≢ connected
unfolding advance main_row receive_row ping_row keep_alive_row
handshake-not_connected r sm h = ground arith

-- An action may run in the states that its row leads to.
abbrev pub IsReady : Action → ConnectionSm → Type 0
IsReady (packet_handler (connack p)) sm =
    (sm.main ≡ connected) × IsExternal (packet_received_evt (connack p))
IsReady a sm = Unit {0}

abbrev pub IsReadyRow : Option (Action × MainState) → ConnectionSm → Type 0
IsReadyRow none sm = Unit {0}
IsReadyRow (some (a, s)) sm = IsReady a (in_main s sm)

pub main_row-IsReady :
    (s : MainState) (e : Event) (sm : ConnectionSm) → IsExternal e → IsReadyRow (main_row s e) sm
unfolding main_row
main_row-IsReady handshaking (packet_received_evt (connack p)) sm h = (refl, h)
main_row-IsReady s e sm h = ground arith

pub is_connected_state-ne : (s : MainState) → is_connected_state s ≡ false → s ≢ connected
unfolding is_connected_state
is_connected_state-ne s h = ground arith
