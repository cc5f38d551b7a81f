-- ===== src/Client/Machine/Dispatch.antt =====
-- include/mqtt5/client.hpp: the state machine at work, and include/mqtt5/detail/connect_sender.hpp,
-- which starts it. The order in which an event is offered to the regions is boost::sml's.
use mqtt.Base.{
  ℕ, List, [], ◌∷◌, ◌++◌, Bool, true, Option, none, some, Result, ok, ◌>>=◌, if◌then◌else◌,
}
use mqtt.Client.States.{
  ConnectionSm, MainState, ReceiveState, PingState, KeepAliveState, is_connected_state,
  is_handshaking_state,
}
use mqtt.Client.{ConnectOptions, Completion, Client}
use mqtt.Client.Connecting.{notify_connector_receivers}
use mqtt.Client.Machine.{
  Event, handshake_evt, handshake_done_evt, Action, main_row, anonymous_row, receive_row, ping_row,
  keep_alive_row, perform,
}

pub data Region : Type 0 where
  main_region rx_region ping_region keep_alive_region : Region

abbrev pub in_main : MainState → ConnectionSm → ConnectionSm
in_main s sm = record sm { main = s }

abbrev pub in_rx : ReceiveState → ConnectionSm → ConnectionSm
in_rx s sm = record sm { rx = s }

abbrev pub in_ping : PingState → ConnectionSm → ConnectionSm
in_ping s sm = record sm { ping = s }

abbrev pub in_keep_alive : KeepAliveState → ConnectionSm → ConnectionSm
in_keep_alive s sm = record sm { keep_alive = s }

unfoldable pub is_connected : Client → Bool
unfolding is_connected_state
is_connected c = is_connected_state c.connection_sm.main

unfoldable pub is_handshaking : Client → Bool
unfolding is_handshaking_state
is_handshaking c = is_handshaking_state c.connection_sm.main

module _ (resume : Completion → Client → Client) where
  -- A row is taken: the region is in its new state, and its action is performed. Without a row the
  -- event is ignored.
  unfoldable pub take_row :
      {S : Type 0}
      → (Client → Result Client)
      → (S → ConnectionSm → ConnectionSm)
      → Option (Action × S)
      → Client
      → Result Client
  unfolding perform
  take_row process into none c = ok c
  take_row process into (some (action, s)) c =
      perform resume process action (record c { connection_sm = into s c.connection_sm })

  -- An event is offered to a region.
  unfoldable pub offer : (Client → Result Client) → Region → Event → Client → Result Client
  unfolding take_row main_row receive_row ping_row keep_alive_row
  offer process main_region e c = take_row process in_main (main_row c.connection_sm.main e) c
  offer process rx_region e c = take_row process in_rx (receive_row c.connection_sm.rx e) c
  offer process ping_region e c = take_row process in_ping (ping_row c.connection_sm.ping e) c
  offer process keep_alive_region e c =
      take_row process in_keep_alive (keep_alive_row c.connection_sm.keep_alive e) c

  unfoldable pub offer_all : (Client → Result Client) → List Region → Event → Client → Result Client
  unfolding offer
  offer_all process [] e c = ok c
  offer_all process (r ∷ rs) e c = offer process r e c >>= offer_all process rs e

  -- To all regions, and then the rows with no event.
  unfoldable pub dispatch : (Client → Result Client) → List Region → Event → Client → Result Client
  unfolding offer_all anonymous_row
  dispatch process order e c = offer_all process order e c >>= λ c'.
      take_row process in_main (anonymous_row c'.connection_sm.main) c'

  module _ (order : List Region) where
    -- The one event that an action raises. Its own actions raise none.
    unfoldable pub handshake_done : Client → Result Client
    unfolding dispatch
    handshake_done c = dispatch (λ c'. ok c') order handshake_done_evt c

    -- `process_event` as it is called from outside the machine.
    unfoldable pub process_event : Event → Client → Result Client
    unfolding handshake_done dispatch
    process_event e c = dispatch handshake_done order e c

    -- `connect_sender::operation::start`
    unfoldable pub start_connect : Client → Result Client
    unfolding process_event is_connected
    start_connect c =
        if is_connected c
        then ok (notify_connector_receivers resume true c)
        else process_event handshake_evt c

-- `handshaker`, which keeps the options, and `connect_sender::connect`, which keeps the receiver.
unfoldable pub handshaker : ConnectOptions → Client → Client
handshaker opts c = record c { connect_opts = opts }

unfoldable pub connect_receiver : ℕ → Client → Client
connect_receiver receiver c = record c { connect_receivers = c.connect_receivers ++ receiver ∷ [] }
