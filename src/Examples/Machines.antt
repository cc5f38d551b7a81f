-- ===== src/Examples/Machines.antt =====
-- The state machine of the client, and histories.
use mqtt.Base.{◌≡◌, refl, List, [], ◌∷◌, Option, none, some, ok, ◌>>=◌, arith}
use mqtt.Packet.Connack.{Connack}
use mqtt.Packet.Connack.Properties as ConnackProperties
use mqtt.PublishOptions.{qos_value}
use mqtt.ControlPacket.{connack, puback}
use mqtt.Client.States.{connected, rx_idle}
use mqtt.Client.{Client, new_client}
use mqtt.Client.Sending.{ack_for}
use mqtt.Client.Delivering.WellFormed.{Keeps}
use mqtt.Client.Machine.{
  Event, handshake_evt, disconnect_evt, packet_received_evt, packet_handler, no_action,
  ac_start_handshake, main_row, anonymous_row,
}
use mqtt.Client.Machine.Laws.{
  by_event, at_once, MainRun, starts, steps, HasConnack, connected-HasConnack,
}
use mqtt.Client.Machine.Dispatch.{process_event, start_connect}
use mqtt.Client.Machine.Linked.{IsLinked, IsJoined}
use mqtt.Client.Machine.Handshake.{no_resume, table_order, running}
use mqtt.Client.Machine.Timer.{IsConnected, connect-IsConnected}
use mqtt.Client.History.{
  Operation, publishes, connects, happens, run_history, run_history-IsWellFormed,
  run_history-IsJoined,
}

abbrev a_connack : Connack
a_connack = record { flags = 0; reason_code = 0; properties = ConnackProperties.dflt }

abbrev events : List (Option Event)
events = some (packet_received_evt (connack a_connack)) ∷ none ∷ some handshake_evt ∷ []

abbrev connected_run : MainRun events connected
unfolding main_row anonymous_row
connected_run =
    steps (steps (steps starts (by_event no_action refl)) (at_once ac_start_handshake refl))
      (by_event (packet_handler (connack a_connack)) refl)

connected-HasConnack_example : HasConnack events
connected-HasConnack_example = connected-HasConnack connected_run refl

abbrev history : List Operation
history =
    connects
    ∷ happens (packet_received_evt (connack a_connack))
    ∷ publishes (97 ∷ []) (1 ∷ []) (qos_value 1 ∷ []) 7
    ∷ happens (packet_received_evt (puback (ack_for 1 0)))
    ∷ happens disconnect_evt
    ∷ []

run_history-IsWellFormed_example :
    Keeps IsLinked (run_history no_resume table_order history new_client)
run_history-IsWellFormed_example =
    run_history-IsWellFormed no_resume table_order (λ x c w. w) history (omega arith)

connect-IsConnected_example :
    (c' : Client) × ((start_connect no_resume table_order new_client
        >>= process_event no_resume table_order (packet_received_evt (connack a_connack)))
      ≡ ok c')
    × IsConnected a_connack new_client c'
connect-IsConnected_example = connect-IsConnected a_connack new_client refl

abbrev cut_client : Client
cut_client = record new_client { connection_sm = record running { rx = rx_idle } }

abbrev joined_client : Client
joined_client = record new_client { connection_sm = running }

run_history-IsJoined_example :
    Keeps IsJoined (run_history no_resume table_order history joined_client)
run_history-IsJoined_example =
    run_history-IsJoined no_resume table_order (λ x c w. w) history joined_client (omega arith)
      (record {
        identifier = omega arith;
        maximum = omega arith;
        sends = omega arith;
        in_flight = tt;
        waiting = tt;
        unreleased = tt;
        machine = refl;
      })
