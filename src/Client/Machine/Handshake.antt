-- ===== src/Client/Machine/Handshake.antt =====
-- A handshake from its start to the CONNACK, where receivers do not call the client and the regions
-- are served in the order of the table.
use mqtt.Base.{
  ℕ, ◌/◌, ◌≡◌, refl, List, [], ◌∷◌, ◌++◌, true, ok, ltb, if◌then◌else◌, Bool-cases, inl, inr,
  append_assoc, append-nil, map,
}
use mqtt.Packet.Connack.{Connack}
use mqtt.ControlPacket.{connack}
use mqtt.ControlPacket
use mqtt.Client.States.{
  ConnectionSm, handshaking, connected, rx_receiving, ping_idle, ping_waiting, keep_alive_idle,
  keep_alive_waiting, initial, is_connected_state,
}
use mqtt.Client.{
  Completion, connect_value, Effect, sent, completed, receive_started, connect_timer_started,
  ping_timer_started, keep_alive_timer_started, Client,
}
use mqtt.Client.Connecting.{
  connect_packet, send_connect, negotiated, notify, notify_connector_receivers, handle_connack,
}
use mqtt.Client.Machine.{
  packet_received_evt, main_row, anonymous_row, receive_row, ping_row, keep_alive_row, perform,
}
use mqtt.Client.Machine.Dispatch.{
  Region, main_region, rx_region, ping_region, keep_alive_region, is_connected, take_row, offer,
  offer_all, dispatch, handshake_done, process_event, start_connect,
}

abbrev pub no_resume : Completion → Client → Client
no_resume x c = c

abbrev pub table_order : List Region
table_order = main_region ∷ rx_region ∷ ping_region ∷ keep_alive_region ∷ []

abbrev pub shaking : ConnectionSm
shaking = record {
  main = handshaking;
  rx = rx_receiving;
  ping = ping_idle;
  keep_alive = keep_alive_idle;
}

abbrev pub running : ConnectionSm
running = record {
  main = connected;
  rx = rx_receiving;
  ping = ping_waiting;
  keep_alive = keep_alive_waiting;
}

-- A connect on a client whose machine is in its first states: a read is started, the timer of the
-- handshake, and the CONNECT packet of the options is sent; the machine is handshaking.
pub start_connect-shaking :
    (c : Client)
    → c.connection_sm ≡ initial
    → start_connect no_resume table_order c
      ≡ ok (record c {
        keep_alive_used = c.connect_opts.keep_alive;
        client_id = c.connect_opts.client_id;
        connection_sm = shaking;
        effects =
            c.effects
            ++ receive_started
              ∷ connect_timer_started
              ∷ sent (ControlPacket.connect (connect_packet c.connect_opts))
              ∷ [];
      })
unfolding start_connect is_connected is_connected_state process_event dispatch offer_all offer
    take_row main_row receive_row ping_row keep_alive_row anonymous_row perform send_connect
start_connect-shaking c h = simp (h, append_assoc)

notify-no_resume :
    (recvs : List ℕ) (c : Client)
    → notify no_resume true recvs c
      ≡ record c { effects = c.effects ++ map (λ r. completed (connect_value r)) recvs }
unfolding notify
notify-no_resume [] c = simp append-nil
notify-no_resume (r ∷ rs) c = simp (notify-no_resume rs, append_assoc)

-- The timers that run with a keep-alive that is not 0.
abbrev pub ping_effects : ℕ → List Effect
ping_effects k = if ltb 0 k then ping_timer_started (k / 2) ∷ [] else []

abbrev pub keep_alive_effects : ℕ → List Effect
keep_alive_effects k = if ltb 0 k then keep_alive_timer_started k ∷ [] else []

-- The event that the handshake is done, in a client that is connected.
handshake_done_lem :
    (c : Client)
    → c.connection_sm ≡ record shaking { main = connected }
    → handshake_done no_resume table_order c
      ≡ ok (record c {
        connection_sm = running;
        effects =
            c.effects ++ (ping_effects c.keep_alive_used ++ keep_alive_effects c.keep_alive_used);
      })
unfolding handshake_done dispatch offer_all offer take_row main_row receive_row ping_row
    keep_alive_row anonymous_row perform
handshake_done_lem c h = elim (Bool-cases (ltb 0 c.keep_alive_used)) [
  | inl t ↦ simp (h, t, append_assoc)
  | inr f ↦ simp (h, f, append-nil)
]

abbrev pub greeted : List ℕ → List Effect
greeted recvs = map (λ r. completed (connect_value r)) recvs

handle_connack_lem :
    (p : Connack) (c : Client)
    → c.connection_sm ≡ record shaking { main = connected }
    → handle_connack no_resume (handshake_done no_resume table_order) p c
      ≡ ok (record (negotiated p c) {
        connection_sm = running;
        connect_receivers = [];
        effects =
            c.effects
            ++ (ping_effects (negotiated p c).keep_alive_used
                ++ (keep_alive_effects (negotiated p c).keep_alive_used
                    ++ greeted c.connect_receivers));
      })
unfolding handle_connack notify_connector_receivers negotiated
handle_connack_lem p c h =
    simp (handshake_done_lem (negotiated p c) h, notify-no_resume, append_assoc)

-- What the client does at the end of a handshake, with the keep-alive that it uses.
abbrev pub finish_effects : ℕ → List ℕ → List Effect
finish_effects k recvs =
    ping_effects k
    ++ (keep_alive_effects k ++ (greeted recvs ++ receive_started ∷ keep_alive_effects k))

pub process_event-connack :
    (p : Connack) (c : Client)
    → c.connection_sm ≡ shaking
    → process_event no_resume table_order (packet_received_evt (connack p)) c
      ≡ ok (record (negotiated p c) {
        connection_sm = running;
        connect_receivers = [];
        effects = c.effects ++ finish_effects (negotiated p c).keep_alive_used c.connect_receivers;
      })
unfolding process_event dispatch offer_all offer take_row main_row receive_row ping_row
    keep_alive_row anonymous_row perform negotiated
process_event-connack p c h =
    let c1 = record c { connection_sm = record shaking { main = connected } } in
    elim (Bool-cases (ltb 0 (negotiated p c).keep_alive_used)) [
      | inl t ↦ simp (h, handle_connack_lem p c1 refl, append_assoc, t)
      | inr f ↦ simp (h, handle_connack_lem p c1 refl, append_assoc, f)
    ]
