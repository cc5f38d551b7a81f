-- ===== src/Client/Connecting.antt =====
-- include/mqtt5/client.hpp: the CONNECT packet of a client, the timers, and the CONNACK handler.
pub mod Laws
use mqtt.Base.{
  ℕ, ◌+◌, ◌/◌, List, [], ◌∷◌, ◌++◌, Bool, true, Option, none, some, ◌==◌, ltb, not, if◌then◌else◌,
  option_case, is_empty, bit_or, Result, ok, ◌>>=◌,
}
use mqtt.Packet.Will.{WillProperties}
use mqtt.Packet.Will
use mqtt.Packet.Connect.{
  Connect, new_connect, clean_start_flag, will_flag, will_retain_flag, password_flag, username_flag,
  will_qos_1, will_qos_2,
}
use mqtt.Packet.Connack.{Connack}
use mqtt.Packet.Disconnect
use mqtt.ControlPacket
use mqtt.Client.{
  LastWill, ConnectOptions, Completion, connect_value, connect_done, connect_timer_started,
  ping_timer_started, ping_timer_stopped, keep_alive_timer_started, keep_alive_timer_stopped,
  Client, emit, send_message,
}
use mqtt.Client.Sending.{complete}

-- What the last will adds to the packet. Its user properties are not taken over.
unfoldable pub will_flags : LastWill → ℕ
will_flags will =
    let flags1 = bit_or 0 will_flag in
    let flags2 = if will.retain then bit_or flags1 will_retain_flag else flags1 in
    if will.quality_of_service == 1
    then bit_or flags2 will_qos_1
    else if will.quality_of_service == 2
    then bit_or flags2 will_qos_2
    else flags2

unfoldable pub with_will : LastWill → Connect → Connect
unfolding will_flags
with_will will connect = record connect {
  flags = will_flags will;
  will_topic = will.topic;
  will_payload = will.payload;
  will_properties = record Will.dflt {
    content_type = will.content_type;
    response_topic = will.response_topic;
    correlation_data = will.correlation_data;
    delay_interval = will.delay_interval;
    message_expiry_interval = will.message_expiry_interval;
    payload_format_indicator = will.payload_format_indicator;
  };
}

-- The flags of the session and of the credentials, from those of the will.
unfoldable pub connect_flags : ConnectOptions → ℕ → ℕ
connect_flags opts flags =
    let flags1 = bit_or flags (if opts.clean_start then 0 else clean_start_flag) in
    let flags2 = if not (is_empty opts.username) then bit_or flags1 username_flag else flags1 in
    if not (is_empty opts.password) then bit_or flags2 password_flag else flags2

-- The packet that `send_connect` puts together.
unfoldable pub connect_packet : ConnectOptions → Connect
unfolding with_will connect_flags
connect_packet opts =
    let connect = option_case opts.last_will new_connect (λ will. with_will will new_connect) in
    record connect {
      keep_alive = opts.keep_alive;
      client_id = opts.client_id;
      connect_properties = record connect.connect_properties {
        shared = record connect.connect_properties.shared {
          receive_maximum = opts.receive_maximum;
        };
      };
      flags = connect_flags opts connect.flags;
      username = if not (is_empty opts.username) then some opts.username else none;
      password = if not (is_empty opts.password) then some opts.password else none;
    }

unfoldable pub send_connect : Client → Client
unfolding connect_packet
send_connect c =
    send_message (ControlPacket.connect (connect_packet c.connect_opts)) (record c {
      keep_alive_used = c.connect_opts.keep_alive;
      client_id = c.connect_opts.client_id;
    })

abbrev pub send_ping : Client → Client
send_ping c = send_message ControlPacket.pingreq c

-- `disconnector`: the packet that it writes. That it closes the socket when it is done is a later
-- event.
unfoldable pub start_disconnect : ℕ → Client → Client
start_disconnect reason c =
    send_message
      (ControlPacket.disconnect (record { reason = reason; properties = Disconnect.dflt })) c

-- The timers. The one of the handshake is also that of the pings.
abbrev pub start_connect_timer : Client → Client
start_connect_timer c = emit connect_timer_started c

unfoldable pub start_ping_timer : Client → Client
start_ping_timer c =
    if ltb 0 c.keep_alive_used then emit (ping_timer_started (c.keep_alive_used / 2)) c else c

abbrev pub stop_ping_timer : Client → Client
stop_ping_timer c = emit ping_timer_stopped c

unfoldable pub start_keep_alive_timer : Client → Client
start_keep_alive_timer c =
    if ltb 0 c.keep_alive_used then emit (keep_alive_timer_started c.keep_alive_used) c else c

abbrev pub stop_keep_alive_timer : Client → Client
stop_keep_alive_timer c = emit keep_alive_timer_stopped c

-- The assignments of `handle_packet(connack)`.
unfoldable pub negotiated : Connack → Client → Client
negotiated connack c = record c {
  keep_alive_used =
      if not (connack.properties.server_keep_alive == 0)
      then connack.properties.server_keep_alive
      else c.keep_alive_used;
  client_id =
      if not (is_empty connack.properties.assigned_client_id)
      then connack.properties.assigned_client_id
      else c.client_id;
  server_max_send_quota = connack.properties.shared.receive_maximum;
  server_send_quota = connack.properties.shared.receive_maximum;
  client_receive_quota = c.connect_opts.receive_maximum;
}

module _ (resume : Completion → Client → Client) where
  -- The loop of `notify_connector_receivers`, over the receivers that it has taken out.
  unfoldable pub notify : Bool → List ℕ → Client → Client
  notify success [] c = c
  notify success (recv ∷ recvs) c =
      notify success recvs
        (complete resume (if success then connect_value recv else connect_done recv) c)

  unfoldable pub notify_connector_receivers : Bool → Client → Client
  unfolding notify
  notify_connector_receivers success c =
      notify success c.connect_receivers (record c { connect_receivers = [] })

  -- `process` is what the state machine does with a `handshake_done_evt`.
  unfoldable pub handle_connack : (Client → Result Client) → Connack → Client → Result Client
  unfolding negotiated notify_connector_receivers
  handle_connack process connack c =
      process (negotiated connack c) >>= λ c'. ok (notify_connector_receivers true c')
