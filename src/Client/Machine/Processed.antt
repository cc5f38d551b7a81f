-- ===== src/Client/Machine/Processed.antt =====
-- The invariant of a client through whatever the state machine processes.
use mqtt.Base.{
  ℕ, ◌≡◌, ◌≢◌, List, [], ◌∷◌, Option, none, some, Bool, true, false, Result, ok, err, ◌>>=◌, arith,
  Bool-cases, inl, inr,
}
use mqtt.Packet.Connack.{Connack}
use mqtt.ControlPacket.{connack, publish, puback, pubrec, pubrel, pubcomp, suback, unsuback}
use mqtt.Client.States.{ConnectionSm, MainState, connected, is_connected_state}
use mqtt.Client.{Completion, Client, connect_value, connect_done, emit, completed}
use mqtt.Client.WellFormed.{IsWellFormed}
use mqtt.Client.Sending.WellFormed.{handle_puback-IsWellFormed, handle_pubcomp-IsWellFormed}
use mqtt.Client.Sending.Released.{handle_pubrec-IsWellFormed}
use mqtt.Client.Delivering.WellFormed.{Keeps, handle_publish-Keeps, handle_pubrel-Keeps}
use mqtt.Client.Subscribing.WellFormed.{handle_suback-IsWellFormed, handle_unsuback-IsWellFormed}
use mqtt.Client.Connecting.{negotiated, notify, notify_connector_receivers, handle_connack}
use mqtt.Client.Machine.{
  Event, handshake_evt, handshake_done_evt, packet_received_evt, Action, packet_handler, main_row,
  anonymous_row, receive_row, ping_row, keep_alive_row, perform,
}
use mqtt.Client.Machine.Dispatch.{
  Region, main_region, rx_region, ping_region, keep_alive_region, in_main, in_rx, in_ping,
  in_keep_alive, take_row, offer, offer_all, dispatch, handshake_done, process_event, is_connected,
  start_connect,
}
use mqtt.Client.Machine.Kept.{after_row, advance, IsExternal, IsKept, with_machine}
use mqtt.Client.Machine.Raised.{
  receive_row-IsSimple, ping_row-IsSimple, keep_alive_row-IsSimple, anonymous_row-IsSimple,
  perform-Keeps_simple, take_row-Keeps_simple, offer_all-Keeps_raised,
}
use mqtt.Client.Machine.Ready.{
  done-connected, handshake-not_connected, IsReady, IsReadyRow, main_row-IsReady,
  is_connected_state-ne,
}

pub bind-Keeps :
    (P Q : ConnectionSm → Type 0) (first : Result Client) (f : Client → Result Client)
    → Keeps P first
    → ((c : Client) → IsWellFormed P c → Keeps Q (f c))
    → Keeps Q (first >>= f)
bind-Keeps P Q (ok c) f k h = h c k
bind-Keeps P Q (err e) f k h = tt

module _ {P : ConnectionSm → Type 0} (resume : Completion → Client → Client)
    (resume_keeps : (x : Completion) (c : Client) → IsWellFormed P c → IsWellFormed P (resume x c))
    (kept : IsKept P) where
  anonymous-Keeps :
      (process : Client → Result Client) (c : Client)
      → IsWellFormed P c
      → Keeps P (take_row resume process in_main (anonymous_row c.connection_sm.main) c)
  anonymous-Keeps process c w =
      let row = anonymous_row c.connection_sm.main in
      take_row-Keeps_simple resume process in_main row c
        (anonymous_row-IsSimple c.connection_sm.main) (kept.anonymous c.connection_sm w.machine) w

  handshake_done-Keeps :
      (order : List Region) (c : Client)
      → c.connection_sm.main ≡ connected
      → IsWellFormed P c
      → Keeps P (handshake_done resume order c)
  unfolding handshake_done dispatch
  handshake_done-Keeps order c m w =
      let Q = λ (sm : ConnectionSm). P sm × (sm.main ≡ connected) in
      bind-Keeps Q P (offer_all resume (λ c'. ok c') order handshake_done_evt c) _
        (offer_all-Keeps_raised {P = Q} resume (λ c'. ok c') order handshake_done_evt c tt
          (λ r sm h. (kept.done r sm h.1 h.0, done-connected r sm h.1))
          (with_machine c.connection_sm c (w.machine, m) w))
        (λ c' w'.
          anonymous-Keeps (λ c''. ok c'') c' (with_machine c'.connection_sm c' w'.machine.0 w'))

  notify-IsWellFormed :
      (success : Bool) (recvs : List ℕ) (c : Client)
      → IsWellFormed P c
      → IsWellFormed P (notify resume success recvs c)
  unfolding notify
  notify-IsWellFormed success [] c w = w
  notify-IsWellFormed true (recv ∷ recvs) c w =
      let x = connect_value recv in
      notify-IsWellFormed true recvs (resume x (emit (completed x) c))
        (resume_keeps x (emit (completed x) c) w)
  notify-IsWellFormed false (recv ∷ recvs) c w =
      let x = connect_done recv in
      notify-IsWellFormed false recvs (resume x (emit (completed x) c))
        (resume_keeps x (emit (completed x) c) w)

  pub notify_connector_receivers-IsWellFormed :
      (success : Bool) (c : Client)
      → IsWellFormed P c
      → IsWellFormed P (notify_connector_receivers resume success c)
  unfolding notify_connector_receivers
  notify_connector_receivers-IsWellFormed success c w =
      notify-IsWellFormed success c.connect_receivers (record c { connect_receivers = [] }) w

  module _ (order : List Region) where
    handle_connack-Keeps :
        (p : Connack) (c : Client)
        → IsExternal (packet_received_evt (connack p))
        → c.connection_sm.main ≡ connected
        → IsWellFormed P c
        → Keeps P (handle_connack resume (handshake_done resume order) p c)
    unfolding handle_connack negotiated
    handle_connack-Keeps p c h m w =
        bind-Keeps P P (handshake_done resume order (negotiated p c)) _
          (handshake_done-Keeps order (negotiated p c) m (record {
            identifier = w.identifier;
            maximum = h;
            sends = omega arith;
            in_flight = w.in_flight;
            waiting = w.waiting;
            unreleased = w.unreleased;
            machine = w.machine;
          }))
          (λ c' w'. notify_connector_receivers-IsWellFormed true c' w')

    perform-Keeps :
        (a : Action) (c : Client)
        → IsReady a c.connection_sm
        → IsWellFormed P c
        → Keeps P (perform resume (handshake_done resume order) a c)
    unfolding perform
    perform-Keeps (packet_handler (connack p)) c h w = handle_connack-Keeps p c h.1 h.0 w
    perform-Keeps (packet_handler (puback p)) c h w =
        handle_puback-IsWellFormed resume resume_keeps p c w
    perform-Keeps (packet_handler (suback p)) c h w =
        handle_suback-IsWellFormed resume resume_keeps p c w
    perform-Keeps (packet_handler (unsuback p)) c h w =
        handle_unsuback-IsWellFormed resume resume_keeps p c w
    perform-Keeps (packet_handler (publish p)) c h w =
        handle_publish-Keeps resume resume_keeps p c w
    perform-Keeps (packet_handler (pubrec p)) c h w =
        handle_pubrec-IsWellFormed resume resume_keeps p c w
    perform-Keeps (packet_handler (pubrel p)) c h w = handle_pubrel-Keeps resume resume_keeps p c w
    perform-Keeps (packet_handler (pubcomp p)) c h w =
        handle_pubcomp-IsWellFormed resume resume_keeps p c w
    perform-Keeps (packet_handler p) c h w = w
    perform-Keeps a c h w = perform-Keeps_simple resume (handshake_done resume order) a c tt w

    take_row-Keeps :
        (row : Option (Action × MainState)) (c : Client)
        → IsReadyRow row c.connection_sm
        → P (after_row in_main row c.connection_sm)
        → IsWellFormed P c
        → Keeps P (take_row resume (handshake_done resume order) in_main row c)
    unfolding take_row
    take_row-Keeps none c h p w = w
    take_row-Keeps (some (a, s)) c h p w =
        let sm = in_main s c.connection_sm in
        perform-Keeps a (record c { connection_sm = sm }) h (with_machine sm c p w)

    offer-Keeps :
        (r : Region) (e : Event) (c : Client)
        → IsExternal e
        → P (advance r e c.connection_sm)
        → IsWellFormed P c
        → Keeps P (offer resume (handshake_done resume order) r e c)
    unfolding offer advance
    offer-Keeps main_region e c h p w =
        let s = c.connection_sm.main in
        take_row-Keeps (main_row s e) c (main_row-IsReady s e c.connection_sm h) p w
    offer-Keeps rx_region e c h p w =
        let s = c.connection_sm.rx in
        take_row-Keeps_simple resume (handshake_done resume order) in_rx (receive_row s e) c
          (receive_row-IsSimple s e) p w
    offer-Keeps ping_region e c h p w =
        let s = c.connection_sm.ping in
        take_row-Keeps_simple resume (handshake_done resume order) in_ping (ping_row s e) c
          (ping_row-IsSimple s e) p w
    offer-Keeps keep_alive_region e c h p w =
        let s = c.connection_sm.keep_alive in
        take_row-Keeps_simple resume (handshake_done resume order) in_keep_alive
          (keep_alive_row s e) c (keep_alive_row-IsSimple s e) p w

    offer_all-Keeps :
        (rs : List Region) (e : Event) (c : Client)
        → IsExternal e
        → IsWellFormed P c
        → Keeps P (offer_all resume (handshake_done resume order) rs e c)
    unfolding offer_all
    offer_all-Keeps [] e c h w = w
    offer_all-Keeps (r ∷ rs) e c h w =
        let first = offer resume (handshake_done resume order) r e c in
        bind-Keeps P P first (offer_all resume (handshake_done resume order) rs e)
          (offer-Keeps r e c h (kept.external r e c.connection_sm h w.machine) w)
          (λ c' w'. offer_all-Keeps rs e c' h w')

    pub process_event-Keeps :
        (e : Event) (c : Client)
        → IsExternal e
        → IsWellFormed P c
        → Keeps P (process_event resume order e c)
    unfolding process_event dispatch
    process_event-Keeps e c h w =
        bind-Keeps P P (offer_all resume (handshake_done resume order) order e c) _
          (offer_all-Keeps order e c h w)
          (λ c' w'. anonymous-Keeps (handshake_done resume order) c' w')

    handshake_evt-Keeps :
        (c : Client)
        → c.connection_sm.main ≢ connected
        → IsWellFormed P c
        → Keeps P (process_event resume order handshake_evt c)
    unfolding process_event dispatch
    handshake_evt-Keeps c n w =
        let Q = λ (sm : ConnectionSm). P sm × (sm.main ≢ connected) in
        let process = handshake_done resume order in
        bind-Keeps Q P (offer_all resume process order handshake_evt c) _
          (offer_all-Keeps_raised {P = Q} resume process order handshake_evt c tt
            (λ r sm h. (kept.handshake r sm h.1 h.0, handshake-not_connected r sm h.1))
            (with_machine c.connection_sm c (w.machine, n) w))
          (λ c' w'. anonymous-Keeps process c' (with_machine c'.connection_sm c' w'.machine.0 w'))

    pub start_connect-Keeps :
        (c : Client) → IsWellFormed P c → Keeps P (start_connect resume order c)
    unfolding start_connect is_connected
    start_connect-Keeps c w = elim (Bool-cases (is_connected_state c.connection_sm.main)) [
      | inl t ↦ simp t (notify_connector_receivers-IsWellFormed true c w)
      | inr f ↦ simp f (handshake_evt-Keeps c (is_connected_state-ne c.connection_sm.main f) w)
    ]
