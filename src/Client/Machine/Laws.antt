-- ===== src/Client/Machine/Laws.antt =====
-- How a client comes to be connected, and that its first region stays so.
use mqtt.Base.{◌≡◌, refl, ap, ◌⊎◌, inl, inr, List, [], ◌∷◌, Option, none, some}
use mqtt.Packet.Connack.{Connack}
use mqtt.ControlPacket.{
  ControlPacket, connect, connack, publish, puback, pubrec, pubrel, pubcomp, subscribe, suback,
  unsubscribe, unsuback, disconnect, pingreq, pingresp,
}
use mqtt.Client.States.{MainState, idle, start_handshake, handshaking, connected, disconnected}
use mqtt.Client.Machine.{
  Event, handshake_evt, disconnect_evt, handshake_done_evt, packet_received_evt, packet_written_evt,
  ping_timeout_evt, keep_alive_timeout_evt, puback_sent_evt, Action, handshaking_row, connected_row,
  main_row, anonymous_row,
}

-- A step of the first region: by a row for the event, by the row with no event, or none where no row
-- is for the event.
pub data MainStep : MainState → Option Event → MainState → Type 0 where
  by_event :
      {s s' : MainState} {e : Event} (a : Action)
      → main_row s e ≡ some (a, s')
      → MainStep s (some e) s'
  at_once : {s s' : MainState} (a : Action) → anonymous_row s ≡ some (a, s') → MainStep s none s'
  unhandled : {s : MainState} {e : Event} → main_row s e ≡ none → MainStep s (some e) s

-- The steps from the state of a new client, the events in the order of their coming.
pub data MainRun : List (Option Event) → MainState → Type 0 where
  starts : MainRun [] idle
  steps :
      {es : List (Option Event)} {e : Option Event} {s s' : MainState}
      → MainRun es s
      → MainStep s e s'
      → MainRun (e ∷ es) s'

abbrev pub HasConnack : List (Option Event) → Type 0
HasConnack [] = ⊥
HasConnack (none ∷ es) = HasConnack es
HasConnack (some e ∷ es) = ((p : Connack) × (e ≡ packet_received_evt (connack p))) ⊎ HasConnack es

handshaking_row-connack :
    (packet : ControlPacket) (a : Action) (s' : MainState)
    → handshaking_row packet ≡ some (a, s')
    → (p : Connack) × (packet ≡ connack p)
handshaking_row-connack (connect p) a s' h = cc h
handshaking_row-connack (connack p) a s' h = (p, refl)
handshaking_row-connack (publish p) a s' h = cc h
handshaking_row-connack (puback p) a s' h = cc h
handshaking_row-connack (pubrec p) a s' h = cc h
handshaking_row-connack (pubrel p) a s' h = cc h
handshaking_row-connack (pubcomp p) a s' h = cc h
handshaking_row-connack (subscribe p) a s' h = cc h
handshaking_row-connack (suback p) a s' h = cc h
handshaking_row-connack (unsubscribe p) a s' h = cc h
handshaking_row-connack (unsuback p) a s' h = cc h
handshaking_row-connack (disconnect p) a s' h = cc h
handshaking_row-connack pingreq a s' h = cc h
handshaking_row-connack pingresp a s' h = cc h

connected_row-stays :
    (packet : ControlPacket) (a : Action) (s' : MainState)
    → connected_row packet ≡ some (a, s')
    → s' ≡ connected
connected_row-stays (connect p) a s' h = cc h
connected_row-stays (connack p) a s' h = cc h
connected_row-stays (publish p) a s' h = cc h
connected_row-stays (puback p) a s' h = cc h
connected_row-stays (pubrec p) a s' h = cc h
connected_row-stays (pubrel p) a s' h = cc h
connected_row-stays (pubcomp p) a s' h = cc h
connected_row-stays (subscribe p) a s' h = cc h
connected_row-stays (suback p) a s' h = cc h
connected_row-stays (unsubscribe p) a s' h = cc h
connected_row-stays (unsuback p) a s' h = cc h
connected_row-stays (disconnect p) a s' h = cc h
connected_row-stays pingreq a s' h = cc h
connected_row-stays pingresp a s' h = cc h

connected-stays :
    (e : Event) (a : Action) (s' : MainState) → main_row connected e ≡ some (a, s') → s' ≡ connected
unfolding main_row
connected-stays handshake_evt a s' h = cc h
connected-stays disconnect_evt a s' h = cc h
connected-stays handshake_done_evt a s' h = cc h
connected-stays (packet_received_evt packet) a s' h = connected_row-stays packet a s' h
connected-stays packet_written_evt a s' h = cc h
connected-stays ping_timeout_evt a s' h = cc h
connected-stays keep_alive_timeout_evt a s' h = cc h
connected-stays puback_sent_evt a s' h = cc h

-- The row that makes a handshaking client connected is that of a CONNACK.
handshaking-connack :
    (e : Event) (a : Action)
    → main_row handshaking e ≡ some (a, connected)
    → (p : Connack) × (e ≡ packet_received_evt (connack p))
unfolding main_row
handshaking-connack handshake_evt a h = cc h
handshaking-connack disconnect_evt a h = cc h
handshaking-connack handshake_done_evt a h = cc h
handshaking-connack (packet_received_evt packet) a h =
    let (p, q) = handshaking_row-connack packet a connected h in (p, ap packet_received_evt q)
handshaking-connack packet_written_evt a h = cc h
handshaking-connack ping_timeout_evt a h = cc h
handshaking-connack keep_alive_timeout_evt a h = cc h
handshaking-connack puback_sent_evt a h = cc h

main_row-connected :
    (s : MainState) (e : Event) (a : Action)
    → main_row s e ≡ some (a, connected)
    → (s ≡ connected) ⊎ ((p : Connack) × (e ≡ packet_received_evt (connack p)))
unfolding main_row
main_row-connected connected e a h = inl refl
main_row-connected handshaking e a h = inr (handshaking-connack e a h)
main_row-connected idle handshake_evt a h = cc h
main_row-connected idle disconnect_evt a h = cc h
main_row-connected idle handshake_done_evt a h = cc h
main_row-connected idle (packet_received_evt packet) a h = cc h
main_row-connected idle packet_written_evt a h = cc h
main_row-connected idle ping_timeout_evt a h = cc h
main_row-connected idle keep_alive_timeout_evt a h = cc h
main_row-connected idle puback_sent_evt a h = cc h
main_row-connected start_handshake handshake_evt a h = cc h
main_row-connected start_handshake disconnect_evt a h = cc h
main_row-connected start_handshake handshake_done_evt a h = cc h
main_row-connected start_handshake (packet_received_evt packet) a h = cc h
main_row-connected start_handshake packet_written_evt a h = cc h
main_row-connected start_handshake ping_timeout_evt a h = cc h
main_row-connected start_handshake keep_alive_timeout_evt a h = cc h
main_row-connected start_handshake puback_sent_evt a h = cc h
main_row-connected disconnected handshake_evt a h = cc h
main_row-connected disconnected disconnect_evt a h = cc h
main_row-connected disconnected handshake_done_evt a h = cc h
main_row-connected disconnected (packet_received_evt packet) a h = cc h
main_row-connected disconnected packet_written_evt a h = cc h
main_row-connected disconnected ping_timeout_evt a h = cc h
main_row-connected disconnected keep_alive_timeout_evt a h = cc h
main_row-connected disconnected puback_sent_evt a h = cc h

anonymous_row-connected : (s : MainState) (a : Action) → anonymous_row s ≡ some (a, connected) → ⊥
unfolding anonymous_row
anonymous_row-connected idle a h = cc h
anonymous_row-connected start_handshake a h = cc h
anonymous_row-connected handshaking a h = cc h
anonymous_row-connected connected a h = cc h
anonymous_row-connected disconnected a h = cc h

anonymous-connected : (r : Action × MainState) → anonymous_row connected ≡ some r → ⊥
unfolding anonymous_row
anonymous-connected r h = cc h

HasConnack-more :
    (e : Option Event) (es : List (Option Event)) → HasConnack es → HasConnack (e ∷ es)
HasConnack-more none es h = h
HasConnack-more (some e) es h = inr h

step-connected :
    {s s' : MainState} {e : Option Event}
    → MainStep s e s'
    → s' ≡ connected
    → (s ≡ connected) ⊎ ((p : Connack) × (e ≡ some (packet_received_evt (connack p))))
step-connected {s = s} {e = some e} (by_event a h) q = elim (main_row-connected s e a (rw q at h)) [
  | inl c ↦ inl c
  | inr (p, r) ↦ inr (p, ap some r)
]
step-connected {s = s} (at_once a h) q = absurd (anonymous_row-connected s a (rw q at h))
step-connected (unhandled h) q = inl q

-- The first region of the state machine is in the state connected only after an event with a
-- CONNACK packet.
pub connected-HasConnack :
    {es : List (Option Event)} {s : MainState} → MainRun es s → s ≡ connected → HasConnack es
connected-HasConnack starts q = cc q
connected-HasConnack (steps {es = es} {e = e} run step) q = elim (step-connected step q) [
  | inl c ↦ HasConnack-more e es (connected-HasConnack run c)
  | inr (p, r) ↦ rw r (inl (p, refl))
]

-- A step of the first region from the state connected leads to connected, whatever the event, a
-- disconnect among them.
connected-forever :
    {e : Option Event} {s s' : MainState} → MainStep s e s' → s ≡ connected → s' ≡ connected
connected-forever {e = some e} {s' = s'} (by_event a h) q = connected-stays e a s' (rw q at h)
connected-forever (at_once a h) q = absurd (anonymous-connected _ (rw q at h))
connected-forever (unhandled h) q = q
