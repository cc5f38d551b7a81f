-- ===== src/Client/Machine/Kept.antt =====
-- A predicate of the machine's states, and the invariant of a client with it, through the events.
use mqtt.Base.{◌^◌, ◌<◌, ◌≡◌, ◌≢◌, Option, none, some}
use mqtt.ControlPacket.{connack}
use mqtt.Client.States.{ConnectionSm, connected}
use mqtt.Client.{Client}
use mqtt.Client.WellFormed.{IsWellFormed}
use mqtt.Client.Machine.{
  Event, handshake_evt, handshake_done_evt, packet_received_evt, Action, main_row, anonymous_row,
  receive_row, ping_row, keep_alive_row,
}
use mqtt.Client.Machine.Dispatch.{
  Region, main_region, rx_region, ping_region, keep_alive_region, in_main, in_rx, in_ping,
  in_keep_alive,
}

-- The states after a row, and after an event in one region.
abbrev pub after_row {ℓ} :
    {S : Type ℓ}
    → (S → ConnectionSm → ConnectionSm)
    → Option (Action × S)
    → ConnectionSm
    → ConnectionSm
after_row into none sm = sm
after_row into (some (a, s)) sm = into s sm

unfoldable pub advance : Region → Event → ConnectionSm → ConnectionSm
unfolding main_row receive_row ping_row keep_alive_row
advance main_region e sm = after_row in_main (main_row sm.main e) sm
advance rx_region e sm = after_row in_rx (receive_row sm.rx e) sm
advance ping_region e sm = after_row in_ping (ping_row sm.ping e) sm
advance keep_alive_region e sm = after_row in_keep_alive (keep_alive_row sm.keep_alive e) sm

-- An event that comes from outside the client, with a 16-bit receive maximum in a CONNACK.
abbrev pub IsExternal : Event → Type 0
IsExternal handshake_evt = ⊥
IsExternal handshake_done_evt = ⊥
IsExternal (packet_received_evt (connack p)) = p.properties.shared.receive_maximum < 2 ^ 16
IsExternal e = Unit {0}

-- A predicate that each region keeps, for the events as the client raises them.
pub record IsKept (P : ConnectionSm → Type 0) : Type 0 where
  pub external :
      (r : Region) (e : Event) (sm : ConnectionSm) → IsExternal e → P sm → P (advance r e sm)
  pub handshake :
      (r : Region) (sm : ConnectionSm) → sm.main ≢ connected → P sm → P (advance r handshake_evt sm)
  pub done :
      (r : Region) (sm : ConnectionSm)
      → sm.main ≡ connected
      → P sm
      → P (advance r handshake_done_evt sm)
  pub anonymous : (sm : ConnectionSm) → P sm → P (after_row in_main (anonymous_row sm.main) sm)

-- The invariant speaks of the machine in one field only.
pub with_machine :
    {P Q : ConnectionSm → Type 0} (sm : ConnectionSm) (c : Client)
    → Q sm
    → IsWellFormed P c
    → IsWellFormed Q (record c { connection_sm = sm })
with_machine sm c h w = record {
  identifier = w.identifier;
  maximum = w.maximum;
  sends = w.sends;
  in_flight = w.in_flight;
  waiting = w.waiting;
  unreleased = w.unreleased;
  machine = h;
}
