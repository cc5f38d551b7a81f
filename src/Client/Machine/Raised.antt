-- ===== src/Client/Machine/Raised.antt =====
-- The events that the client raises itself, whose rows call no handler of packets.
use mqtt.Base.{
  List, [], ◌∷◌, Option, none, some, Result, arith, ltb, Bool-cases, Result-cases, inl, inr,
}
use mqtt.Client.States.{
  ConnectionSm, MainState, idle, ReceiveState, rx_idle, PingState, ping_idle, KeepAliveState,
  keep_alive_idle,
}
use mqtt.Client.{Completion, Client}
use mqtt.Client.WellFormed.{IsWellFormed}
use mqtt.Client.Delivering.{puback_sent}
use mqtt.Client.Delivering.WellFormed.{Keeps}
use mqtt.Client.Connecting.{send_connect, start_ping_timer, start_keep_alive_timer}
use mqtt.Client.Machine.{
  Event, handshake_evt, handshake_done_evt, Action, no_action, ac_start_handshake, close_socket,
  puback_sent_handler, start_receiving, start_pinging, send_a_ping, stop_pinging, start_keep_alive,
  stop_keep_alive, packet_handler, main_row, anonymous_row, receive_row, ping_row, keep_alive_row,
  perform,
}
use mqtt.Client.Machine.Dispatch.{
  Region, main_region, rx_region, ping_region, keep_alive_region, in_main, in_rx, in_ping,
  in_keep_alive, take_row, offer, offer_all,
}
use mqtt.Client.Machine.Kept.{after_row, advance, with_machine}

abbrev pub IsSimple : Action → Type 0
IsSimple (packet_handler p) = ⊥
IsSimple a = Unit {0}

abbrev pub IsSimpleRow {ℓ} : {S : Type ℓ} → Option (Action × S) → Type 0
IsSimpleRow none = Unit {0}
IsSimpleRow (some (a, s)) = IsSimple a

abbrev pub IsRaised : Event → Type 0
IsRaised handshake_evt = Unit {0}
IsRaised handshake_done_evt = Unit {0}
IsRaised e = ⊥

main_row-IsSimple : (s : MainState) (e : Event) → IsRaised e → IsSimpleRow (main_row s e)
unfolding main_row
main_row-IsSimple idle handshake_evt h = tt
main_row-IsSimple s e h = ground arith

pub receive_row-IsSimple : (s : ReceiveState) (e : Event) → IsSimpleRow (receive_row s e)
unfolding receive_row
receive_row-IsSimple rx_idle handshake_evt = tt
receive_row-IsSimple s e = ground arith

pub ping_row-IsSimple : (s : PingState) (e : Event) → IsSimpleRow (ping_row s e)
unfolding ping_row
ping_row-IsSimple ping_idle handshake_evt = tt
ping_row-IsSimple s e = ground arith

pub keep_alive_row-IsSimple : (s : KeepAliveState) (e : Event) → IsSimpleRow (keep_alive_row s e)
unfolding keep_alive_row
keep_alive_row-IsSimple keep_alive_idle handshake_evt = tt
keep_alive_row-IsSimple s e = ground arith

pub anonymous_row-IsSimple : (s : MainState) → IsSimpleRow (anonymous_row s)
unfolding anonymous_row
anonymous_row-IsSimple idle = tt
anonymous_row-IsSimple s = ground arith

module _ {P : ConnectionSm → Type 0} (resume : Completion → Client → Client)
    (process : Client → Result Client) where
  pub perform-Keeps_simple :
      (a : Action) (c : Client)
      → IsSimple a
      → IsWellFormed P c
      → Keeps P (perform resume process a c)
  unfolding perform send_connect start_ping_timer start_keep_alive_timer puback_sent
  perform-Keeps_simple no_action c h w = w
  perform-Keeps_simple ac_start_handshake c h w = w
  perform-Keeps_simple close_socket c h w = w
  perform-Keeps_simple start_receiving c h w = w
  perform-Keeps_simple stop_pinging c h w = w
  perform-Keeps_simple stop_keep_alive c h w = w
  perform-Keeps_simple puback_sent_handler c h w =
      elim (Bool-cases (ltb c.client_receive_quota c.connect_opts.receive_maximum)) [
        | inl t ↦ simp t w
        | inr f ↦ simp f w
      ]
  perform-Keeps_simple start_pinging c h w = elim (Bool-cases (ltb 0 c.keep_alive_used)) [
    | inl t ↦ simp t w
    | inr f ↦ simp f w
  ]
  perform-Keeps_simple send_a_ping c h w = elim (Bool-cases (ltb 0 c.keep_alive_used)) [
    | inl t ↦ simp t w
    | inr f ↦ simp f w
  ]
  perform-Keeps_simple start_keep_alive c h w = elim (Bool-cases (ltb 0 c.keep_alive_used)) [
    | inl t ↦ simp t w
    | inr f ↦ simp f w
  ]
  perform-Keeps_simple (packet_handler p) c h w = absurd h

  pub take_row-Keeps_simple :
      {S : Type 0} (into : S → ConnectionSm → ConnectionSm) (row : Option (Action × S)) (c : Client)
      → IsSimpleRow row
      → P (after_row into row c.connection_sm)
      → IsWellFormed P c
      → Keeps P (take_row resume process into row c)
  unfolding take_row
  take_row-Keeps_simple into none c h p w = w
  take_row-Keeps_simple into (some (a, s)) c h p w =
      let sm = into s c.connection_sm in
      perform-Keeps_simple a (record c { connection_sm = sm }) h (with_machine sm c p w)

  offer-Keeps_raised :
      (r : Region) (e : Event) (c : Client)
      → IsRaised e
      → P (advance r e c.connection_sm)
      → IsWellFormed P c
      → Keeps P (offer resume process r e c)
  unfolding offer advance
  offer-Keeps_raised main_region e c h p w =
      let row = main_row c.connection_sm.main e in
      take_row-Keeps_simple in_main row c (main_row-IsSimple c.connection_sm.main e h) p w
  offer-Keeps_raised rx_region e c h p w =
      let row = receive_row c.connection_sm.rx e in
      take_row-Keeps_simple in_rx row c (receive_row-IsSimple c.connection_sm.rx e) p w
  offer-Keeps_raised ping_region e c h p w =
      let row = ping_row c.connection_sm.ping e in
      take_row-Keeps_simple in_ping row c (ping_row-IsSimple c.connection_sm.ping e) p w
  offer-Keeps_raised keep_alive_region e c h p w =
      let row = keep_alive_row c.connection_sm.keep_alive e in
      take_row-Keeps_simple in_keep_alive row c
        (keep_alive_row-IsSimple c.connection_sm.keep_alive e) p w

  pub offer_all-Keeps_raised :
      (order : List Region) (e : Event) (c : Client)
      → IsRaised e
      → ((r : Region) (sm : ConnectionSm) → P sm → P (advance r e sm))
      → IsWellFormed P c
      → Keeps P (offer_all resume process order e c)
  unfolding offer_all
  offer_all-Keeps_raised [] e c h kept w = w
  offer_all-Keeps_raised (r ∷ rs) e c h kept w =
      let k = offer-Keeps_raised r e c h (kept r c.connection_sm w.machine) w in
      elim (Result-cases (offer resume process r e c)) [
        | inl (c', q) ↦ simp q (offer_all-Keeps_raised rs e c' h kept (rw q at k))
        | inr (x, q) ↦ simp q tt
      ]
