-- ===== src/Client/Machine/Linked.antt =====
-- How the states of the regions go together.
use mqtt.Base.{◌≡◌, ◌≢◌, arith}
use mqtt.Client.States.{
  ConnectionSm, connected, disconnected, rx_idle, ping_waiting, keep_alive_waiting,
}
use mqtt.Client.Machine.{main_row, anonymous_row, receive_row, ping_row, keep_alive_row}
use mqtt.Client.Machine.Kept.{advance, IsKept}

-- The timers of pings and of the keep-alive run only in a connected client, and no client is in the
-- state `disconnected`.
abbrev pub IsLinked : ConnectionSm → Type 0
IsLinked sm =
    (sm.main ≢ disconnected)
    × (sm.ping ≡ ping_waiting → sm.main ≡ connected)
    × (sm.keep_alive ≡ keep_alive_waiting → sm.main ≡ connected)

pub IsLinked-IsKept : IsKept IsLinked
unfolding advance main_row anonymous_row receive_row ping_row keep_alive_row
IsLinked-IsKept = record {
  external = λ r e sm h p. ground arith;
  handshake = λ r sm h p. ground arith;
  done = λ r sm h p. ground arith;
  anonymous = λ sm p. ground arith;
}

-- A client that was connected and has stopped to read.
abbrev pub IsCut : ConnectionSm → Type 0
IsCut sm = (sm.main ≡ connected) × (sm.rx ≡ rx_idle)

pub IsCut-IsKept : IsKept IsCut
unfolding advance main_row anonymous_row receive_row ping_row keep_alive_row
IsCut-IsKept = record {
  external = λ r e sm h p. ground arith;
  handshake = λ r sm h p. absurd (h p.0);
  done = λ r sm h p. ground arith;
  anonymous = λ sm p. ground arith;
}

-- A client that was connected once.
abbrev pub IsJoined : ConnectionSm → Type 0
IsJoined sm = sm.main ≡ connected

pub IsJoined-IsKept : IsKept IsJoined
unfolding advance main_row anonymous_row receive_row ping_row keep_alive_row
IsJoined-IsKept = record {
  external = λ r e sm h p. ground arith;
  handshake = λ r sm h p. absurd (h p);
  done = λ r sm h p. ground arith;
  anonymous = λ sm p. ground arith;
}
