-- ===== src/Client/Connecting/Laws.antt =====
-- The flags of the CONNECT packet that a client sends.
use mqtt.Base.{
  ℕ, ◌^◌, ◌<◌, ◌≡◌, inl, inr, refl, List, Bool, true, false, none, some, not, ◌==◌, if◌then◌else◌,
  is_empty, bit_or, arith, Option-cases,
}
use mqtt.Packet.Connect.{
  has, clean_start_flag, will_flag, will_retain_flag, will_qos_1, will_qos_2, username_flag,
  password_flag,
}
use mqtt.Packet.Connect.RoundTrip.{is_some}
use mqtt.Client.{ConnectOptions}
use mqtt.Client.Connecting.{will_flags, with_will, connect_flags, connect_packet}

-- The flags that say what is in the packet, and the one of a clean start.
abbrev pub Announces : ℕ → Bool → Bool → Bool → Bool → Type 0
Announces flags will clean_start user pass =
    (has flags will_flag ≡ will)
    × (has flags clean_start_flag ≡ not clean_start)
    × (has flags username_flag ≡ user)
    × (has flags password_flag ≡ pass)
    × (flags < 2 ^ 8)

-- The flags as a function of what is tested.
abbrev later_flags : Bool → Bool → Bool → ℕ → ℕ
later_flags clean user pass flags =
    let flags1 = bit_or flags (if clean then 0 else clean_start_flag) in
    let flags2 = if user then bit_or flags1 username_flag else flags1 in
    if pass then bit_or flags2 password_flag else flags2

abbrev first_flags : Bool → Bool → Bool → ℕ
first_flags retain one two =
    let flags2 =
      if retain then bit_or (bit_or 0 will_flag) will_retain_flag else bit_or 0 will_flag in
    if one then bit_or flags2 will_qos_1 else if two then bit_or flags2 will_qos_2 else flags2

no_will_flags : (c u p : Bool) → Announces (later_flags c u p 0) false c u p
no_will_flags c u p = ground arith

some_will_flags :
    (r a b c u p : Bool) → Announces (later_flags c u p (first_flags r a b)) true c u p
some_will_flags r a b c u p = ground arith

is_some-if : (b : Bool) (x : List ℕ) → is_some (if b then some x else none) ≡ b
is_some-if true x = refl
is_some-if false x = refl

-- The flags of the CONNECT packet that a client sends announce exactly the will, the user name
-- and the password that it carries, fit a byte, and hold the flag of a clean start exactly if
-- the option is off.
pub connect_packet-Announces :
    (opts : ConnectOptions)
    → let packet = connect_packet opts in
      Announces packet.flags
        (is_some opts.last_will)
        opts.clean_start
        (is_some packet.username)
        (is_some packet.password)
unfolding connect_packet with_will will_flags connect_flags
connect_packet-Announces opts =
    let u = not (is_empty opts.username) in
    let p = not (is_empty opts.password) in
    elim (Option-cases opts.last_will) [
      | inl e ↦
          rw (e, is_some-if u opts.username, is_some-if p opts.password)
            (no_will_flags opts.clean_start u p)
      | inr (w, e) ↦
          rw (e, is_some-if u opts.username, is_some-if p opts.password)
            (some_will_flags w.retain (w.quality_of_service == 1) (w.quality_of_service == 2)
              opts.clean_start u p)
    ]
