-- ===== src/Packet/Ends.antt =====
-- The readers of the packets end on any data.
use mqtt.Base.{
  ℕ, zero, suc, ◌-◌, ◌≤◌, ◌≡◌, ◌≢◌, List, [], ◌∷◌, Bool, true, false, Option, Result, ok, err,
  out_of_fuel, ◌==◌, ltb, if◌then◌else◌, bytes_eq, arith, length, Bool-cases, Result-cases, inl,
  inr,
}
use mqtt.Base
use mqtt.Wire.Fetcher.{Reader, pure, cspan}
use mqtt.Wire.FixedInt.{u8, u16}
use mqtt.Wire.FixedInt
use mqtt.Wire.Text.{deserialize_string, deserialize_binary}
use mqtt.Wire.Total.{
  Within, IsTotal, IsTotal-bind, IsTotal-pure, fixed_int-IsTotal, string-IsTotal, binary-IsTotal,
  string_shrinks,
}
use mqtt.Properties.Fields.Total.{Ends, Ends-ok, Ends-bind}
use mqtt.Header.{Header}
use mqtt.Packet.Publish.{read_identifier}
use mqtt.Packet.Publish
use mqtt.Packet.Publish.Properties as PublishProperties
use mqtt.Packet.Will
use mqtt.Packet.Reason
use mqtt.Packet.Puback
use mqtt.Packet.Suback
use mqtt.Packet.Subscribe
use mqtt.Packet.Unsubscribe
use mqtt.Packet.Disconnect
use mqtt.Packet.Connect.{
  has, will_flag, username_flag, password_flag, check_name, read_will, read_username, read_password,
}
use mqtt.Packet.Connect
use mqtt.Packet.Connack
use mqtt.Packet.Total.{
  publish_properties-IsTotal, reason-IsTotal, will-IsTotal, connect_properties-IsTotal,
  connack_properties-IsTotal, subscribe_properties-IsTotal, unsubscribe_properties-IsTotal,
  disconnect_properties-IsTotal,
}

pub IsTotal-if {ℓ} :
    {A : Type ℓ} (b : Bool) (p q : Reader A)
    → IsTotal p
    → IsTotal q
    → IsTotal (λ span. if b then p span else q span)
IsTotal-if true p q hp hq = hp
IsTotal-if false p q hp hq = hq

pub Within-Ends {ℓ} : {A : Type ℓ} (n : ℕ) (r : Result (A × List ℕ)) → Within n r → Ends r
Within-Ends n (ok (a, rest)) w = Ends-ok (a, rest)
Within-Ends n (err e) w = record { ends = λ h. w (cc h) }

pub IsTotal-Ends {ℓ} : {A : Type ℓ} (p : Reader A) (span : List ℕ) → IsTotal p → Ends (p span)
IsTotal-Ends p span t = Within-Ends (length span) (p span) (t.at span)

pub cspan-Ends : (n : ℕ) (span : List ℕ) → Ends (cspan n span)
unfolding cspan
cspan-Ends n span = record { ends = λ h. ground arith }

check_name-IsTotal : (name : List ℕ) → IsTotal (check_name name)
unfolding check_name
check_name-IsTotal name = record {
  at = λ span. elim (Bool-cases (bytes_eq name Connect.always_mqtt)) [
    | inl t ↦ rw t (omega arith)
    | inr f ↦ rw f (λ h. cc h)
  ];
}

ruleset totals = (
  IsTotal-bind, IsTotal-pure, IsTotal-if, fixed_int-IsTotal, string-IsTotal, binary-IsTotal,
  check_name-IsTotal, will-IsTotal, connect_properties-IsTotal,
)

read_will-IsTotal : (flags : ℕ) → IsTotal (read_will flags)
unfolding read_will
read_will-IsTotal flags =
    IsTotal-if (has flags will_flag) _ _
      (IsTotal-bind Will.deserialize _ will-IsTotal (λ w.
        IsTotal-bind deserialize_string _ string-IsTotal
          (λ t. IsTotal-bind deserialize_binary _ binary-IsTotal (λ p. IsTotal-pure _))))
      (IsTotal-pure _)

read_username-IsTotal : (flags : ℕ) → IsTotal (read_username flags)
unfolding read_username
read_username-IsTotal flags =
    IsTotal-if (has flags username_flag) _ _
      (IsTotal-bind deserialize_string _ string-IsTotal (λ v. IsTotal-pure _)) (IsTotal-pure _)

read_password-IsTotal : (flags : ℕ) → IsTotal (read_password flags)
unfolding read_password
read_password-IsTotal flags =
    IsTotal-if (has flags password_flag) _ _
      (IsTotal-bind deserialize_binary _ binary-IsTotal (λ v. IsTotal-pure _)) (IsTotal-pure _)

pub connect-IsTotal : IsTotal Connect.deserialize
unfolding Connect.deserialize
connect-IsTotal =
    search (totals, read_will-IsTotal, read_username-IsTotal, read_password-IsTotal) depth 24

pub connack-IsTotal : IsTotal Connack.deserialize
unfolding Connack.deserialize
connack-IsTotal = IsTotal-bind (FixedInt.deserialize u8) _ (fixed_int-IsTotal u8) (λ flags.
    IsTotal-bind (FixedInt.deserialize u8) _ (fixed_int-IsTotal u8)
      (λ code. IsTotal-bind _ _ connack_properties-IsTotal (λ props. IsTotal-pure _)))

-- A reader, and a call on what it leaves.
read-Ends {ℓ} :
    {A B : Type ℓ} (p : Reader A) (span : List ℕ) (f : A × List ℕ → Result B)
    → IsTotal p
    → ((a : A) (rest : List ℕ) → Ends (f (a, rest)))
    → Ends (Base.◌>>=◌ (p span) f)
read-Ends p span f t h = Ends-bind (p span) f (IsTotal-Ends p span t) (λ r. h r.0 r.1)

read_identifier-IsTotal : (flags : ℕ) → IsTotal (read_identifier flags)
unfolding read_identifier
read_identifier-IsTotal flags =
    IsTotal-if _ (FixedInt.deserialize u16) (pure 0) (fixed_int-IsTotal u16) (IsTotal-pure 0)

pub publish-Ends : (hdr : Header) (span : List ℕ) → Ends (Publish.deserialize hdr span)
unfolding Publish.deserialize Publish.deserialize_fields
publish-Ends hdr span = Ends-bind (cspan hdr.remaining_length span) _ (cspan-Ends _ span) (λ s.
    read-Ends deserialize_string s _ string-IsTotal (λ topic s1.
      read-Ends (read_identifier _) s1 _ (read_identifier-IsTotal _) (λ id s2.
        read-Ends PublishProperties.deserialize s2 _ publish_properties-IsTotal
          (λ props rest. Ends-ok _))))

read_reason-IsTotal : (n : ℕ) → IsTotal (Puback.read_reason n)
unfolding Puback.read_reason
read_reason-IsTotal n =
    IsTotal-if _ (FixedInt.deserialize u8) (pure 0) (fixed_int-IsTotal u8) (IsTotal-pure 0)

read_properties-IsTotal : (n : ℕ) → IsTotal (Puback.read_properties n)
unfolding Puback.read_properties
read_properties-IsTotal n = IsTotal-if _ _ _ reason-IsTotal (IsTotal-pure _)

pub ack-Ends : (hdr : Header) (span : List ℕ) → Ends (Puback.deserialize hdr span)
unfolding Puback.deserialize
ack-Ends hdr span = read-Ends (FixedInt.deserialize u16) span _ (fixed_int-IsTotal u16) (λ id s1.
    read-Ends (Puback.read_reason _) s1 _ (read_reason-IsTotal _) (λ code s2.
      read-Ends (Puback.read_properties _) s2 _ (read_properties-IsTotal _)
        (λ props rest. Ends-ok _)))

pub suback-Ends : (hdr : Header) (span : List ℕ) → Ends (Suback.deserialize hdr span)
unfolding Suback.deserialize Suback.deserialize_fields
suback-Ends hdr span = Ends-bind (cspan hdr.remaining_length span) _ (cspan-Ends _ span) (λ s.
    read-Ends (FixedInt.deserialize u16) s _ (fixed_int-IsTotal u16)
      (λ id s1. read-Ends Reason.deserialize s1 _ reason-IsTotal (λ props rest. Ends-ok _)))

-- A loop over data whose body takes a byte at least.
unsubscribe_loop-Ends :
    (fuel : ℕ) (span : List ℕ) → length span ≤ fuel → Ends (Unsubscribe.topics_loop fuel span)
unfolding Unsubscribe.topics_loop
unsubscribe_loop-Ends fuel [] h = Ends-ok []
unsubscribe_loop-Ends zero (b ∷ bs) h = absurd (omega arith)
unsubscribe_loop-Ends (suc fuel) (b ∷ bs) h = elim (Result-cases (deserialize_string (b ∷ bs))) [
  | inl ((topic, rest), e) ↦
      let shorter : length rest ≤ length (b ∷ bs) - 1 = rw e at (string_shrinks (b ∷ bs)) in
      rw e (
        Ends-bind (Unsubscribe.topics_loop fuel rest) _
          (unsubscribe_loop-Ends fuel rest (omega arith)) (λ topics. Ends-ok _))
  | inr (x, e) ↦ rw e (record { ends = λ q. (rw e at (string_shrinks (b ∷ bs))) (cc q) })
]

subscribe_loop-Ends :
    (fuel : ℕ) (span : List ℕ) → length span ≤ fuel → Ends (Subscribe.topics_loop fuel span)
unfolding Subscribe.topics_loop
subscribe_loop-Ends fuel [] h = Ends-ok []
subscribe_loop-Ends zero (b ∷ bs) h = absurd (omega arith)
subscribe_loop-Ends (suc fuel) (b ∷ bs) h = elim (Result-cases (deserialize_string (b ∷ bs))) [
  | inl ((topic, span), e) ↦
      let shorter : length span ≤ length (b ∷ bs) - 1 = rw e at (string_shrinks (b ∷ bs)) in
      rw e (elim (Result-cases (FixedInt.deserialize u8 span)) [
        | inl ((options, rest), e2) ↦
            let le : length rest ≤ length span = rw e2 at ((fixed_int-IsTotal u8).at span) in
            rw e2 (
              Ends-bind (Subscribe.topics_loop fuel rest) _
                (subscribe_loop-Ends fuel rest (omega arith)) (λ topics. Ends-ok _))
        | inr (x, e2) ↦
            rw e2 (record { ends = λ q. (rw e2 at ((fixed_int-IsTotal u8).at span)) (cc q) })
      ])
  | inr (x, e) ↦ rw e (record { ends = λ q. (rw e at (string_shrinks (b ∷ bs))) (cc q) })
]

pub subscribe-Ends : (hdr : Header) (span : List ℕ) → Ends (Subscribe.deserialize hdr span)
unfolding Subscribe.deserialize Subscribe.deserialize_fields
subscribe-Ends hdr span = Ends-bind (cspan hdr.remaining_length span) _ (cspan-Ends _ span) (λ s.
    read-Ends (FixedInt.deserialize u16) s _ (fixed_int-IsTotal u16) (λ id s1.
      read-Ends Subscribe.deserialize_properties s1 _ subscribe_properties-IsTotal (λ props s2.
        Ends-bind (Subscribe.topics_loop (length s2) s2) _
          (subscribe_loop-Ends (length s2) s2 (omega arith)) (λ topics. Ends-ok _))))

pub unsubscribe-Ends : (hdr : Header) (span : List ℕ) → Ends (Unsubscribe.deserialize hdr span)
unfolding Unsubscribe.deserialize Unsubscribe.deserialize_fields
unsubscribe-Ends hdr span = Ends-bind (cspan hdr.remaining_length span) _ (cspan-Ends _ span) (λ s.
    read-Ends (FixedInt.deserialize u16) s _ (fixed_int-IsTotal u16) (λ id s1.
      read-Ends Unsubscribe.deserialize_properties s1 _ unsubscribe_properties-IsTotal (λ props s2.
        Ends-bind (Unsubscribe.topics_loop (length s2) s2) _
          (unsubscribe_loop-Ends (length s2) s2 (omega arith)) (λ topics. Ends-ok _))))

disconnect_properties-Ends : IsTotal Disconnect.read_properties
unfolding Disconnect.read_properties
disconnect_properties-Ends = record {
  at = λ span. elim (Bool-cases (ltb 1 (length span))) [
    | inl t ↦ rw t (disconnect_properties-IsTotal.at span)
    | inr f ↦ rw f (omega arith)
  ];
}

disconnect_fields-Ends : (span : List ℕ) → Ends (Disconnect.deserialize_fields span)
unfolding Disconnect.deserialize_fields
disconnect_fields-Ends [] = Ends-ok _
disconnect_fields-Ends (b ∷ bs) =
    read-Ends (FixedInt.deserialize u8) (b ∷ bs) _ (fixed_int-IsTotal u8) (λ reason s.
      read-Ends Disconnect.read_properties s _ disconnect_properties-Ends (λ props rest. Ends-ok _))

pub disconnect-Ends : (hdr : Header) (span : List ℕ) → Ends (Disconnect.deserialize hdr span)
unfolding Disconnect.deserialize
disconnect-Ends hdr span =
    Ends-bind (cspan hdr.remaining_length span) _ (cspan-Ends _ span)
      (λ s. disconnect_fields-Ends s)
