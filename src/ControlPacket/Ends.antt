-- ===== src/ControlPacket/Ends.antt =====
-- Whatever bytes a stream brings, the read of a packet comes to an end.
use mqtt.Base.{ℕ, ◌≤◌, ◌≢◌, List, Result, ok, err, out_of_fuel}
use mqtt.Wire.Stream.{Source, IsSource}
use mqtt.Wire.VarlenInt
use mqtt.Properties.Fields.Total.{Ends}
use mqtt.Packet.Connect
use mqtt.Packet.Connack
use mqtt.Header.{Header}
use mqtt.ControlPacket.{ControlPacket}

module _ {ℓ} {S : Type ℓ} (source : Source S) (law : IsSource source) where
  -- A read that leaves no more reads than there were, or ends in an error that is not a lack of
  -- rounds.
  abbrev LeavesReads {κ} : {A : Type κ} → ℕ → Result (A × (List ℕ × S)) → Type 0
  LeavesReads n (ok (a, (buffer, s))) = law.reads_left s ≤ n
  LeavesReads n (err e) = e ≢ out_of_fuel

  abbrev DataLeaves : ℕ → Result (List ℕ × S) → Type 0
  DataLeaves n (ok (buffer, s)) = law.reads_left s ≤ n
  DataLeaves n (err e) = e ≢ out_of_fuel
