-- ===== src/Examples/Connections.antt =====
-- Two ends of a connection.
use mqtt.Base.{ℕ, ◌≡◌, refl, ap, sym, ◌∙◌, List, [], ◌∷◌, ◌++◌, Option, some, ok, arith, map}
use mqtt.Wire.FixedInt
use mqtt.Wire.VarlenInt.Encode.{groups}
use mqtt.Header.Laws.{header_bytes}
use mqtt.Packet.Puback.{writes_reason}
use mqtt.ControlPacket.{puback, pingreq}
use mqtt.ControlPacket.RoundTrip.{received, serialize-packet_bytes}
use mqtt.ControlPacket.Receive.Delivery.{run_bytes}
use mqtt.Connection.{AsyncStream, Connection, control_packet_writer, write_run, read_run}
use mqtt.Connection.Peers.{IsSink, Written, Read, peers_agree}
use mqtt.Examples.Chunks.{pieces, pieces-IsSource}
use mqtt.Examples.Packets.{an_ack, packet-IsSendable, ping-IsSendable, run, run-IsSendable}

-- A stream that only keeps what is written to it, and one that is only read.
abbrev near : AsyncStream (List ℕ)
near = record {
  source = record { read_some = λ n s. Option.none };
  write_all = λ bs s. some (s ++ bs);
}

abbrev near-IsSink : IsSink near
near-IsSink = record { sent = λ s. s; writes = λ bs s. (s ++ bs, refl, refl) }

abbrev far : AsyncStream (List (List ℕ))
far = record { source = pieces; write_all = λ bs s. some s }

abbrev writer : Connection (List ℕ)
writer = record { stream = []; read_buffer = [] }

abbrev reader : Connection (List (List ℕ))
reader = record { stream = (0 ∷ 64 ∷ []) ∷ (2 ∷ 0 ∷ []) ∷ (5 ∷ []) ∷ []; read_buffer = 192 ∷ [] }

written : write_run near 0 run writer ≡ ok (record writer { stream = run_bytes run run-IsSendable })
unfolding write_run control_packet_writer header_bytes FixedInt.serialize groups writes_reason
written =
    rw
      (
        serialize-packet_bytes 0 pingreq ping-IsSendable (omega arith),
        serialize-packet_bytes 0 (puback an_ack) packet-IsSendable (omega arith),
      )
      refl

peers_agree_example :
    Written near near-IsSink (write_run near 0 run writer) [] (run_bytes run run-IsSendable)
    × Read far pieces-IsSource (read_run far 20 2 reader) (map received run) []
unfolding header_bytes groups writes_reason FixedInt.serialize
peers_agree_example =
    peers_agree near near-IsSink far pieces-IsSource 0 run run-IsSendable 20 writer reader
      (omega arith) (omega arith)
      (λ w e.
        let q : ok (record writer { stream = run_bytes run run-IsSendable }) ≡ ok w =
          sym written ∙ e in
        let same : record writer { stream = run_bytes run run-IsSendable } ≡ w = cc q in
        ap (λ c. c.stream) (sym same))
