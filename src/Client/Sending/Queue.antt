-- ===== src/Client/Sending/Queue.antt =====
-- Publishes that wait for quota, where receivers do not call the client.
use mqtt.Base.{
  ℕ, ◌<◌, ◌≡◌, ◌≢◌, List, [], ◌∷◌, ◌++◌, some, ◌==◌, ltb, if◌then◌else◌, arith, append_assoc, true,
  false,
}
use mqtt.Packet.Publish.{Publish, quality_of_service}
use mqtt.Packet.Puback.{Ack}
use mqtt.ControlPacket
use mqtt.Client.{
  waiting_puback, waiting_pubrec, InFlightPublish, QueuedPublish, publish_value, completed, sent,
  Client,
}
use mqtt.Client.Find.{find, erase}
use mqtt.Client.Identifiers.{increment, next_packet_identifier}
use mqtt.Client.Sending.{
  identifier_of, transmit, send_next, maybe_send_queued_publish, start_publish, finish_puback,
  handle_puback,
}
use mqtt.Client.Sending.Flows.{no_resume, unmodified}

-- The message with the identifier that the client gives it, as it is queued.
abbrev pub queued_under : ℕ → Publish → ℕ → QueuedPublish
queued_under identifier message receiver = record {
  message = record message { packet_identifier = identifier };
  receiver = receiver;
}

-- Without quota a publish waits.
start_publish-no_quota :
    (message : Publish) (receiver : ℕ) (c : Client)
    → quality_of_service message ≢ 0
    → c.server_send_quota ≡ 0
    → start_publish no_resume unmodified message receiver c ≡ record c {
      next_identifier = increment c.next_identifier;
      queued_publishes = c.queued_publishes ++ queued_under c.next_identifier message receiver ∷ [];
    }
unfolding start_publish next_packet_identifier
start_publish-no_quota message receiver c nz no_quota =
    let z : (quality_of_service message == 0) ≡ false = ground arith in
    let t : ltb 0 c.server_send_quota ≡ false = ground arith in simp (z, t)

-- A publish that needs an acknowledgement, started without quota, joins the end of the queue;
-- the PUBACK for a QoS 1 message in flight finishes that message and sends the first of the
-- queue, which is then in flight, and the quota is 0 again. The receivers do not call the
-- client.
pub queued_then_sent :
    (message : Publish) (receiver : ℕ) (puback : Ack) (m : InFlightPublish) (c : Client)
    (first : QueuedPublish) (rest : List QueuedPublish)
    → quality_of_service message ≢ 0
    → c.server_send_quota ≡ 0
    → 0 < c.server_max_send_quota
    → find identifier_of puback.packet_identifier c.published_messages ≡ some m
    → m.state ≡ waiting_puback
    → c.queued_publishes ++ queued_under c.next_identifier message receiver ∷ [] ≡ first ∷ rest
    → handle_puback no_resume puback (start_publish no_resume unmodified message receiver c)
      ≡ record c {
        next_identifier = increment c.next_identifier;
        server_send_quota = 0;
        queued_publishes = rest;
        published_messages =
            erase identifier_of puback.packet_identifier c.published_messages
            ++ record {
              message = first.message;
              receiver = first.receiver;
              state =
                  if quality_of_service first.message == 2 then waiting_pubrec else waiting_puback;
            }
              ∷ [];
        effects =
            c.effects
            ++ completed (publish_value m.receiver puback.reason_code)
              ∷ sent (ControlPacket.publish first.message)
              ∷ [];
      }
unfolding handle_puback finish_puback maybe_send_queued_publish send_next transmit
queued_then_sent message receiver puback m c first rest nz no_quota some_max f s q =
    let waits = start_publish-no_quota message receiver c nz no_quota in
    let less : ltb 0 c.server_max_send_quota ≡ true = ground arith in
    simp (waits, f, s, q, no_quota, less, append_assoc)
