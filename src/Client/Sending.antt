-- ===== src/Client/Sending.antt =====
-- include/mqtt5/detail/publish_sender.hpp and the handlers of include/mqtt5/client.hpp for the
-- acknowledgements of what the client has published.
pub mod WellFormed
pub mod Released
pub mod Flows
pub mod Queue
pub mod Session
pub mod Unshared
pub mod Refines
pub mod Run
use mqtt.Base.{
  ℕ, ◌+◌, ◌-◌, ◌%◌, ◌^◌, List, [], ◌∷◌, ◌++◌, Option, option_case, ◌==◌, ltb, if◌then◌else◌,
}
use mqtt.Packet.Publish.{Publish, quality_of_service}
use mqtt.Packet.Puback.{Ack}
use mqtt.Packet.Reason
use mqtt.ControlPacket
use mqtt.Client.{
  PublishState, waiting_puback, waiting_pubrec, waitiing_pubcomp, InFlightPublish, QueuedPublish,
  Completion, publish_value, publish_done, completed, Client, emit, send_message, close,
}
use mqtt.Client.Find.{find, erase, assign}
use mqtt.Client.Identifiers.{next_packet_identifier}

abbrev pub identifier_of : InFlightPublish → ℕ
identifier_of m = m.message.packet_identifier

-- `start_fn`. The quota is a std::uint16_t.
unfoldable pub transmit : Publish → ℕ → Client → Client
unfolding quality_of_service
transmit message receiver c =
    let sending = record c { server_send_quota = (c.server_send_quota + 2 ^ 16 - 1) % 2 ^ 16 } in
    let sent = send_message (ControlPacket.publish message) sending in
    let start_state = if quality_of_service message == 2 then waiting_pubrec else waiting_puback in
    record sent {
      published_messages =
          sent.published_messages
          ++ record { message = message; receiver = receiver; state = start_state } ∷ [];
    }

-- `next->start()` for the first of the queue, if there is one.
unfoldable pub send_next : List QueuedPublish → Client → Client
unfolding transmit
send_next [] c = c
send_next (next ∷ queued) c =
    transmit next.message next.receiver (record c { queued_publishes = queued })

unfoldable pub maybe_send_queued_publish : Client → Client
unfolding send_next
maybe_send_queued_publish c =
    if ltb c.server_send_quota c.server_max_send_quota
    then send_next c.queued_publishes
        (record c { server_send_quota = (c.server_send_quota + 1) % 2 ^ 16 })
    else c

-- An acknowledgement with the reason code `success` or another, and no properties.
abbrev pub ack_for : ℕ → ℕ → Ack
ack_for packet_identifier reason_code = record {
  packet_identifier = packet_identifier;
  reason_code = reason_code;
  properties = Reason.dflt;
}

abbrev pub packet_identifier_not_found : ℕ
packet_identifier_not_found = 0x92

abbrev pub no_matching_subscribers : ℕ
no_matching_subscribers = 0x10

abbrev pub taken_out : ℕ → Client → Client
taken_out id c = record c { published_messages = erase identifier_of id c.published_messages }

-- `iter->state_ = waitiing_pubcomp`, and the response.
unfoldable pub released : ℕ → Client → Client
unfolding assign
released id c = send_message (ControlPacket.pubrel (ack_for id 0)) (record c {
  published_messages =
      assign identifier_of (λ m. record m { state = waitiing_pubcomp }) id c.published_messages;
})

-- A receiver is code of the user, which may call the client again: `resume` is what it does.
module _ (resume : Completion → Client → Client) where
  abbrev pub complete : Completion → Client → Client
  complete completion c = resume completion (emit (completed completion) c)

  -- `publish_sender::operation::start`, with its late modifier.
  unfoldable pub start_publish : (Publish → Publish) → Publish → ℕ → Client → Client
  unfolding next_packet_identifier transmit quality_of_service
  start_publish modifying_function message receiver c =
      let modified = modifying_function message in
      if quality_of_service modified == 0
      then complete (publish_value receiver 0) (send_message (ControlPacket.publish modified) c)
      else (let (identifier, c') = next_packet_identifier c in
          let identified = record modified { packet_identifier = identifier } in
          if ltb 0 c'.server_send_quota then transmit identified receiver c' else record c' {
            queued_publishes =
                c'.queued_publishes ++ record { message = identified; receiver = receiver } ∷ [];
          })

  -- What `handle_packet(puback)` does with a message that it has taken out, by its state.
  unfoldable pub finish_puback : PublishState → ℕ → ℕ → Client → Client
  finish_puback waiting_puback receiver reason_code c =
      complete (publish_value receiver reason_code) c
  finish_puback waiting_pubrec receiver reason_code c = close (complete (publish_done receiver) c)
  finish_puback waitiing_pubcomp receiver reason_code c = close (complete (publish_done receiver) c)

  unfoldable pub handle_puback : Ack → Client → Client
  unfolding finish_puback maybe_send_queued_publish find erase
  handle_puback puback c =
      let id = puback.packet_identifier in
      maybe_send_queued_publish (
        option_case (find identifier_of id c.published_messages) c (λ to_finish.
          finish_puback to_finish.state to_finish.receiver puback.reason_code (taken_out id c)))

  -- The branches of `handle_packet(pubrec)` for a message that is there and no error, by its state.
  unfoldable pub advance_pubrec : PublishState → ℕ → ℕ → Client → Client
  unfolding released erase
  advance_pubrec waiting_puback receiver id c =
      close (complete (publish_done receiver) (taken_out id c))
  advance_pubrec waiting_pubrec receiver id c = released id c
  advance_pubrec waitiing_pubcomp receiver id c = released id c

  unfoldable pub handle_pubrec : Ack → Client → Client
  unfolding advance_pubrec find
  handle_pubrec pubrec c =
      let id = pubrec.packet_identifier in
      option_case (find identifier_of id c.published_messages)
        (send_message (ControlPacket.pubrel (ack_for id packet_identifier_not_found)) c)
        (λ found.
          if ltb no_matching_subscribers pubrec.reason_code
          then complete (publish_value found.receiver pubrec.reason_code) (taken_out id c)
          else advance_pubrec found.state found.receiver id c)

  unfoldable pub handle_pubcomp : Ack → Client → Client
  unfolding find erase
  handle_pubcomp pubcomp c =
      let id = pubcomp.packet_identifier in
      option_case (find identifier_of id c.published_messages) c (λ to_finish.
        complete (publish_value to_finish.receiver pubcomp.reason_code) (taken_out id c))
