-- ===== src/Client/Delivering.antt =====
-- include/mqtt5/client.hpp: what the client does with published messages that it receives, and
-- include/mqtt5/detail/filter_subscribe_sender.hpp: the receivers that wait for them.
pub mod Once
pub mod Waiters
pub mod WellFormed
use mqtt.Base.{
  ℕ, ◌+◌, ◌-◌, ◌%◌, ◌^◌, List, [], ◌∷◌, ◌++◌, Bool, true, false, Result, ok, ◌==◌, ltb,
  if◌then◌else◌, option_case, ◌>>=◌,
}
use mqtt.TopicFilter.{Level, matches, levels_eq}
use mqtt.Packet.Publish.{Publish, quality_of_service}
use mqtt.Packet.Puback.{Ack}
use mqtt.Packet.Disconnect
use mqtt.ControlPacket
use mqtt.Client.{FilteredSubscription, Completion, message_value, Client, sent, emit, send_message}
use mqtt.Client.Find.{find, erase}
use mqtt.Client.WellFormed.{received_identifier}
use mqtt.Client.Sending.{complete, ack_for, packet_identifier_not_found}

-- The first loop of `deliver_to_publish_waiters`: the receivers of the filters that match, and the
-- waiters that stay.
unfoldable pub take_matching :
    List ℕ → List FilteredSubscription → Result (List (List ℕ) × List FilteredSubscription)
unfolding matches
take_matching topic [] = ok ([], [])
take_matching topic (w ∷ ws) = matches w.filter topic >>= λ does_match.
    take_matching topic ws >>= λ (all_receivers, stay).
    ok (if does_match then (w.receivers ∷ all_receivers, stay) else (all_receivers, w ∷ stay))

-- `filter_subscribe_sender::operation::start`, on the waiters.
unfoldable pub add_waiter : List Level → ℕ → List FilteredSubscription → List FilteredSubscription
unfolding levels_eq
add_waiter filter receiver [] = record { filter = filter; receivers = receiver ∷ [] } ∷ []
add_waiter filter receiver (w ∷ ws) =
    let rest = add_waiter filter receiver ws in
    if levels_eq w.filter filter
    then record w { receivers = w.receivers ++ receiver ∷ [] } ∷ ws
    else w ∷ rest

unfoldable pub start_filter_subscribe : List Level → ℕ → Client → Client
unfolding add_waiter
start_filter_subscribe filter receiver c = record c {
  publish_waiters = add_waiter filter receiver c.publish_waiters;
}

-- `disconnect(reason)` has new properties, and 151 is `quota_exceeded`.
abbrev pub quota_exceeded : ControlPacket.ControlPacket
quota_exceeded = ControlPacket.disconnect (record { reason = 151; properties = Disconnect.dflt })

-- The quota of `handle_packet(publish)`. The writer of a disconnector closes the socket when it is
-- done, which is a later event.
unfoldable pub take_receive_quota : Publish → Client → Client
unfolding quality_of_service
take_receive_quota publish c =
    if quality_of_service publish == 0
    then c
    else if ltb 0 c.client_receive_quota
    then record c { client_receive_quota = c.client_receive_quota - 1 }
    else send_message quota_exceeded c

-- A message of quality 2 that is not known is kept.
unfoldable pub keep_publish : Publish → List Publish → List Publish
unfolding find
keep_publish publish kept =
    option_case (find received_identifier publish.packet_identifier kept) (kept ++ publish ∷ [])
      (λ known. kept)

-- `puback_sent_handler`
unfoldable pub puback_sent : Client → Client
puback_sent c =
    if ltb c.client_receive_quota c.connect_opts.receive_maximum
    then record c { client_receive_quota = c.client_receive_quota + 1 }
    else c

module _ (resume : Completion → Client → Client) where
  -- The second loop, over one vector and over all.
  unfoldable pub call_receivers : Publish → List ℕ → Client → Client
  call_receivers publish [] c = c
  call_receivers publish (rx ∷ rv) c =
      call_receivers publish rv (complete resume (message_value rx publish) c)

  unfoldable pub call_all : Publish → List (List ℕ) → Client → Client
  unfolding call_receivers
  call_all publish [] c = c
  call_all publish (rv ∷ all_receivers) c =
      call_all publish all_receivers (call_receivers publish rv c)

  unfoldable pub deliver_to_publish_waiters : Publish → Client → Result Client
  unfolding take_matching call_all
  deliver_to_publish_waiters publish c =
      take_matching publish.topic c.publish_waiters >>= λ (all_receivers, stay).
      ok (call_all publish all_receivers (record c { publish_waiters = stay }))

  -- What `handle_packet(publish)` does by the quality of service.
  unfoldable pub accept_publish : Publish → Client → Result Client
  unfolding quality_of_service keep_publish deliver_to_publish_waiters
  accept_publish publish c =
      let ack = ack_for publish.packet_identifier 0 in
      if quality_of_service publish == 1
      then deliver_to_publish_waiters publish (send_message (ControlPacket.puback ack) c)
      else if quality_of_service publish == 2
      then ok (
          send_message (ControlPacket.pubrec ack)
            (record c { received_qos2_states = keep_publish publish c.received_qos2_states }))
      else deliver_to_publish_waiters publish c

  unfoldable pub handle_publish : Publish → Client → Result Client
  unfolding take_receive_quota accept_publish
  handle_publish publish c = accept_publish publish (take_receive_quota publish c)

  unfoldable pub handle_pubrel : Ack → Client → Result Client
  unfolding find erase deliver_to_publish_waiters
  handle_pubrel pubrel c =
      let id = pubrel.packet_identifier in
      option_case (find received_identifier id c.received_qos2_states)
        (ok (send_message (ControlPacket.pubcomp (ack_for id packet_identifier_not_found)) c))
        (λ publish. deliver_to_publish_waiters publish (
          send_message (ControlPacket.pubcomp (ack_for id 0)) (record c {
            received_qos2_states = erase received_identifier id c.received_qos2_states;
          })))
