-- ===== src/Client/Sending/Flows.antt =====
-- A publish and its acknowledgements from the start to the end, where receivers do not call the
-- client.
use mqtt.Base.{
  ℕ, ◌+◌, ◌-◌, ◌%◌, ◌^◌, ◌<◌, ◌≤◌, ◌≡◌, ◌≢◌, refl, List, [], ◌∷◌, ◌++◌, none, some, ◌==◌, ltb,
  if◌then◌else◌, arith, append_assoc, true, false,
}
use mqtt.Packet.Publish.{Publish, quality_of_service}
use mqtt.Packet.Puback.{Ack}
use mqtt.ControlPacket
use mqtt.Client.{
  PublishState, waiting_puback, waiting_pubrec, waitiing_pubcomp, InFlightPublish, Completion,
  publish_value, completed, sent, Effect, Client,
}
use mqtt.Client.Find.{find, erase, find-append_new, erase-append_new, assign-append_new}
use mqtt.Client.Identifiers.{increment, next_packet_identifier}
use mqtt.Client.Sending.{
  identifier_of, ack_for, transmit, send_next, maybe_send_queued_publish, start_publish,
  finish_puback, handle_puback, released, advance_pubrec, handle_pubrec, handle_pubcomp,
  no_matching_subscribers,
}

abbrev pub no_resume : Completion → Client → Client
no_resume x c = c

abbrev pub unmodified : Publish → Publish
unmodified p = p

module _ (message : Publish) (receiver : ℕ) (c : Client)
    (new : find identifier_of c.next_identifier c.published_messages ≡ none)
    (some_quota : 0 < c.server_send_quota) (in_range : c.server_send_quota < 2 ^ 16) where
  abbrev identified : Publish
  identified = record message { packet_identifier = c.next_identifier }

  abbrev one_less : Client
  one_less = record c {
    next_identifier = increment c.next_identifier;
    server_send_quota = c.server_send_quota - 1;
  }

  abbrev in_flight : PublishState → InFlightPublish
  in_flight state = record { message = identified; receiver = receiver; state = state }

  -- The client with the message in flight, after some effects.
  abbrev with_message : PublishState → List Effect → Client
  with_message state es = record one_less {
    effects = c.effects ++ es;
    published_messages = c.published_messages ++ in_flight state ∷ [];
  }

  started :
      (state : PublishState)
      → quality_of_service message ≢ 0
      → (if quality_of_service message == 2 then waiting_pubrec else waiting_puback) ≡ state
      → start_publish no_resume unmodified message receiver c
        ≡ with_message state (sent (ControlPacket.publish identified) ∷ [])
  unfolding start_publish next_packet_identifier transmit quality_of_service
  started state nz e =
      let q : (c.server_send_quota + 2 ^ 16 - 1) % 2 ^ 16 ≡ c.server_send_quota - 1 = omega arith in
      let z : (quality_of_service message == 0) ≡ false = ground arith in
      let t : ltb 0 c.server_send_quota ≡ true = ground arith in simp (z, t, q, e)

  found :
      (state : PublishState)
      → find identifier_of c.next_identifier (c.published_messages ++ in_flight state ∷ [])
        ≡ some (in_flight state)
  found state = find-append_new identifier_of c.published_messages (in_flight state) new

  erased :
      (state : PublishState)
      → erase identifier_of c.next_identifier (c.published_messages ++ in_flight state ∷ [])
        ≡ c.published_messages
  erased state = erase-append_new identifier_of c.published_messages (in_flight state) new

  -- A QoS 1 publish under an identifier that is not in flight, with some quota and no queue, and
  -- its PUBACK: the packet is sent, the receiver gets the reason code, and the messages in
  -- flight and the quota are those of before. The receiver does not call the client.
  pub qos1_acknowledged :
      (puback : Ack)
      → quality_of_service message ≡ 1
      → puback.packet_identifier ≡ c.next_identifier
      → c.server_send_quota ≤ c.server_max_send_quota
      → c.queued_publishes ≡ []
      → handle_puback no_resume puback (start_publish no_resume unmodified message receiver c)
        ≡ record c {
          next_identifier = increment c.next_identifier;
          effects =
              c.effects
              ++ sent (ControlPacket.publish identified)
                ∷ completed (publish_value receiver puback.reason_code)
                ∷ [];
        }
  unfolding handle_puback finish_puback maybe_send_queued_publish send_next
  qos1_acknowledged puback q i le empty =
      let s = started waiting_puback (omega arith) (rw q refl) in
      let back : (c.server_send_quota - 1 + 1) % 2 ^ 16 ≡ c.server_send_quota = omega arith in
      let less : ltb (c.server_send_quota - 1) c.server_max_send_quota ≡ true = ground arith in
      simp (s, i, found waiting_puback, erased waiting_puback, less, back, empty, append_assoc)

  -- A QoS 2 publish under an identifier that is not in flight, with some quota, its PUBREC with
  -- no error and its PUBCOMP: the packet is sent and released, the receiver gets the reason code
  -- of the PUBCOMP, and the messages in flight are those of before, but the quota is one less
  -- than before. The receiver does not call the client.
  pub qos2_acknowledged :
      (pubrec pubcomp : Ack)
      → quality_of_service message ≡ 2
      → pubrec.packet_identifier ≡ c.next_identifier
      → pubrec.reason_code ≤ no_matching_subscribers
      → pubcomp.packet_identifier ≡ c.next_identifier
      → handle_pubcomp no_resume pubcomp
          (handle_pubrec no_resume pubrec (start_publish no_resume unmodified message receiver c))
        ≡ record c {
          next_identifier = increment c.next_identifier;
          server_send_quota = c.server_send_quota - 1;
          effects =
              c.effects
              ++ sent (ControlPacket.publish identified)
                ∷ sent (ControlPacket.pubrel (ack_for c.next_identifier 0))
                ∷ completed (publish_value receiver pubcomp.reason_code)
                ∷ [];
        }
  unfolding handle_pubcomp handle_pubrec advance_pubrec released
  qos2_acknowledged pubrec pubcomp q i r k =
      let s = started waiting_pubrec (omega arith) (rw q refl) in
      let good : ltb no_matching_subscribers pubrec.reason_code ≡ false = ground arith in
      let moved =
        assign-append_new identifier_of (λ m. record m { state = waitiing_pubcomp })
          c.published_messages (in_flight waiting_pubrec) new in
      simp (
        s,
        i,
        found waiting_pubrec,
        good,
        moved,
        k,
        found waitiing_pubcomp,
        erased waitiing_pubcomp,
        append_assoc,
      )
