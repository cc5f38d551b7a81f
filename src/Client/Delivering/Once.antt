-- ===== src/Client/Delivering/Once.antt =====
-- A message of quality 2 is delivered once, however often it is sent.
use mqtt.Base.{
  ℕ, ◌-◌, ◌≡◌, refl, sym, ap, ◌∙◌, List, [], ◌∷◌, ◌++◌, Result, ok, ◌>>=◌, ◌==◌, ltb, arith, All,
  All-append, append_assoc, append-nil, none, some, Bool-cases, inl, inr,
}
use mqtt.Packet.Publish.{Publish, quality_of_service}
use mqtt.Packet.Puback.{Ack}
use mqtt.ControlPacket.{ControlPacket}
use mqtt.Client.{Completion, Client, Effect, sent, send_message}
use mqtt.Client.Find.{find, erase, find-append_new, erase-append_new}
use mqtt.Client.WellFormed.{received_identifier}
use mqtt.Client.Sending.{ack_for}
use mqtt.Client.Delivering.{
  quota_exceeded, take_receive_quota, keep_publish, accept_publish, handle_publish, handle_pubrel,
  deliver_to_publish_waiters,
}

-- Packets only.
abbrev pub IsSent : Effect → Type 0
IsSent e = (packet : ControlPacket) × (e ≡ sent packet)

-- Between two clients nothing has happened but that packets were sent, and that the messages that
-- wait for their release are now `kept`.
pub record OnlySent (c c' : Client) (kept : List Publish) : Type 0 where
  pub new_effects : List Effect
  pub only_sent : All IsSent new_effects
  pub effects : c'.effects ≡ c.effects ++ new_effects
  pub received : c'.received_qos2_states ≡ kept
  pub waiters : c'.publish_waiters ≡ c.publish_waiters
  pub published : c'.published_messages ≡ c.published_messages

OnlySent-trans :
    (c c' c'' : Client) (kept kept' : List Publish)
    → OnlySent c c' kept
    → OnlySent c' c'' kept'
    → OnlySent c c'' kept'
OnlySent-trans c c' c'' kept kept' a b = record {
  new_effects = a.new_effects ++ b.new_effects;
  only_sent = All-append IsSent a.new_effects b.new_effects a.only_sent b.only_sent;
  effects =
      b.effects
      ∙ ap (λ es. es ++ b.new_effects) a.effects
      ∙ append_assoc c.effects a.new_effects b.new_effects;
  received = b.received;
  waiters = b.waiters ∙ a.waiters;
  published = b.published ∙ a.published;
}

-- Only the quota has changed.
nothing :
    (c : Client) (quota : ℕ)
    → OnlySent c (record c { client_receive_quota = quota }) c.received_qos2_states
nothing c quota = record {
  new_effects = [];
  only_sent = tt;
  effects = sym (append-nil c.effects);
  received = refl;
  waiters = refl;
  published = refl;
}

quota-OnlySent :
    (p : Publish) (c : Client) → OnlySent c (take_receive_quota p c) c.received_qos2_states
unfolding take_receive_quota
quota-OnlySent p c = elim (Bool-cases (quality_of_service p == 0)) [
  | inl z ↦ simp z (nothing c c.client_receive_quota)
  | inr n ↦ elim (Bool-cases (ltb 0 c.client_receive_quota)) [
    | inl t ↦ simp (n, t) (nothing c (c.client_receive_quota - 1))
    | inr f ↦
        simp (n, f)
          (record {
            new_effects = sent quota_exceeded ∷ [];
            only_sent = ((quota_exceeded, refl), tt);
            effects = refl;
            received = refl;
            waiters = refl;
            published = refl;
          })
  ]
]

module _ (resume : Completion → Client → Client) where
  -- Packets of a session, each handled in turn.
  unfoldable pub handle_publishes : List Publish → Client → Result Client
  handle_publishes [] c = ok c
  handle_publishes (p ∷ ps) c = handle_publish resume p c >>= handle_publishes ps

  qos2-OnlySent :
      (p : Publish) (c : Client)
      → quality_of_service p ≡ 2
      → (c' : Client) × (handle_publish resume p c ≡ ok c')
        × OnlySent c c' (keep_publish p c.received_qos2_states)
  unfolding handle_publish accept_publish
  qos2-OnlySent p c q =
      let c1 = take_receive_quota p c in
      let a = quota-OnlySent p c in
      let c2 =
        send_message (ControlPacket.pubrec (ack_for p.packet_identifier 0))
          (record c1 { received_qos2_states = keep_publish p c1.received_qos2_states }) in
      (
        c2,
        ground (arith, q),
        OnlySent-trans c c1 c2 c.received_qos2_states _ a (record {
          new_effects = sent (ControlPacket.pubrec (ack_for p.packet_identifier 0)) ∷ [];
          only_sent = ((ControlPacket.pubrec (ack_for p.packet_identifier 0), refl), tt);
          effects = refl;
          received = ap (keep_publish p) a.received;
          waiters = refl;
          published = refl;
        }),
      )

  abbrev pub IsDuplicateOf : Publish → Publish → Type 0
  IsDuplicateOf p q = (quality_of_service q ≡ 2) × (q.packet_identifier ≡ p.packet_identifier)

  duplicates-OnlySent :
      (p : Publish) (ps : List Publish) (c : Client)
      → All (IsDuplicateOf p) ps
      → find received_identifier p.packet_identifier c.received_qos2_states ≡ some p
      → (c' : Client) × (handle_publishes ps c ≡ ok c') × OnlySent c c' c.received_qos2_states
  unfolding handle_publishes keep_publish
  duplicates-OnlySent p [] c d e = (c, refl, nothing c c.client_receive_quota)
  duplicates-OnlySent p (q ∷ ps) c d e =
      let (c1, e1, a) = qos2-OnlySent q c d.0.0 in
      let k : c1.received_qos2_states ≡ c.received_qos2_states = a.received ∙ rw (d.0.1, e) refl in
      let (c2, e2, b) = duplicates-OnlySent p ps c1 d.1 (rw k e) in
      (c2, rw (e1, e2), OnlySent-trans c c1 c2 _ c.received_qos2_states a (rw k at b))

  -- A QoS 2 message under an identifier that is not in use, any further QoS 2 packets with that
  -- identifier, and the PUBREL for it lead to one delivery of the first message; up to it the
  -- client has only sent packets, and it keeps what it kept before.
  pub exactly_once :
      (p : Publish) (ps : List Publish) (pubrel : Ack) (c : Client)
      → quality_of_service p ≡ 2
      → All (IsDuplicateOf p) ps
      → pubrel.packet_identifier ≡ p.packet_identifier
      → find received_identifier p.packet_identifier c.received_qos2_states ≡ none
      → (c' : Client) × ((handle_publishes (p ∷ ps) c >>= handle_pubrel resume pubrel)
          ≡ deliver_to_publish_waiters resume p c')
        × OnlySent c c' c.received_qos2_states
  unfolding handle_publishes handle_pubrel keep_publish
  exactly_once p ps pubrel c q d i e =
      let (c1, e1, a) = qos2-OnlySent p c q in
      let k : c1.received_qos2_states ≡ c.received_qos2_states ++ p ∷ [] = a.received ∙ rw e refl in
      let there : find received_identifier p.packet_identifier c1.received_qos2_states ≡ some p =
        rw k (find-append_new received_identifier c.received_qos2_states p e) in
      let (c2, e2, b) = duplicates-OnlySent p ps c1 d there in
      let there2 : find received_identifier p.packet_identifier c2.received_qos2_states ≡ some p =
        rw b.received there in
      let comp = ControlPacket.pubcomp (ack_for p.packet_identifier 0) in
      let c3 = send_message comp (record c2 {
        received_qos2_states =
            erase received_identifier p.packet_identifier c2.received_qos2_states;
      }) in
      (
        c3,
        rw (e1, e2, i, there2) refl,
        OnlySent-trans c c2 c3 c1.received_qos2_states c.received_qos2_states
            (OnlySent-trans c c1 c2 _ c1.received_qos2_states a b)
            (record {
              new_effects = sent comp ∷ [];
              only_sent = ((comp, refl), tt);
              effects = refl;
              received =
                  ap (erase received_identifier p.packet_identifier) (b.received ∙ k)
                  ∙ erase-append_new received_identifier c.received_qos2_states p e;
              waiters = refl;
              published = refl;
            }),
      )
