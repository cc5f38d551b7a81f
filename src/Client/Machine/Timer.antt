-- ===== src/Client/Machine/Timer.antt =====
-- The handshake as a whole, and what `connect_and_ping_timer_` waits for after it.
use mqtt.Base.{
  ℕ, ◌/◌, ◌≡◌, refl, List, [], ◌∷◌, ◌++◌, ok, ◌>>=◌, ◌==◌, ltb, not, if◌then◌else◌, Bool-cases, inl,
  inr, append_assoc, ap, ◌∙◌,
}
use mqtt.Packet.Connack.{Connack}
use mqtt.ControlPacket.{connack}
use mqtt.ControlPacket
use mqtt.Client.States.{initial}
use mqtt.Client.{
  Effect, sent, receive_started, connect_timer_started, ping_timer_started, ping_timer_stopped,
  Client,
}
use mqtt.Client.Connecting.{connect_packet, negotiated}
use mqtt.Client.Machine.{packet_received_evt}
use mqtt.Client.Machine.Dispatch.{process_event, start_connect}
use mqtt.Client.Machine.Handshake.{
  no_resume, table_order, shaking, running, ping_effects, keep_alive_effects, greeted,
  finish_effects, start_connect-shaking, process_event-connack,
}

-- A timer has one wait; a new one cancels it.
pub data Wait : Type 0 where
  no_wait : Wait
  for_handshake : Wait
  for_ping : ℕ → Wait

abbrev pub after_effect : Wait → Effect → Wait
after_effect w connect_timer_started = for_handshake
after_effect w (ping_timer_started n) = for_ping n
after_effect w ping_timer_stopped = no_wait
after_effect w e = w

unfoldable pub waits_for : Wait → List Effect → Wait
waits_for w [] = w
waits_for w (e ∷ es) = waits_for (after_effect w e) es

waits_for-append :
    (w : Wait) (es fs : List Effect) → waits_for w (es ++ fs) ≡ waits_for (waits_for w es) fs
unfolding waits_for
waits_for-append w [] fs = refl
waits_for-append w (e ∷ es) fs = waits_for-append (after_effect w e) es fs

waits_for-keep_alive : (w : Wait) (k : ℕ) → waits_for w (keep_alive_effects k) ≡ w
unfolding waits_for
waits_for-keep_alive w k = elim (Bool-cases (ltb 0 k)) [ inl t ↦ simp t | inr f ↦ simp f ]

waits_for-greeted : (w : Wait) (recvs : List ℕ) → waits_for w (greeted recvs) ≡ w
unfolding waits_for
waits_for-greeted w [] = refl
waits_for-greeted w (r ∷ rs) = waits_for-greeted w rs

-- A ping is due after half the keep-alive; without a keep-alive the wait stays as it was.
abbrev pub next_wait : ℕ → Wait → Wait
next_wait k w = if ltb 0 k then for_ping (k / 2) else w

waits_for-ping : (w : Wait) (k : ℕ) → waits_for w (ping_effects k) ≡ next_wait k w
unfolding waits_for
waits_for-ping w k = elim (Bool-cases (ltb 0 k)) [ inl t ↦ simp t | inr f ↦ simp f ]

waits_for-finish :
    (w : Wait) (k : ℕ) (recvs : List ℕ) → waits_for w (finish_effects k recvs) ≡ next_wait k w
unfolding waits_for
waits_for-finish w k recvs =
    simp (waits_for-append, waits_for-ping, waits_for-keep_alive, waits_for-greeted)

waits_for-started :
    (w : Wait) (es : List Effect) (p : ControlPacket.ControlPacket)
    → waits_for w (es ++ receive_started ∷ connect_timer_started ∷ sent p ∷ []) ≡ for_handshake
unfolding waits_for
waits_for-started w es p = waits_for-append w es _

-- The keep-alive that a CONNACK leaves a client which asked for one.
abbrev pub agreed_keep_alive : Connack → ℕ → ℕ
agreed_keep_alive p asked =
    if not (p.properties.server_keep_alive == 0) then p.properties.server_keep_alive else asked

pub record IsConnected (p : Connack) (before after : Client) : Type 0 where
  pub states : after.connection_sm ≡ running
  pub keep_alive : after.keep_alive_used ≡ agreed_keep_alive p before.connect_opts.keep_alive
  pub send_quota : after.server_send_quota ≡ p.properties.shared.receive_maximum
  pub receive_quota : after.client_receive_quota ≡ before.connect_opts.receive_maximum
  pub no_receivers : after.connect_receivers ≡ []
  pub effects :
      after.effects
      ≡ before.effects
        ++ receive_started
          ∷ connect_timer_started
          ∷ sent (ControlPacket.connect (connect_packet before.connect_opts))
          ∷ finish_effects
              (agreed_keep_alive p before.connect_opts.keep_alive)
              before.connect_receivers
  pub timer :
      (w : Wait)
      → waits_for w after.effects
        ≡ next_wait (agreed_keep_alive p before.connect_opts.keep_alive) for_handshake

-- A connect on a client whose machine is in its first states, and a CONNACK: CONNECT is sent,
-- the machine runs in all regions, the quotas and the keep-alive are those agreed, each waiting
-- receiver is told, the next read is started, and the timer of the handshake waits for a ping
-- after half the keep-alive, but if the keep-alive is 0 it still waits for the handshake.
-- Receivers do not call the client, and the regions are served in the order of the table.
pub connect-IsConnected :
    (p : Connack) (c : Client)
    → c.connection_sm ≡ initial
    → (c' : Client) × ((start_connect no_resume table_order c
          >>= process_event no_resume table_order (packet_received_evt (connack p)))
        ≡ ok c')
      × IsConnected p c c'
unfolding negotiated waits_for
connect-IsConnected p c h =
    let k = agreed_keep_alive p c.connect_opts.keep_alive in
    let es =
      c.effects
      ++ receive_started
        ∷ connect_timer_started
        ∷ sent (ControlPacket.connect (connect_packet c.connect_opts))
        ∷ [] in
    let c1 = record c {
      keep_alive_used = c.connect_opts.keep_alive;
      client_id = c.connect_opts.client_id;
      connection_sm = shaking;
      effects = es;
    } in
    let c2 = record (negotiated p c1) {
      connection_sm = running;
      connect_receivers = [];
      effects = es ++ finish_effects k c.connect_receivers;
    } in
    (
      c2,
      simp (start_connect-shaking c h) (process_event-connack p c1 refl),
      record {
        states = refl;
        keep_alive = refl;
        send_quota = refl;
        receive_quota = refl;
        no_receivers = refl;
        effects = append_assoc c.effects _ _;
        timer = λ w.
            waits_for-append w es (finish_effects k c.connect_receivers)
            ∙ waits_for-finish (waits_for w es) k c.connect_receivers
            ∙ ap (next_wait k) (waits_for-started w c.effects _);
      },
    )
