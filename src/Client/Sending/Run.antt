-- ===== src/Client/Sending/Run.antt =====
-- A run of publishes and acknowledgements as a session.
use mqtt.Base.{ℕ, ◌≡◌, List, [], ◌∷◌, none}
use mqtt.Packet.Publish.{Publish}
use mqtt.Packet.Puback.{Ack}
use mqtt.Client.{Client}
use mqtt.Client.Find.{find}
use mqtt.Client.Sending.{identifier_of, start_publish, handle_puback, handle_pubrec, handle_pubcomp}
use mqtt.Client.Sending.Flows.{no_resume}
use mqtt.Client.Sending.Unshared.{queued_identifier}
use mqtt.Client.Sending.Refines.{Refines}

pub data SenderStep : Type 0 where
  starts : (Publish → Publish) → Publish → ℕ → SenderStep
  acknowledges releases completes : Ack → SenderStep

unfoldable pub run_step : SenderStep → Client → Client
run_step (starts modify message receiver) c = start_publish no_resume modify message receiver c
run_step (acknowledges puback) c = handle_puback no_resume puback c
run_step (releases pubrec) c = handle_pubrec no_resume pubrec c
run_step (completes pubcomp) c = handle_pubcomp no_resume pubcomp c

unfoldable pub run_steps : List SenderStep → Client → Client
unfolding run_step
run_steps [] c = c
run_steps (s ∷ ss) c = run_steps ss (run_step s c)

-- The identifier that the generator gives next is in use by no message.
abbrev pub NextIsNew : Client → Type 0
NextIsNew c =
    (find identifier_of c.next_identifier c.published_messages ≡ none)
    × (find queued_identifier c.next_identifier c.queued_publishes ≡ none)

abbrev pub NextIsNewFor : SenderStep → Client → Type 0
NextIsNewFor (starts modify message receiver) c = NextIsNew c
NextIsNewFor s c = Unit {0}

-- It is so at each start of a run.
abbrev pub AreNew : List SenderStep → Client → Type 0
AreNew [] c = Unit {0}
AreNew (s ∷ ss) c = NextIsNewFor s c × AreNew ss (run_step s c)
