-- ===== src/Examples/Sessions.antt =====
-- A client's run of publishes and acknowledgements.
use mqtt.Base.{ℕ, ◌*◌, List, [], ◌∷◌}
use mqtt.Packet.Publish.{Publish, new_publish}
use mqtt.Client.Sending.{ack_for}
use mqtt.Client.Sending.Flows.{unmodified}
use mqtt.Client.Sending.Refines.{Refines}
use mqtt.Client.Sending.Run.{SenderStep, starts, acknowledges, releases, completes}

abbrev message : ℕ → Publish
message qos = record new_publish { header_flags = 2 * qos; topic = 97 ∷ [] }

-- A QoS 2 message is begun and released while a QoS 1 message is begun and finished.
abbrev steps : List SenderStep
steps =
    starts unmodified (message 2) 7
    ∷ releases (ack_for 1 0)
    ∷ starts unmodified (message 1) 8
    ∷ acknowledges (ack_for 2 0)
    ∷ completes (ack_for 1 0)
    ∷ []
