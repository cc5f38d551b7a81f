-- ===== src/Examples/Options.antt =====
-- Publishes with options.
use mqtt.Base.{List, [], ◌∷◌, true}
use mqtt.Packet.Publish.{Publish}
use mqtt.PublishOptions.{Argument, qos_value, option, correlation_data, retain, topic_alias}

abbrev opts : List Argument
opts =
    qos_value 2
    ∷ option (correlation_data (5 ∷ []))
    ∷ option (retain true)
    ∷ option (topic_alias 3)
    ∷ qos_value 1
    ∷ []
