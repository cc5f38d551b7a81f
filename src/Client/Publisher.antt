-- ===== src/Client/Publisher.antt =====
-- include/mqtt5/client.hpp: `publisher` and `reusable_publisher`, which make a sender of
-- include/mqtt5/detail/publish_sender.hpp from a topic, a payload and options.
use mqtt.Base.{ℕ, List}
use mqtt.Packet.Publish.{Publish, new_publish, set_payload}
use mqtt.PublishOptions.{Argument, separate_options_modifiers, apply_options, apply_modifiers}
use mqtt.Client.{Completion, Client}
use mqtt.Client.Sending.{start_publish}

-- `publish_sender` and `reusable_publish_sender`; the client that they point to is the one that the
-- sender is started on.
pub record PublishSender : Type 0 where
  pub message : Publish
  pub modifying_function : Publish → Publish

-- The message before any option.
unfoldable pub message_of : List ℕ → List ℕ → Publish
unfolding set_payload
message_of topic payload = set_payload payload (record new_publish { topic = topic })

unfoldable pub publisher : List ℕ → List ℕ → List Argument → PublishSender
unfolding message_of separate_options_modifiers apply_options apply_modifiers
publisher topic payload opts =
    let opts_and_modifiers = separate_options_modifiers opts in
    record {
      message = apply_options opts_and_modifiers.options (message_of topic payload);
      modifying_function = apply_modifiers opts_and_modifiers.modifiers;
    }

-- The same, for a sender that is copied when it is connected and so can be connected again.
unfoldable pub reusable_publisher : List ℕ → List ℕ → List Argument → PublishSender
unfolding message_of separate_options_modifiers apply_options apply_modifiers
reusable_publisher topic payload opts =
    let opts_and_modifiers = separate_options_modifiers opts in
    record {
      message = apply_options opts_and_modifiers.options (message_of topic payload);
      modifying_function = apply_modifiers opts_and_modifiers.modifiers;
    }

-- `connect` with a receiver and the start of the operation.
unfoldable pub start_sender : (Completion → Client → Client) → PublishSender → ℕ → Client → Client
start_sender resume sender receiver c =
    start_publish resume sender.modifying_function sender.message receiver c

-- The `connect` of a reusable sender leaves the sender.
unfoldable pub start_reusable :
    (Completion → Client → Client) → PublishSender → ℕ → Client → PublishSender × Client
unfolding start_sender
start_reusable resume sender receiver c = (sender, start_sender resume sender receiver c)

abbrev pub as_given : Publish → Publish
as_given p = p
