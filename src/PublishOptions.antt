-- ===== src/PublishOptions.antt =====
-- include/mqtt5/publish_options.hpp: the options of a publish, and how those that are applied at
-- once are told from the modifiers that are applied when the publish starts.
pub mod Order
pub mod Last
use mqtt.Base.{ℕ, List, [], ◌∷◌, ◌++◌, Bool, true, false, if◌then◌else◌}
use mqtt.Packet.Publish.{Publish, set_quality_of_service, set_retain}

-- The classes of options. Durations are their counts, and enumerators are their numbers.
pub data PublishOption : Type 0 where
  quality_of_service : ℕ → PublishOption
  retain : Bool → PublishOption
  response_topic : List ℕ → PublishOption
  content_type : List ℕ → PublishOption
  correlation_data : List ℕ → PublishOption
  message_expiry_interval : ℕ → PublishOption
  payload_format_indicator : ℕ → PublishOption
  topic_alias : ℕ → PublishOption

-- Their `operator()`.
unfoldable pub apply : PublishOption → Publish → Publish
unfolding set_quality_of_service set_retain
apply (quality_of_service qos) publish = set_quality_of_service qos publish
apply (retain b) publish = set_retain b publish
apply (response_topic rt) publish = record publish {
  properties = record publish.properties { response_topic = rt };
}
apply (content_type value) publish = record publish {
  properties = record publish.properties { content_type = value };
}
apply (correlation_data value) publish = record publish {
  properties = record publish.properties { correlation_data = value };
}
apply (message_expiry_interval value) publish = record publish {
  properties = record publish.properties { message_expiry_interval = value };
}
apply (payload_format_indicator value) publish = record publish {
  properties = record publish.properties { payload_format_indicator = value };
}
apply (topic_alias value) publish = record publish {
  properties = record publish.properties { topic_alias = value };
}

-- What `publisher` takes: an enumerator, an option, a `late_modifier`, or another callable.
pub data Argument : Type 0 where
  qos_value : ℕ → Argument
  payload_format_value : ℕ → Argument
  option : PublishOption → Argument
  late_modifier : (Publish → Publish) → Argument
  invocable : (Publish → Publish) → Argument

-- The list of `is_publish_option`, which is not that of the classes.
unfoldable pub is_publish_option : PublishOption → Bool
is_publish_option (quality_of_service qos) = true
is_publish_option (retain b) = true
is_publish_option (response_topic rt) = true
is_publish_option (content_type value) = true
is_publish_option (correlation_data value) = false
is_publish_option (message_expiry_interval value) = false
is_publish_option (payload_format_indicator value) = false
is_publish_option (topic_alias value) = true

pub record OptionsAndModifiers : Type 0 where
  pub options : List PublishOption
  pub modifiers : List (Publish → Publish)

abbrev pub with_option : PublishOption → OptionsAndModifiers → OptionsAndModifiers
with_option opt oam = record oam { options = oam.options ++ opt ∷ [] }

abbrev pub with_modifier : (Publish → Publish) → OptionsAndModifiers → OptionsAndModifiers
with_modifier modifier oam = record oam { modifiers = oam.modifiers ++ modifier ∷ [] }

-- Every class of options is callable, so that one that `is_publish_option` leaves out is a modifier.
unfoldable pub add_one : OptionsAndModifiers → Argument → OptionsAndModifiers
unfolding is_publish_option apply
add_one oam (qos_value qos) = with_option (quality_of_service qos) oam
add_one oam (payload_format_value value) = with_option (payload_format_indicator value) oam
add_one oam (option opt) =
    if is_publish_option opt then with_option opt oam else with_modifier (apply opt) oam
add_one oam (late_modifier modifier) = with_modifier modifier oam
add_one oam (invocable f) = with_modifier f oam

unfoldable pub next_separated : OptionsAndModifiers → List Argument → OptionsAndModifiers
unfolding add_one
next_separated oam [] = oam
next_separated oam (next ∷ rest) = next_separated (add_one oam next) rest

abbrev pub base : OptionsAndModifiers
base = record { options = []; modifiers = [] }

unfoldable pub separate_options_modifiers : List Argument → OptionsAndModifiers
unfolding next_separated
separate_options_modifiers args = next_separated base args

-- `tuple_for_each` over the options and over the modifiers.
unfoldable pub apply_options : List PublishOption → Publish → Publish
unfolding apply
apply_options [] publish = publish
apply_options (opt ∷ opts) publish = apply_options opts (apply opt publish)

unfoldable pub apply_modifiers : List (Publish → Publish) → Publish → Publish
apply_modifiers [] publish = publish
apply_modifiers (modifier ∷ modifiers) publish = apply_modifiers modifiers (modifier publish)
