-- ===== src/PublishOptions/Last.antt =====
-- The message of a publish by its options: of each kind the last one counts.
use mqtt.Base.{
  ℕ, ◌<◌, ◌≡◌, refl, List, [], ◌∷◌, Bool, Option, none, some, option_case, arith, All, ap, ◌∙◌,
}
use mqtt.Packet.Publish.{
  Publish, with_quality_of_service, with_retain, set_quality_of_service, set_retain,
  get_quality_of_service, has_retain,
}
use mqtt.Packet.Publish.Properties.{PublishProperties}
use mqtt.Packet.Publish.Flags.{flags-with_quality_of_service, flags-with_retain}
use mqtt.PublishOptions.{
  quality_of_service, retain, response_topic, content_type, correlation_data,
  message_expiry_interval, payload_format_indicator, topic_alias, apply, Argument, qos_value,
  payload_format_value, option, late_modifier, invocable,
}
use mqtt.PublishOptions.Order.{apply_argument, apply_arguments, IsPlain}

-- What an argument says of a field.
abbrev pub quality_of : Argument → Option ℕ
quality_of (qos_value qos) = some qos
quality_of (option (quality_of_service qos)) = some qos
quality_of arg = none

abbrev pub retain_of : Argument → Option Bool
retain_of (option (retain b)) = some b
retain_of arg = none

abbrev pub response_topic_of : Argument → Option (List ℕ)
response_topic_of (option (response_topic rt)) = some rt
response_topic_of arg = none

abbrev pub content_type_of : Argument → Option (List ℕ)
content_type_of (option (content_type value)) = some value
content_type_of arg = none

abbrev pub correlation_data_of : Argument → Option (List ℕ)
correlation_data_of (option (correlation_data value)) = some value
correlation_data_of arg = none

abbrev pub expiry_of : Argument → Option ℕ
expiry_of (option (message_expiry_interval value)) = some value
expiry_of arg = none

abbrev pub format_of : Argument → Option ℕ
format_of (payload_format_value value) = some value
format_of (option (payload_format_indicator value)) = some value
format_of arg = none

abbrev pub alias_of : Argument → Option ℕ
alias_of (option (topic_alias value)) = some value
alias_of arg = none

abbrev pub last_given {ℓ} : {A : Type ℓ} → (Argument → Option A) → List Argument → A → A
last_given said [] v = v
last_given said (arg ∷ args) v = last_given said args (option_case (said arg) v (λ x. x))

-- A quality of service in range.
abbrev pub IsInRange : Argument → Type 0
IsInRange (qos_value qos) = qos < 4
IsInRange (option (quality_of_service qos)) = qos < 4
IsInRange arg = Unit {0}

abbrev pub with_last : List Argument → PublishProperties → PublishProperties
with_last args props = record props {
  response_topic = last_given response_topic_of args props.response_topic;
  content_type = last_given content_type_of args props.content_type;
  correlation_data = last_given correlation_data_of args props.correlation_data;
  message_expiry_interval = last_given expiry_of args props.message_expiry_interval;
  payload_format_indicator = last_given format_of args props.payload_format_indicator;
  topic_alias = last_given alias_of args props.topic_alias;
}

-- What the arguments make of a message.
pub record Holds (args : List Argument) (before after : Publish) : Type 0 where
  pub same_topic : after.topic ≡ before.topic
  pub same_payload : after.payload ≡ before.payload
  pub same_identifier : after.packet_identifier ≡ before.packet_identifier
  pub is_byte : after.header_flags < 256
  pub quality :
      get_quality_of_service after.header_flags
      ≡ last_given quality_of args (get_quality_of_service before.header_flags)
  pub retained :
      has_retain after.header_flags ≡ last_given retain_of args (has_retain before.header_flags)
  pub properties : after.properties ≡ with_last args before.properties

Holds-none : (p : Publish) → p.header_flags < 256 → Holds [] p p
Holds-none p h = record {
  same_topic = refl;
  same_payload = refl;
  same_identifier = refl;
  is_byte = h;
  quality = refl;
  retained = refl;
  properties = refl;
}

with_quality_of_service-byte : (qos f : ℕ) → with_quality_of_service qos f < 256
unfolding with_quality_of_service
with_quality_of_service-byte qos f = ground arith

with_retain-byte : (b : Bool) (f : ℕ) → with_retain b f < 256
unfolding with_retain
with_retain-byte b f = ground arith

quality-Holds :
    (qos : ℕ) (p : Publish)
    → qos < 4
    → p.header_flags < 256
    → Holds (qos_value qos ∷ []) p (set_quality_of_service qos p)
unfolding set_quality_of_service
quality-Holds qos p hq h =
    let (d, q, r) = flags-with_quality_of_service qos p.header_flags hq h in
    record {
      same_topic = refl;
      same_payload = refl;
      same_identifier = refl;
      is_byte = with_quality_of_service-byte qos p.header_flags;
      quality = q;
      retained = r;
      properties = refl;
    }

retain-Holds :
    (b : Bool) (p : Publish)
    → p.header_flags < 256
    → Holds (option (retain b) ∷ []) p (set_retain b p)
unfolding set_retain
retain-Holds b p h =
    let (d, q, r) = flags-with_retain b p.header_flags h in
    record {
      same_topic = refl;
      same_payload = refl;
      same_identifier = refl;
      is_byte = with_retain-byte b p.header_flags;
      quality = q;
      retained = r;
      properties = refl;
    }

-- The arguments one after another.
Holds-more :
    (arg : Argument) (args : List Argument) (p q r : Publish)
    → Holds (arg ∷ []) p q
    → Holds args q r
    → Holds (arg ∷ args) p r
Holds-more arg args p q r one more = record {
  same_topic = more.same_topic ∙ one.same_topic;
  same_payload = more.same_payload ∙ one.same_payload;
  same_identifier = more.same_identifier ∙ one.same_identifier;
  is_byte = more.is_byte;
  quality = more.quality ∙ ap (last_given quality_of args) one.quality;
  retained = more.retained ∙ ap (last_given retain_of args) one.retained;
  properties = more.properties ∙ ap (with_last args) one.properties;
}

apply_argument-Holds :
    (by_value : Bool) (arg : Argument) (p : Publish)
    → IsPlain by_value arg
    → IsInRange arg
    → p.header_flags < 256
    → Holds (arg ∷ []) p (apply_argument arg p)
unfolding apply_argument apply
apply_argument-Holds b (qos_value qos) p plain range h = quality-Holds qos p range h
apply_argument-Holds b (option (quality_of_service qos)) p plain range h =
    let holds = quality-Holds qos p range h in
    record {
      same_topic = refl;
      same_payload = refl;
      same_identifier = refl;
      is_byte = holds.is_byte;
      quality = holds.quality;
      retained = holds.retained;
      properties = refl;
    }
apply_argument-Holds b (option (retain r)) p plain range h = retain-Holds r p h
apply_argument-Holds b (late_modifier modifier) p plain range h = absurd plain
apply_argument-Holds b (invocable f) p plain range h = absurd plain
apply_argument-Holds b arg p plain range h = record {
  same_topic = refl;
  same_payload = refl;
  same_identifier = refl;
  is_byte = h;
  quality = refl;
  retained = refl;
  properties = refl;
}

pub apply_arguments-Holds :
    (by_value : Bool) (args : List Argument) (p : Publish)
    → All (IsPlain by_value) args
    → All IsInRange args
    → p.header_flags < 256
    → Holds args p (apply_arguments args p)
unfolding apply_arguments
apply_arguments-Holds b [] p plain range h = Holds-none p h
apply_arguments-Holds b (arg ∷ args) p plain range h =
    let one = apply_argument-Holds b arg p plain.0 range.0 h in
    Holds-more arg args p (apply_argument arg p) _ one
      (apply_arguments-Holds b args (apply_argument arg p) plain.1 range.1 one.is_byte)
