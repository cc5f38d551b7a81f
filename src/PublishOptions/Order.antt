-- ===== src/PublishOptions/Order.antt =====
-- Where the separation of options and modifiers cannot be told from applying them as they stand.
use mqtt.Base.{
  ◌≡◌, refl, ap, sym, ◌∙◌, List, [], ◌∷◌, ◌++◌, Bool, true, false, arith, All, All-append,
}
use mqtt.Packet.Publish.{Publish, set_quality_of_service, set_retain}
use mqtt.PublishOptions.{
  PublishOption, quality_of_service, retain, response_topic, content_type, correlation_data,
  message_expiry_interval, payload_format_indicator, topic_alias, apply, Argument, qos_value,
  payload_format_value, option, late_modifier, invocable, OptionsAndModifiers, with_option,
  with_modifier, is_publish_option, add_one, next_separated, base, separate_options_modifiers,
  apply_options, apply_modifiers,
}

-- An argument on its own.
unfoldable pub apply_argument : Argument → Publish → Publish
unfolding apply
apply_argument (qos_value qos) publish = apply (quality_of_service qos) publish
apply_argument (payload_format_value value) publish = apply (payload_format_indicator value) publish
apply_argument (option opt) publish = apply opt publish
apply_argument (late_modifier modifier) publish = modifier publish
apply_argument (invocable f) publish = f publish

unfoldable pub apply_arguments : List Argument → Publish → Publish
unfolding apply_argument
apply_arguments [] publish = publish
apply_arguments (arg ∷ args) publish = apply_arguments args (apply_argument arg publish)

-- Arguments with no code of the user, in which the payload format is given in one form throughout:
-- by enumerators, or by options.
abbrev pub IsPlain : Bool → Argument → Type 0
IsPlain by_value (qos_value qos) = Unit {0}
IsPlain by_value (payload_format_value value) = by_value ≡ true
IsPlain by_value (option (payload_format_indicator value)) = by_value ≡ false
IsPlain by_value (option opt) = Unit {0}
IsPlain by_value (late_modifier modifier) = ⊥
IsPlain by_value (invocable f) = ⊥

apply_options-append :
    (xs : List PublishOption) (x : PublishOption) (p : Publish)
    → apply_options (xs ++ x ∷ []) p ≡ apply x (apply_options xs p)
unfolding apply_options
apply_options-append [] x p = refl
apply_options-append (y ∷ ys) x p = apply_options-append ys x (apply y p)

apply_modifiers-append :
    (fs : List (Publish → Publish)) (f : Publish → Publish) (p : Publish)
    → apply_modifiers (fs ++ f ∷ []) p ≡ f (apply_modifiers fs p)
unfolding apply_modifiers
apply_modifiers-append [] f p = refl
apply_modifiers-append (g ∷ gs) f p = apply_modifiers-append gs f (g p)

-- The options that come to be applied at once, and those that become modifiers.
abbrev IsEarly : Bool → PublishOption → Type 0
IsEarly by_value (correlation_data value) = ⊥
IsEarly by_value (message_expiry_interval value) = ⊥
IsEarly by_value (payload_format_indicator value) = by_value ≡ true
IsEarly by_value opt = Unit {0}

abbrev IsLate : Bool → PublishOption → Type 0
IsLate by_value (correlation_data value) = Unit {0}
IsLate by_value (message_expiry_interval value) = Unit {0}
IsLate by_value (payload_format_indicator value) = by_value ≡ false
IsLate by_value opt = ⊥

abbrev IsLateModifier : Bool → (Publish → Publish) → Type 0
IsLateModifier by_value modifier =
    (opt : PublishOption) × IsLate by_value opt × (modifier ≡ apply opt)

-- They set different fields.
early_late_comm :
    (by_value : Bool) (late early : PublishOption) (p : Publish)
    → IsLate by_value late
    → IsEarly by_value early
    → apply early (apply late p) ≡ apply late (apply early p)
unfolding apply set_quality_of_service set_retain
early_late_comm b (correlation_data v) (quality_of_service qos) p l e = refl
early_late_comm b late early p l e = ground arith

early_modifiers_comm :
    (by_value : Bool) (modifiers : List (Publish → Publish)) (early : PublishOption) (p : Publish)
    → All (IsLateModifier by_value) modifiers
    → IsEarly by_value early
    → apply early (apply_modifiers modifiers p) ≡ apply_modifiers modifiers (apply early p)
unfolding apply_modifiers
early_modifiers_comm b [] early p h e = refl
early_modifiers_comm b (f ∷ fs) early p ((late, l, q), h) e =
    early_modifiers_comm b fs early (f p) h e
    ∙ ap (apply_modifiers fs) (rw q (early_late_comm b late early p l e))

-- What a separation comes to.
abbrev pub settled : OptionsAndModifiers → Publish → Publish
settled oam p = apply_modifiers oam.modifiers (apply_options oam.options p)

with_option-settled :
    (by_value : Bool) (oam : OptionsAndModifiers) (early : PublishOption) (p : Publish)
    → All (IsLateModifier by_value) oam.modifiers
    → IsEarly by_value early
    → settled (with_option early oam) p ≡ apply early (settled oam p)
with_option-settled b oam early p h e =
    ap (apply_modifiers oam.modifiers) (apply_options-append oam.options early p)
    ∙ sym (early_modifiers_comm b oam.modifiers early (apply_options oam.options p) h e)

with_modifier-settled :
    (oam : OptionsAndModifiers) (f : Publish → Publish) (p : Publish)
    → settled (with_modifier f oam) p ≡ f (settled oam p)
with_modifier-settled oam f p = apply_modifiers-append oam.modifiers f (apply_options oam.options p)

module _ (by_value : Bool) (oam : OptionsAndModifiers)
    (late : All (IsLateModifier by_value) oam.modifiers) where
  abbrev Extends : OptionsAndModifiers → Argument → Type 0
  Extends oam' arg =
      ((p : Publish) → settled oam' p ≡ apply_argument arg (settled oam p))
      × All (IsLateModifier by_value) oam'.modifiers

  add_late-Extends :
      (opt : PublishOption)
      → IsLate by_value opt
      → Extends (with_modifier (apply opt) oam) (option opt)
  unfolding apply_argument
  add_late-Extends opt l = (
    λ p. with_modifier-settled oam (apply opt) p,
    All-append (IsLateModifier by_value) oam.modifiers (apply opt ∷ []) late ((opt, l, refl), tt),
  )

  add_one-Extends : (arg : Argument) → IsPlain by_value arg → Extends (add_one oam arg) arg
  unfolding add_one is_publish_option apply_argument
  add_one-Extends (qos_value qos) h =
      (λ p. with_option-settled by_value oam (quality_of_service qos) p late h, late)
  add_one-Extends (payload_format_value value) h =
      (λ p. with_option-settled by_value oam (payload_format_indicator value) p late h, late)
  add_one-Extends (option (quality_of_service qos)) h =
      (λ p. with_option-settled by_value oam (quality_of_service qos) p late h, late)
  add_one-Extends (option (retain b)) h =
      (λ p. with_option-settled by_value oam (retain b) p late h, late)
  add_one-Extends (option (response_topic rt)) h =
      (λ p. with_option-settled by_value oam (response_topic rt) p late h, late)
  add_one-Extends (option (content_type value)) h =
      (λ p. with_option-settled by_value oam (content_type value) p late h, late)
  add_one-Extends (option (topic_alias value)) h =
      (λ p. with_option-settled by_value oam (topic_alias value) p late h, late)
  add_one-Extends (option (correlation_data value)) h = add_late-Extends (correlation_data value) h
  add_one-Extends (option (message_expiry_interval value)) h =
      add_late-Extends (message_expiry_interval value) h
  add_one-Extends (option (payload_format_indicator value)) h =
      add_late-Extends (payload_format_indicator value) h
  add_one-Extends (late_modifier modifier) h = absurd h
  add_one-Extends (invocable f) h = absurd h

next_separated-settled :
    (by_value : Bool) (args : List Argument) (oam : OptionsAndModifiers) (p : Publish)
    → All (IsLateModifier by_value) oam.modifiers
    → All (IsPlain by_value) args
    → settled (next_separated oam args) p ≡ apply_arguments args (settled oam p)
unfolding next_separated apply_arguments
next_separated-settled b [] oam p late plain = refl
next_separated-settled b (arg ∷ args) oam p late plain =
    let (q, late') = add_one-Extends b oam late arg plain.0 in
    next_separated-settled b args (add_one oam arg) p late' plain.1
    ∙ ap (apply_arguments args) (q p)

pub separate-in_order :
    (by_value : Bool) (args : List Argument) (p : Publish)
    → All (IsPlain by_value) args
    → settled (separate_options_modifiers args) p ≡ apply_arguments args p
unfolding separate_options_modifiers apply_options apply_modifiers
separate-in_order b args p plain = next_separated-settled b args base p tt plain
