-- ===== src/Examples/Topics.antt =====
-- Topics and filters.
use mqtt.Base.{
  ℕ, ◌≡◌, refl, List, [], ◌∷◌, Bool, true, false, ok, err, assertion_failed, ◌>>=◌, ◌↔◌, ◌⊎◌,
  if◌then◌else◌, bytes_eq,
}
use mqtt.TopicFilter.{
  slash, hash, plus, contains, is_valid_level, parse_inplace, to_string, matches,
  starts_with_dollar,
}
use mqtt.TopicFilter.Split.{split}
use mqtt.TopicFilter.Parse.{
  is_accepted, parse_inplace-split, to_string-parse_inplace, parse_inplace_before_separator,
}
use mqtt.TopicFilter.Matching.{Matches, matches-Matches}

-- `a/b`
abbrev name : List ℕ
name = 97 ∷ slash ∷ 98 ∷ []

-- `+/#` as levels.
abbrev wild : List (List ℕ)
wild = (plus ∷ []) ∷ (hash ∷ []) ∷ []

matches-Matches_example :
    (b : Bool) × (matches wild name ≡ ok b)
    × ((b ≡ true) ↔ (
        Matches wild (split name)
        × ((starts_with_dollar name ≡ false) ⊎ (starts_with_dollar (plus ∷ []) ≡ true))))
unfolding contains
matches-Matches_example =
    matches-Matches (plus ∷ []) ((hash ∷ []) ∷ []) 97 (slash ∷ 98 ∷ []) refl refl

parse_inplace-split_example :
    parse_inplace name
    ≡ (if is_accepted (split name) then ok (split name) else err assertion_failed)
parse_inplace-split_example = parse_inplace-split 97 (slash ∷ 98 ∷ [])

to_string-parse_inplace_example : (parse_inplace name >>= to_string) ≡ ok name
unfolding split is_valid_level contains bytes_eq
to_string-parse_inplace_example = to_string-parse_inplace 97 (slash ∷ 98 ∷ []) refl

-- `a#/`
parse_inplace_before_separator_example :
    parse_inplace (97 ∷ hash ∷ slash ∷ []) ≡ ok ((97 ∷ hash ∷ []) ∷ [] ∷ [])
unfolding contains
parse_inplace_before_separator_example = parse_inplace_before_separator (97 ∷ hash ∷ []) refl
