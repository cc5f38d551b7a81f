-- ===== src/TopicFilter/Matching.antt =====
-- `matches` against the matching rules of MQTT (section 4.7 of its standard).
use mqtt.Base.{
  ℕ, suc, ◌-◌, ◌<◌, ◌≡◌, ◌↔◌, ◌⊎◌, inl, inr, refl, List, [], ◌∷◌, Bool, true, false, not, ◌&&◌,
  ◌||◌, ok, if◌then◌else◌, is_empty, length, bytes_eq, bytes_eq_refl, bytes_eq_sound, ◌>>=◌, arith,
  Bool-cases,
}
use mqtt.TopicFilter.{
  Level, hash, plus, contains, matches_n_levels, back_is_hash, matches_levels, starts_with_dollar,
  front_is_no_dollar, compare_names, matches,
}
use mqtt.TopicFilter.Split.{split}
use mqtt.TopicFilter.Parse.{parse_inplace_name}

-- `#` as the last level stands for any number of levels, `+` for one, and any other level for itself.
pub data Matches : List Level → List Level → Type 0 where
  multi_level : (names : List Level) → Matches ((hash ∷ []) ∷ []) names
  no_more : Matches [] []
  single_level :
      (levels names : List Level) (name : Level)
      → Matches levels names
      → Matches ((plus ∷ []) ∷ levels) (name ∷ names)
  same_level :
      (levels names : List Level) (level : Level)
      → Matches levels names
      → Matches (level ∷ levels) (level ∷ names)

empty-nil {ℓ} : {A : Type ℓ} (xs : List A) → is_empty xs ≡ true → xs ≡ []
empty-nil [] e = refl
empty-nil (x ∷ xs) e = cc e

is_multi_level : Level → List Level → Bool
is_multi_level level levels = is_empty levels && bytes_eq level (hash ∷ [])

-- The same as a function.
covers : List Level → List Level → Bool
unfolding is_multi_level
covers [] [] = true
covers [] (name ∷ names) = false
covers (level ∷ levels) [] = is_multi_level level levels
covers (level ∷ levels) (name ∷ names) =
    is_multi_level level levels
    || ((bytes_eq level (plus ∷ []) || bytes_eq level name) && covers levels names)

-- How a level of a filter stands to a level of a name.
level_cases :
    (level : Level) (levels : List Level) (name : Level)
    → ((level ≡ hash ∷ []) × (levels ≡ []))
      ⊎ ((is_multi_level level levels ≡ false)
          × ((level ≡ plus ∷ [])
              ⊎ ((bytes_eq level (plus ∷ []) ≡ false)
                  × ((level ≡ name) ⊎ (bytes_eq level name ≡ false)))))
unfolding is_multi_level
level_cases level levels name = elim (Bool-cases (is_multi_level level levels)) [
  | inl m ↦ inl (bytes_eq_sound level (hash ∷ []) (ground arith), empty-nil levels (ground arith))
  | inr m ↦ elim (Bool-cases (bytes_eq level (plus ∷ []))) [
    | inl p ↦ inr (m, inl (bytes_eq_sound level (plus ∷ []) p))
    | inr p ↦ elim (Bool-cases (bytes_eq level name)) [
      | inl s ↦ inr (m, inr (p, inl (bytes_eq_sound level name s)))
      | inr d ↦ inr (m, inr (p, inr d))
    ]
  ]
]

covers-Matches : (levels names : List Level) → covers levels names ≡ true → Matches levels names
unfolding covers
covers-Matches [] [] e = no_more
covers-Matches [] (name ∷ names) e = cc e
covers-Matches (level ∷ []) [] e = rw (bytes_eq_sound level (hash ∷ []) e) (multi_level [])
covers-Matches (level ∷ next ∷ levels) [] e = cc e
covers-Matches (level ∷ levels) (name ∷ names) e = elim (level_cases level levels name) [
  | inl (e1, e2) ↦ rw (e1, e2) (multi_level (name ∷ names))
  | inr (m, inl p) ↦
      rw p (single_level levels names name (covers-Matches levels names (ground (arith, m))))
  | inr (m, inr (p, inl s)) ↦
      rw s (same_level levels names name (covers-Matches levels names (ground (arith, m))))
  | inr (m, inr (p, inr d)) ↦ absurd (ground (arith, m))
]

Matches-covers : {levels names : List Level} → Matches levels names → covers levels names ≡ true
unfolding covers
Matches-covers (multi_level []) = bytes_eq_refl (hash ∷ [])
Matches-covers (multi_level (n ∷ ns)) = ground (arith, bytes_eq_refl (hash ∷ []))
Matches-covers no_more = refl
Matches-covers (single_level levels names name m) =
    ground (arith, Matches-covers m, bytes_eq_refl (plus ∷ []))
Matches-covers (same_level levels names level m) =
    ground (arith, Matches-covers m, bytes_eq_refl level)

-- The three ways that the lengths stand to each other.
matches_n_levels-same :
    (levels names : List Level)
    → length levels ≡ length names
    → matches_n_levels (length levels) levels names ≡ ok (covers levels names)
unfolding matches_n_levels covers is_multi_level
matches_n_levels-same [] [] e = refl
matches_n_levels-same [] (name ∷ names) e = absurd (omega arith)
matches_n_levels-same (level ∷ levels) [] e = absurd (omega arith)
matches_n_levels-same (level ∷ levels) (name ∷ names) e =
    ground (arith, matches_n_levels-same levels names (omega arith))

matches_n_levels-one_more :
    (levels names : List Level)
    → length levels ≡ suc (length names)
    → (back_is_hash levels >>= λ h.
        if not h then ok false else matches_n_levels (length names) levels names)
      ≡ ok (covers levels names)
unfolding matches_n_levels covers is_multi_level back_is_hash
matches_n_levels-one_more [] names e = absurd (omega arith)
matches_n_levels-one_more (level ∷ []) [] e = ground arith
matches_n_levels-one_more (level ∷ []) (name ∷ names) e = absurd (omega arith)
matches_n_levels-one_more (level ∷ next ∷ levels) [] e = absurd (omega arith)
matches_n_levels-one_more (level ∷ next ∷ levels) (name ∷ names) e =
    ground (arith, matches_n_levels-one_more (next ∷ levels) names (omega arith))

covers_far_longer :
    (levels names : List Level) → suc (length names) < length levels → covers levels names ≡ false
unfolding covers is_multi_level
covers_far_longer [] names e = absurd (omega arith)
covers_far_longer (level ∷ []) [] e = absurd (omega arith)
covers_far_longer (level ∷ next ∷ levels) [] e = refl
covers_far_longer (level ∷ []) (name ∷ names) e = absurd (omega arith)
covers_far_longer (level ∷ next ∷ levels) (name ∷ names) e =
    ground (arith, covers_far_longer (next ∷ levels) names (omega arith))

matches_n_levels-shorter :
    (levels names : List Level)
    → 0 < length levels
    → length levels < length names
    → (back_is_hash levels >>= λ h.
        if h then matches_n_levels (length levels - 1) levels names else ok false)
      ≡ ok (covers levels names)
unfolding matches_n_levels covers is_multi_level back_is_hash
matches_n_levels-shorter [] names h e = absurd (omega arith)
matches_n_levels-shorter (level ∷ levels) [] h e = absurd (omega arith)
matches_n_levels-shorter (level ∷ []) (name ∷ []) h e = absurd (omega arith)
matches_n_levels-shorter (level ∷ []) (name ∷ next ∷ names) h e = ground arith
matches_n_levels-shorter (level ∷ next ∷ levels) (name ∷ names) h e =
    ground (arith, matches_n_levels-shorter (next ∷ levels) names (omega arith) (omega arith))

matches_levels-covers :
    (level : Level) (levels names : List Level)
    → matches_levels (level ∷ levels) names ≡ ok (covers (level ∷ levels) names)
unfolding matches_levels
matches_levels-covers level levels names = ground (
  arith,
  matches_n_levels-same (level ∷ levels) names,
  matches_n_levels-one_more (level ∷ levels) names,
  covers_far_longer (level ∷ levels) names,
  matches_n_levels-shorter (level ∷ levels) names,
)

-- A match of a filter with at least one level against any levels is decided: no vector is read out
-- of its range, and the answer is yes exactly if the rules of MQTT say so.
pub matches_levels-Matches :
    (level : Level) (levels names : List Level)
    → (b : Bool) × (matches_levels (level ∷ levels) names ≡ ok b)
      × ((b ≡ true) ↔ Matches (level ∷ levels) names)
matches_levels-Matches level levels names = (
  covers (level ∷ levels) names,
  matches_levels-covers level levels names,
  (covers-Matches (level ∷ levels) names, Matches-covers),
)

-- For a filter with at least one level and a topic name without wildcards, matches returns, and
-- its answer is yes exactly if the name's levels match by the rules of MQTT and the filter
-- begins with a dollar sign where the name does.
pub matches-Matches :
    (level : Level) (levels : List Level) (c : ℕ) (cs : List ℕ)
    → contains plus (c ∷ cs) ≡ false
    → contains hash (c ∷ cs) ≡ false
    → (b : Bool) × (matches (level ∷ levels) (c ∷ cs) ≡ ok b)
      × ((b ≡ true) ↔ (
          Matches (level ∷ levels) (split (c ∷ cs))
          × ((starts_with_dollar (c ∷ cs) ≡ false) ⊎ (starts_with_dollar level ≡ true))))
unfolding matches front_is_no_dollar compare_names
matches-Matches level levels c cs hp hh =
    let e = parse_inplace_name c cs hp hh in
    let (b, e1, (there, back)) = matches_levels-Matches level levels (split (c ∷ cs)) in
    elim (Bool-cases (starts_with_dollar (c ∷ cs))) [
      | inl t ↦ elim (Bool-cases (starts_with_dollar level)) [
        | inl u ↦ (b, ground (arith, e, e1), (λ h. (there h, inr u), λ m. back m.0))
        | inr u ↦ (
          false,
          ground (arith, e, e1),
          (λ h. absurd (ground arith), λ m. absurd (ground (arith, m.1))),
        )
      ]
      | inr t ↦ (b, ground (arith, e, e1), (λ h. (there h, inl t), λ m. back m.0))
    ]
