-- ===== src/TopicFilter/Parse.antt =====
-- Which filters `parse_inplace` takes, and the levels that it makes of them.
use mqtt.Base.{
  ℕ, zero, suc, ◌≤◌, ◌≡◌, refl, ap, sym, ◌∙◌, List, [], ◌∷◌, ◌++◌, Bool, true, false, ◌&&◌, Option,
  none, some, Result, ok, err, assertion_failed, ◌>>=◌, ◌==◌, if◌then◌else◌, length, bytes_eq_sound,
  arith, Bool-cases, inl, inr, All,
}
use mqtt.TopicFilter.{
  Level, slash, hash, plus, contains, is_valid_level, next_separator, parse_level, parse_loop,
  parse_inplace, to_string,
}
use mqtt.TopicFilter.Split.{
  split, split_found, split-next_separator, next_separator-shorter, split-cons, to_string-split,
  split-contains,
}

-- The rules for wildcards, on the levels: `#` alone and last, `+` alone.
abbrev pub is_well_formed : List Level → Bool
is_well_formed [] = true
is_well_formed (level ∷ []) = is_valid_level level []
is_well_formed (level ∷ next ∷ levels) =
    is_valid_level level (slash ∷ []) && is_well_formed (next ∷ levels)

-- What is asserted in fact: the level before a separator at the end is not looked at.
abbrev pub is_accepted : List Level → Bool
is_accepted [] = true
is_accepted (level ∷ []) = is_valid_level level []
is_accepted (level ∷ [] ∷ []) = true
is_accepted (level ∷ (c ∷ cs) ∷ levels) =
    is_valid_level level (slash ∷ []) && is_accepted ((c ∷ cs) ∷ levels)
is_accepted (level ∷ [] ∷ next ∷ levels) =
    is_valid_level level (slash ∷ []) && is_accepted ([] ∷ next ∷ levels)

empty_is_valid : (rest : List ℕ) → is_valid_level [] rest ≡ true
unfolding is_valid_level contains
empty_is_valid rest = ground (arith, bytes_eq_sound [] (hash ∷ []))

-- Only whether something follows counts.
valid_before :
    (level : Level) (d e : ℕ) (ds es : List ℕ)
    → is_valid_level level (d ∷ ds) ≡ is_valid_level level (e ∷ es)
unfolding is_valid_level
valid_before level d e ds es = refl

accepted_behind :
    (level : Level) (d : ℕ) (ds : List ℕ)
    → is_accepted (level ∷ split (d ∷ ds))
      ≡ (is_valid_level level (slash ∷ []) && is_accepted (split (d ∷ ds)))
unfolding split
accepted_behind level d ds =
    let (next, levels, q) = split-cons ds in
    elim (Bool-cases (d == slash)) [ inl t ↦ simp (t, q) | inr f ↦ simp (f, q) ]

abbrev outcome : List ℕ → Result (List Level)
outcome s = if is_accepted (split s) then ok (split s) else err assertion_failed

abbrev outcome_of : List Level → Result (List Level)
outcome_of levels = if is_accepted levels then ok levels else err assertion_failed

-- A round, where the rest of the loop does what it should.
parse_level-found :
    (more : List ℕ → Result (List Level)) (level : Level) (found : Option (List ℕ))
    → ((d : ℕ) (ds : List ℕ) → found ≡ some (d ∷ ds) → more (d ∷ ds) ≡ outcome (d ∷ ds))
    → parse_level more level found ≡ outcome_of (split_found level found)
unfolding parse_level
parse_level-found more level none ih = refl
parse_level-found more level (some []) ih = unfold split in rw (empty_is_valid [])
parse_level-found more level (some (d ∷ ds)) ih =
    ground (arith, ih d ds refl, accepted_behind level d ds, valid_before level d slash ds [])

-- As many rounds as there are characters are enough.
parse_loop-split :
    (fuel : ℕ) (c : ℕ) (cs : List ℕ)
    → length (c ∷ cs) ≤ fuel
    → parse_loop fuel (c ∷ cs) ≡ outcome (c ∷ cs)
unfolding parse_loop
parse_loop-split zero c cs h = absurd (omega arith)
parse_loop-split (suc fuel) c cs h =
    parse_level-found (parse_loop fuel) (next_separator (c ∷ cs)).0 (next_separator (c ∷ cs)).1
      (λ d ds e.
        parse_loop-split fuel d ds (omega (arith, next_separator-shorter (c ∷ cs) (d ∷ ds) e)))
    ∙ ap outcome_of (sym (split-next_separator (c ∷ cs)))

-- A text that is not empty is parsed into its pieces between separators if the asserted rules
-- hold of them, and else an assertion fails; the loop never lacks a round.
pub parse_inplace-split :
    (c : ℕ) (cs : List ℕ)
    → parse_inplace (c ∷ cs)
      ≡ (if is_accepted (split (c ∷ cs)) then ok (split (c ∷ cs)) else err assertion_failed)
unfolding parse_inplace
parse_inplace-split c cs = parse_loop-split (length (c ∷ cs)) c cs (omega arith)

well_formed-accepted :
    (levels : List Level) → is_well_formed levels ≡ true → is_accepted levels ≡ true
well_formed-accepted [] e = refl
well_formed-accepted (level ∷ []) e = e
well_formed-accepted (level ∷ [] ∷ []) e = refl
well_formed-accepted (level ∷ (c ∷ cs) ∷ levels) e =
    ground (arith, well_formed-accepted ((c ∷ cs) ∷ levels))
well_formed-accepted (level ∷ [] ∷ next ∷ levels) e =
    ground (arith, well_formed-accepted ([] ∷ next ∷ levels))

-- A text that is not empty and keeps the rules for wildcards is parsed, and to_string gives it
-- back.
pub to_string-parse_inplace :
    (c : ℕ) (cs : List ℕ)
    → is_well_formed (split (c ∷ cs)) ≡ true
    → (parse_inplace (c ∷ cs) >>= to_string) ≡ ok (c ∷ cs)
to_string-parse_inplace c cs w =
    rw (parse_inplace-split c cs, well_formed-accepted (split (c ∷ cs)) w, to_string-split (c ∷ cs))

no_separator :
    (level : Level) → contains slash level ≡ false → split (level ++ slash ∷ []) ≡ level ∷ [] ∷ []
unfolding split contains
no_separator [] e = refl
no_separator (c ∷ cs) e = ground (arith, no_separator cs)

-- Any level without a separator is accepted in front of a separator at the end of a filter, with
-- wildcards in whatever place.
pub parse_inplace_before_separator :
    (level : Level)
    → contains slash level ≡ false
    → parse_inplace (level ++ slash ∷ []) ≡ ok (level ∷ [] ∷ [])
parse_inplace_before_separator [] e = rw (parse_inplace-split slash [], no_separator [] e)
parse_inplace_before_separator (c ∷ cs) e =
    rw (parse_inplace-split c (cs ++ slash ∷ []), no_separator (c ∷ cs) e)

plain_level :
    (level : Level) (rest : List ℕ)
    → contains plus level ≡ false
    → contains hash level ≡ false
    → is_valid_level level rest ≡ true
unfolding is_valid_level contains
plain_level [] rest hp hh = empty_is_valid rest
plain_level (c ∷ cs) rest hp hh = ground (arith, bytes_eq_sound (c ∷ cs) (hash ∷ []))

plain-well_formed :
    (levels : List Level)
    → All (λ level. contains plus level ≡ false) levels
    → All (λ level. contains hash level ≡ false) levels
    → is_well_formed levels ≡ true
plain-well_formed [] p h = refl
plain-well_formed (level ∷ []) p h = plain_level level [] p.0 h.0
plain-well_formed (level ∷ next ∷ levels) p h =
    rw (plain_level level (slash ∷ []) p.0 h.0) (plain-well_formed (next ∷ levels) p.1 h.1)

-- A topic name has no wildcard, and is cut at its separators.
pub parse_inplace_name :
    (c : ℕ) (cs : List ℕ)
    → contains plus (c ∷ cs) ≡ false
    → contains hash (c ∷ cs) ≡ false
    → parse_inplace (c ∷ cs) ≡ ok (split (c ∷ cs))
parse_inplace_name c cs hp hh = rw (
  parse_inplace-split c cs,
  well_formed-accepted (split (c ∷ cs)) (
      plain-well_formed (split (c ∷ cs)) (split-contains plus (c ∷ cs) hp)
        (split-contains hash (c ∷ cs) hh)),
)
