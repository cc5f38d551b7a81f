-- ===== src/TopicFilter/Split.antt =====
-- A topic cut at its separators, independently of `parse_inplace`, and put together by `to_string`.
use mqtt.Base.{
  ℕ, ◌<◌, ◌≡◌, refl, ap, List, [], ◌∷◌, ◌++◌, false, Option, none, some, ok, ◌==◌, if◌then◌else◌,
  length, arith, Bool-cases, inl, inr, sym, All,
}
use mqtt.TopicFilter.{Level, slash, next_separator, join_rest, to_string, contains}

-- A character at the front of the first level.
abbrev pub extend : ℕ → List Level → List Level
extend c [] = (c ∷ []) ∷ []
extend c (level ∷ levels) = (c ∷ level) ∷ levels

unfoldable pub split : List ℕ → List Level
split [] = [] ∷ []
split (c ∷ cs) = if c == slash then [] ∷ split cs else extend c (split cs)

abbrev pub split_found : Level → Option (List ℕ) → List Level
split_found level none = level ∷ []
split_found level (some rest) = level ∷ split rest

extended :
    (c : ℕ) (level : Level) (found : Option (List ℕ))
    → extend c (split_found level found) ≡ split_found (c ∷ level) found
extended c level none = refl
extended c level (some rest) = refl

pub split-next_separator :
    (s : List ℕ) → split s ≡ split_found (next_separator s).0 (next_separator s).1
unfolding split next_separator
split-next_separator [] = refl
split-next_separator (c ∷ cs) = elim (Bool-cases (c == slash)) [
  | inl e ↦ simp e
  | inr e ↦
      simp (e, split-next_separator cs) (extended c (next_separator cs).0 (next_separator cs).1)
]

-- What follows a separator is shorter.
pub next_separator-shorter :
    (s rest : List ℕ) → (next_separator s).1 ≡ some rest → length rest < length s
unfolding next_separator
next_separator-shorter [] rest e = cc e
next_separator-shorter (c ∷ cs) rest e = elim (Bool-cases (c == slash)) [
  | inl t ↦
      let e1 : some cs ≡ some rest = rw t at e in
      let e2 : cs ≡ rest = cc e1 in rw (sym e2) (omega arith)
  | inr f ↦
      let e1 : (next_separator cs).1 ≡ some rest = rw f at e in
      omega (arith, next_separator-shorter cs rest e1)
]

abbrev join : List Level → List ℕ
join [] = []
join (level ∷ levels) = level ++ join_rest levels

join-extend : (c : ℕ) (levels : List Level) → join (extend c levels) ≡ c ∷ join levels
unfolding join_rest
join-extend c [] = refl
join-extend c (level ∷ levels) = refl

whole : (c : ℕ) (levels : List Level) → join_rest (extend c levels) ≡ slash ∷ join (extend c levels)
unfolding join_rest
whole c [] = refl
whole c (level ∷ levels) = refl

join_rest-split : (s : List ℕ) → join_rest (split s) ≡ slash ∷ join (split s)
unfolding join_rest split
join_rest-split [] = refl
join_rest-split (c ∷ cs) = elim (Bool-cases (c == slash)) [
  | inl e ↦ simp e
  | inr e ↦ simp e (whole c (split cs))
]

join-split : (s : List ℕ) → join (split s) ≡ s
unfolding split
join-split [] = unfold join_rest in refl
join-split (c ∷ cs) = elim (Bool-cases (c == slash)) [
  | inl e ↦ ground (arith, join_rest-split cs, join-split cs)
  | inr e ↦ ground (arith, join-extend c (split cs), join-split cs)
]

-- There is one level at least.
pub split-cons : (s : List ℕ) → (level : Level) × (levels : List Level) × (split s ≡ level ∷ levels)
unfolding split
split-cons [] = ([], [], refl)
split-cons (c ∷ cs) =
    let (level, levels, e) = split-cons cs in
    elim (Bool-cases (c == slash)) [
      | inl t ↦ ([], split cs, simp t)
      | inr f ↦ (c ∷ level, levels, simp (f, e))
    ]

-- The levels, put together, are the topic.
pub to_string-split : (s : List ℕ) → to_string (split s) ≡ ok s
unfolding to_string
to_string-split s =
    let (level, levels, e) = split-cons s in
    let j : join (level ∷ levels) ≡ s = rw e at (join-split s) in rw e (ap ok j)

-- A text with no character of a kind has no level with one.
pub split-contains :
    (ch : ℕ) (s : List ℕ)
    → contains ch s ≡ false
    → All (λ level. contains ch level ≡ false) (split s)
unfolding contains split
split-contains ch [] e = (refl, tt)
split-contains ch (c ∷ cs) e =
    let (level, levels, q) = split-cons cs in
    let ih = split-contains ch cs (ground arith) in
    let ih' : All (λ level. contains ch level ≡ false) (level ∷ levels) = rw q at ih in
    elim (Bool-cases (c == slash)) [
      | inl t ↦ simp t (refl, ih)
      | inr f ↦ simp (f, q) (ground (arith, ih'.0), ih'.1)
    ]
