-- ===== src/TopicFilter.antt =====
-- include/mqtt5/topic_filter.hpp, with its assertions on. A filter is its levels, `levels_`, each a
-- string of characters.
pub mod Split
pub mod Parse
pub mod Matching
use mqtt.Base.{
  ℕ, zero, suc, ◌-◌, ◌+◌, List, [], ◌∷◌, ◌++◌, Bool, true, false, not, ◌&&◌, ◌||◌, Option, none,
  some, Result, ok, err, assertion_failed, out_of_fuel, undefined_read, ◌==◌, ltb, if◌then◌else◌,
  is_empty, length, bytes_eq, ◌>>=◌,
}

abbrev pub Level : Type 0
Level = List ℕ

abbrev pub slash : ℕ
slash = 0x2f

abbrev pub hash : ℕ
hash = 0x23

abbrev pub plus : ℕ
plus = 0x2b

abbrev pub dollar : ℕ
dollar = 0x24

-- `find(ch) != npos`
unfoldable pub contains : ℕ → List ℕ → Bool
contains ch [] = false
contains ch (c ∷ cs) = c == ch || contains ch cs

unfoldable pub is_valid_level : Level → List ℕ → Bool
unfolding contains
is_valid_level level rest_of_filter =
    if bytes_eq level (hash ∷ [])
    then is_empty rest_of_filter
    else if contains hash level
    then false
    else if contains plus level && ltb 1 (length level)
    then false
    else true

-- What precedes the next separator, and what follows it if there is one.
unfoldable pub next_separator : List ℕ → Level × Option (List ℕ)
next_separator [] = ([], none)
next_separator (c ∷ cs) =
    let (level, rest) = next_separator cs in if c == slash then ([], some cs) else (c ∷ level, rest)

-- What a round does with a level and the text behind its separator: `more` is the rest of the loop. A
-- separator at the end adds an empty level, and it is that level that the assertion looks at.
unfoldable pub parse_level :
    (List ℕ → Result (List Level)) → Level → Option (List ℕ) → Result (List Level)
unfolding is_valid_level
parse_level more level none =
    if is_valid_level level [] then ok (level ∷ []) else err assertion_failed
parse_level more level (some []) =
    if is_valid_level [] [] then ok (level ∷ [] ∷ []) else err assertion_failed
parse_level more level (some (d ∷ ds)) =
    if is_valid_level level (d ∷ ds)
    then more (d ∷ ds) >>= (λ levels. ok (level ∷ levels))
    else err assertion_failed

-- The loop of `parse_inplace`, with fuel for its rounds.
unfoldable pub parse_loop : ℕ → List ℕ → Result (List Level)
unfolding next_separator parse_level
parse_loop fuel [] = ok []
parse_loop zero (c ∷ cs) = err out_of_fuel
parse_loop (suc fuel) (c ∷ cs) =
    parse_level (parse_loop fuel) (next_separator (c ∷ cs)).0 (next_separator (c ∷ cs)).1

-- Also the constructors and `from_string`.
unfoldable pub parse_inplace : List ℕ → Result (List Level)
parse_inplace filter =
    if is_empty filter then err assertion_failed else parse_loop (length filter) filter

-- The levels behind the first, each with its separator.
unfoldable pub join_rest : List Level → List ℕ
join_rest [] = []
join_rest (level ∷ levels) = slash ∷ (level ++ join_rest levels)

unfoldable pub to_string : List Level → Result (List ℕ)
unfolding join_rest
to_string [] = err assertion_failed
to_string (level ∷ levels) = ok (level ++ join_rest levels)

-- The lambda of `matches`, on the levels from `i` on. Past the end of a vector its `operator[]` is
-- undefined.
unfoldable pub matches_n_levels : ℕ → List Level → List Level → Result Bool
matches_n_levels zero levels names = ok true
matches_n_levels (suc n) [] names = err undefined_read
matches_n_levels (suc n) (level ∷ levels) [] =
    if is_empty levels && bytes_eq level (hash ∷ [])
    then ok true
    else if bytes_eq level (plus ∷ [])
    then matches_n_levels n levels []
    else err undefined_read
matches_n_levels (suc n) (level ∷ levels) (name ∷ names) =
    let rest = matches_n_levels n levels names in
    if is_empty levels && bytes_eq level (hash ∷ [])
    then ok true
    else if not (bytes_eq level (plus ∷ [])) && not (bytes_eq level name)
    then ok false
    else rest

-- `levels_.back() == "#"`
unfoldable pub back_is_hash : List Level → Result Bool
back_is_hash [] = err undefined_read
back_is_hash (level ∷ []) = ok (bytes_eq level (hash ∷ []))
back_is_hash (level ∷ next ∷ levels) = back_is_hash (next ∷ levels)

unfoldable pub matches_levels : List Level → List Level → Result Bool
matches_levels levels names =
    if ltb (length names) (length levels)
    then (if not (length names == length levels - 1)
        then ok false
        else back_is_hash levels
          >>= (λ h. if not h then ok false else matches_n_levels (length names) levels names))
    else if ltb (length levels) (length names)
    then back_is_hash levels
      >>= (λ h. if h then matches_n_levels (length levels - 1) levels names else ok false)
    else matches_n_levels (length levels) levels names

unfoldable pub starts_with_dollar : List ℕ → Bool
starts_with_dollar [] = false
starts_with_dollar (c ∷ cs) = c == dollar

-- `levels_.front()[0] != '$'`. The character behind the end of a string is '\0'.
unfoldable pub front_is_no_dollar : List Level → Result Bool
unfolding starts_with_dollar
front_is_no_dollar [] = err undefined_read
front_is_no_dollar (level ∷ levels) = ok (not (starts_with_dollar level))

unfoldable pub compare_names : List Level → List ℕ → Result Bool
unfolding parse_inplace matches_levels
compare_names levels topic_name =
    parse_inplace topic_name >>= (λ names. matches_levels levels names)

unfoldable pub matches : List Level → List ℕ → Result Bool
unfolding front_is_no_dollar compare_names contains
matches levels topic_name =
    if contains plus topic_name || contains hash topic_name
    then err assertion_failed
    else if starts_with_dollar topic_name
    then front_is_no_dollar levels
      >>= (λ other. if other then ok false else compare_names levels topic_name)
    else compare_names levels topic_name

-- `operator==`
unfoldable pub levels_eq : List Level → List Level → Bool
levels_eq [] [] = true
levels_eq [] (r ∷ rs) = false
levels_eq (l ∷ ls) [] = false
levels_eq (l ∷ ls) (r ∷ rs) = bytes_eq l r && levels_eq ls rs
