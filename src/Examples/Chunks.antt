-- ===== src/Examples/Chunks.antt =====
-- A stream that is the list of the pieces that are still to arrive.
use mqtt.Base.{
  ℕ, zero, suc, ◌+◌, ◌<◌, ◌≡◌, refl, sym, ap, ◌∙◌, List, [], ◌∷◌, ◌++◌, Option, none, some, ltb,
  if◌then◌else◌, length, take, drop, arith, append_assoc, Bool-cases, inl, inr, length-drop,
}
use mqtt.Wire.Stream.{Source, IsSource}

-- A read takes the next piece, or as much of it as it asks for.
abbrev read_piece : ℕ → List (List ℕ) → Option (List ℕ × List (List ℕ))
read_piece n [] = none
read_piece n (c ∷ cs) = if ltb n (length c) then some (take n c, drop n c ∷ cs) else some (c, cs)

abbrev pub pieces : Source (List (List ℕ))
pieces = record { read_some = read_piece }

abbrev pub all_bytes : List (List ℕ) → List ℕ
all_bytes [] = []
all_bytes (c ∷ cs) = c ++ all_bytes cs

abbrev pub reads : List (List ℕ) → ℕ
reads [] = 0
reads (c ∷ cs) = suc (length c) + reads cs

take-drop : (n : ℕ) (xs : List ℕ) → take n xs ++ drop n xs ≡ xs
take-drop zero xs = refl
take-drop (suc n) [] = refl
take-drop (suc n) (x ∷ xs) = ap (◌∷◌ x) (take-drop n xs)

pub in_order :
    (n : ℕ) (s s' : List (List ℕ)) (bs : List ℕ)
    → read_piece n s ≡ some (bs, s')
    → all_bytes s ≡ bs ++ all_bytes s'
in_order n [] s' bs e = cc e
in_order n (c ∷ cs) s' bs e = elim (Bool-cases (ltb n (length c))) [
  | inl t ↦
      let e1 : some (take n c, drop n c ∷ cs) ≡ some (bs, s') = rw t at e in
      let e2 : take n c ≡ bs = cc e1 in
      let e3 : drop n c ∷ cs ≡ s' = cc e1 in
      rw (sym e2, sym e3)
        (sym (
          sym (append_assoc (take n c) (drop n c) (all_bytes cs))
          ∙ ap (λ x. x ++ all_bytes cs) (take-drop n c)))
  | inr f ↦
      let e1 : some (c, cs) ≡ some (bs, s') = rw f at e in
      let e2 : c ≡ bs = cc e1 in let e3 : cs ≡ s' = cc e1 in rw (sym e2, sym e3) refl
]

pub ends_empty : (n : ℕ) (s : List (List ℕ)) → read_piece n s ≡ none → all_bytes s ≡ []
ends_empty n [] e = refl
ends_empty n (c ∷ cs) e = elim (Bool-cases (ltb n (length c))) [
  | inl t ↦ absurd (cc (rw t at e))
  | inr f ↦ absurd (cc (rw f at e))
]

pub finite :
    (n : ℕ) (s s' : List (List ℕ)) (bs : List ℕ)
    → 0 < n
    → read_piece n s ≡ some (bs, s')
    → reads s' < reads s
finite n [] s' bs h e = cc e
finite n (c ∷ cs) s' bs h e = elim (Bool-cases (ltb n (length c))) [
  | inl t ↦
      let e1 : some (take n c, drop n c ∷ cs) ≡ some (bs, s') = rw t at e in
      let e3 : drop n c ∷ cs ≡ s' = cc e1 in rw (sym e3) (ground (arith, length-drop n c))
  | inr f ↦
      let e1 : some (c, cs) ≡ some (bs, s') = rw f at e in
      let e3 : cs ≡ s' = cc e1 in rw (sym e3) (omega arith)
]

abbrev pub pieces-IsSource : IsSource pieces
pieces-IsSource = record {
  pending = all_bytes;
  reads_left = reads;
  in_order = in_order;
  ends_empty = ends_empty;
  finite = finite;
}
