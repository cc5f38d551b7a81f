-- ===== src/Client/Find.antt =====
-- `std::find_if` on the client's vectors by packet identifier, and `erase` of what it finds.
use mqtt.Base.{
  ℕ, ◌≡◌, ◌≢◌, inl, inr, refl, ap, List, [], ◌∷◌, ◌++◌, Option, none, some, ◌==◌, if◌then◌else◌,
  arith, All, Bool-cases, sym,
}

module _ {ℓ} {A : Type ℓ} (key : A → ℕ) where
  unfoldable pub find : ℕ → List A → Option A
  find id [] = none
  find id (x ∷ xs) = if key x == id then some x else find id xs

  unfoldable pub erase : ℕ → List A → List A
  erase id [] = []
  erase id (x ∷ xs) = let rest = erase id xs in if key x == id then xs else x ∷ rest

  -- An assignment through the iterator.
  unfoldable pub assign : (A → A) → ℕ → List A → List A
  assign f id [] = []
  assign f id (x ∷ xs) = let rest = assign f id xs in if key x == id then f x ∷ xs else x ∷ rest

  -- What is found is one of the elements, with the key, behind others without it; and that is where
  -- it is erased.
  pub find-split :
      (id : ℕ) (xs : List A) (x : A)
      → find id xs ≡ some x
      → (front back : List A) × (xs ≡ front ++ x ∷ back)
        × (erase id xs ≡ front ++ back)
        × (key x ≡ id)
        × All (λ y. key y ≢ id) front
  unfolding find erase
  find-split id [] x e = cc e
  find-split id (y ∷ ys) x e = elim (Bool-cases (key y == id)) [
    | inl t ↦
        let e1 : some y ≡ some x = rw t at e in
        let e2 : y ≡ x = cc e1 in
        ([], ys, ap (λ z. z ∷ ys) e2, simp t, rw (sym e2) (ground arith), tt)
    | inr f ↦
        let e1 : find id ys ≡ some x = rw f at e in
        let (front, back, p, q, k, a) = find-split id ys x e1 in
        (y ∷ front, back, ap (◌∷◌ y) p, simp f (ap (◌∷◌ y) q), k, (ground arith, a))
  ]

  -- An element of another key is found after an erase if it was before.
  pub find-erase_other :
      (id other : ℕ) (xs : List A) → id ≢ other → find other (erase id xs) ≡ find other xs
  unfolding find erase
  find-erase_other id other [] ne = refl
  find-erase_other id other (x ∷ xs) ne = ground (arith, find-erase_other id other xs ne)

  -- The keys are distinct.
  abbrev pub IsDistinct : List A → Type ℓ
  IsDistinct [] = Unit {ℓ}
  IsDistinct (x ∷ xs) = (find (key x) xs ≡ none) × IsDistinct xs

  pub find-erase : (id : ℕ) (xs : List A) → IsDistinct xs → find id (erase id xs) ≡ none
  unfolding find erase
  find-erase id [] d = refl
  find-erase id (x ∷ xs) d = elim (Bool-cases (key x == id)) [
    | inl t ↦ let k : key x ≡ id = ground arith in simp t (rw k at d.0)
    | inr f ↦ simp f (find-erase id xs d.1)
  ]

  find-append :
      (id : ℕ) (xs : List A) (y : A)
      → find id xs ≡ none
      → key y ≢ id
      → find id (xs ++ y ∷ []) ≡ none
  unfolding find
  find-append id [] y e ne = ground arith
  find-append id (x ∷ xs) y e ne = elim (Bool-cases (key x == id)) [
    | inl t ↦ absurd (ground arith)
    | inr f ↦ simp f (find-append id xs y (rw f at e) ne)
  ]

  pub find-append_new :
      (xs : List A) (y : A) → find (key y) xs ≡ none → find (key y) (xs ++ y ∷ []) ≡ some y
  unfolding find
  find-append_new [] y e = ground arith
  find-append_new (x ∷ xs) y e = elim (Bool-cases (key x == key y)) [
    | inl t ↦ absurd (ground arith)
    | inr f ↦ simp f (find-append_new xs y (rw f at e))
  ]

  erase-IsDistinct_lem :
      (id other : ℕ) (xs : List A) → find other xs ≡ none → find other (erase id xs) ≡ none
  unfolding find erase
  erase-IsDistinct_lem id other [] e = refl
  erase-IsDistinct_lem id other (x ∷ xs) e = ground (arith, erase-IsDistinct_lem id other xs)

  pub erase-IsDistinct : (id : ℕ) (xs : List A) → IsDistinct xs → IsDistinct (erase id xs)
  unfolding erase
  erase-IsDistinct id [] d = tt
  erase-IsDistinct id (x ∷ xs) d = elim (Bool-cases (key x == id)) [
    | inl t ↦ simp t d.1
    | inr f ↦ simp f (erase-IsDistinct_lem id (key x) xs d.0, erase-IsDistinct id xs d.1)
  ]

  pub append-IsDistinct :
      (xs : List A) (y : A) → IsDistinct xs → find (key y) xs ≡ none → IsDistinct (xs ++ y ∷ [])
  unfolding find
  append-IsDistinct [] y d e = (refl, tt)
  append-IsDistinct (x ∷ xs) y d e = elim (Bool-cases (key x == key y)) [
    | inl t ↦ absurd (ground arith)
    | inr f ↦ (find-append (key x) xs y d.0 (ground arith), append-IsDistinct xs y d.1 (rw f at e))
  ]

module _ {ℓ κ} {A : Type ℓ} (key : A → ℕ) (P : A → Type κ) where
  pub All-find : (id : ℕ) (xs : List A) (x : A) → All P xs → find key id xs ≡ some x → P x
  unfolding find
  All-find id [] x h e = cc e
  All-find id (y ∷ ys) x h e = elim (Bool-cases (key y == id)) [
    | inl t ↦ let e1 : some y ≡ some x = rw t at e in let e2 : y ≡ x = cc e1 in rw (sym e2) h.0
    | inr f ↦ All-find id ys x h.1 (rw f at e)
  ]

  pub All-erase : (id : ℕ) (xs : List A) → All P xs → All P (erase key id xs)
  unfolding erase
  All-erase id [] h = tt
  All-erase id (x ∷ xs) h = elim (Bool-cases (key x == id)) [
    | inl t ↦ simp t h.1
    | inr f ↦ simp f (h.0, All-erase id xs h.1)
  ]

  -- An assignment keeps a property that it keeps of the element found.
  pub All-assign :
      (f : A → A) (id : ℕ) (xs : List A)
      → All P xs
      → ((x : A) → find key id xs ≡ some x → P x → P (f x))
      → All P (assign key f id xs)
  unfolding assign find
  All-assign f id [] h keeps = tt
  All-assign f id (x ∷ xs) h keeps = elim (Bool-cases (key x == id)) [
    | inl t ↦ simp t (keeps x (simp t) h.0, h.1)
    | inr e ↦ simp e (h.0, All-assign f id xs h.1 (λ y q. keeps y (simp e q)))
  ]

module _ {ℓ} {A : Type ℓ} (key : A → ℕ) where
  pub erase-append_new :
      (xs : List A) (y : A) → find key (key y) xs ≡ none → erase key (key y) (xs ++ y ∷ []) ≡ xs
  unfolding find erase
  erase-append_new [] y e = ground arith
  erase-append_new (x ∷ xs) y e = elim (Bool-cases (key x == key y)) [
    | inl t ↦ absurd (ground arith)
    | inr f ↦ simp f (ap (◌∷◌ x) (erase-append_new xs y (rw f at e)))
  ]

  pub assign-append_new :
      (f : A → A) (xs : List A) (y : A)
      → find key (key y) xs ≡ none
      → assign key f (key y) (xs ++ y ∷ []) ≡ xs ++ f y ∷ []
  unfolding find assign
  assign-append_new f [] y e = ground arith
  assign-append_new f (x ∷ xs) y e = elim (Bool-cases (key x == key y)) [
    | inl t ↦ absurd (ground arith)
    | inr g ↦ simp g (ap (◌∷◌ x) (assign-append_new f xs y (rw g at e)))
  ]
