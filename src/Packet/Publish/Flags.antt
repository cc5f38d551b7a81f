-- ===== src/Packet/Publish/Flags.antt =====
-- The flags of a PUBLISH packet: each setter against every getter, over all bytes.
use mqtt.Base.{
  ℕ, zero, suc, ◌<◌, ◌≡◌, refl, Bool, true, false, ◌&&◌, arith, ◌==◌, if◌then◌else◌, not,
  Bool-cases, inl, inr,
}
use mqtt.Packet.Publish.{
  with_duplicate, has_duplicate, with_quality_of_service, get_quality_of_service, with_retain,
  has_retain,
}

same : Bool → Bool → Bool
same true b = b
same false b = not b

same_sound : (a b : Bool) → same a b ≡ true → a ≡ b
unfolding same
same_sound true true h = refl
same_sound true false h = cc
same_sound false true h = cc
same_sound false false h = refl

-- A test of every number under a bound, by evaluation.
module _ (test : ℕ → Bool) where
  passes_under : ℕ → Bool
  passes_under zero = true
  passes_under (suc bound) = passes_under bound && test bound

  passes_under-at : (bound i : ℕ) → i < bound → passes_under bound ≡ true → test i ≡ true
  unfolding passes_under
  passes_under-at zero i less e = absurd (omega arith)
  passes_under-at (suc bound) i less e = elim (Bool-cases (i == bound)) [
    | inl t ↦ let q : i ≡ bound = ground arith in rw q (ground arith)
    | inr f ↦ passes_under-at bound i (ground arith) (ground arith)
  ]

-- What a setter should leave: the three flags.
reads : ℕ → Bool → ℕ → Bool → Bool
unfolding same has_duplicate get_quality_of_service has_retain
reads flags dup qos retain =
    same (has_duplicate flags) dup
    && (get_quality_of_service flags == qos && same (has_retain flags) retain)

reads_sound :
    (flags : ℕ) (dup : Bool) (qos : ℕ) (retain : Bool)
    → reads flags dup qos retain ≡ true
    → (has_duplicate flags ≡ dup)
      × (get_quality_of_service flags ≡ qos)
      × (has_retain flags ≡ retain)
unfolding reads
reads_sound flags dup qos retain h =
    ground (arith, same_sound (has_duplicate flags) dup, same_sound (has_retain flags) retain)

duplicate_table :
    (dup : Bool)
    → passes_under
        (λ f. reads (with_duplicate dup f) dup (get_quality_of_service f) (has_retain f))
        256
      ≡ true
unfolding passes_under reads with_duplicate
duplicate_table true = refl
duplicate_table false = refl

-- Setting the duplicate flag in the flags of a PUBLISH sets it and keeps the quality of service
-- and the retain flag.
flags-with_duplicate :
    (dup : Bool) (f : ℕ)
    → f < 256
    → (has_duplicate (with_duplicate dup f) ≡ dup)
      × (get_quality_of_service (with_duplicate dup f) ≡ get_quality_of_service f)
      × (has_retain (with_duplicate dup f) ≡ has_retain f)
flags-with_duplicate dup f h = reads_sound _ _ _ _ (
    passes_under-at
      (λ f. reads (with_duplicate dup f) dup (get_quality_of_service f) (has_retain f)) 256 f h
      (duplicate_table dup))

retain_table :
    (retain : Bool)
    → passes_under
        (λ f. reads (with_retain retain f) (has_duplicate f) (get_quality_of_service f) retain)
        256
      ≡ true
unfolding passes_under reads with_retain
retain_table true = refl
retain_table false = refl

pub flags-with_retain :
    (retain : Bool) (f : ℕ)
    → f < 256
    → (has_duplicate (with_retain retain f) ≡ has_duplicate f)
      × (get_quality_of_service (with_retain retain f) ≡ get_quality_of_service f)
      × (has_retain (with_retain retain f) ≡ retain)
flags-with_retain retain f h = reads_sound _ _ _ _ (
    passes_under-at
      (λ f. reads (with_retain retain f) (has_duplicate f) (get_quality_of_service f) retain) 256 f
      h (retain_table retain))

kept_duplicate : ℕ → ℕ → Bool
unfolding has_duplicate
kept_duplicate qos f = if qos == 0 then false else has_duplicate f

quality_table :
    passes_under
      (λ qos.
        passes_under
          (λ f. reads (with_quality_of_service qos f) (kept_duplicate qos f) qos (has_retain f))
          256)
      4
    ≡ true
unfolding passes_under reads with_quality_of_service with_duplicate kept_duplicate
quality_table = refl

-- Setting a quality of service (below 4) in the flags of a PUBLISH sets it, keeps the retain
-- flag, and keeps the duplicate flag but for quality 0, where it is cleared.
pub flags-with_quality_of_service :
    (qos f : ℕ)
    → qos < 4
    → f < 256
    → (has_duplicate (with_quality_of_service qos f)
        ≡ (if qos == 0 then false else has_duplicate f))
      × (get_quality_of_service (with_quality_of_service qos f) ≡ qos)
      × (has_retain (with_quality_of_service qos f) ≡ has_retain f)
unfolding kept_duplicate
flags-with_quality_of_service qos f hq hf = reads_sound _ (kept_duplicate qos f) _ _ (
    passes_under-at
      (λ f. reads (with_quality_of_service qos f) (kept_duplicate qos f) qos (has_retain f)) 256 f
      hf
      (passes_under-at
        (λ qos.
          passes_under
            (λ f. reads (with_quality_of_service qos f) (kept_duplicate qos f) qos (has_retain f))
            256)
        4 qos hq quality_table))

-- Setting the duplicate flag in the flags of a PUBLISH sets it and keeps the quality of service
-- and the retain flag; setting a quality of service (below 4) sets it, keeps the retain flag,
-- and keeps the duplicate flag but for quality 0, where it is cleared.
pub flags-setters :
    (dup : Bool) (qos f : ℕ)
    → qos < 4
    → f < 256
    → ((has_duplicate (with_duplicate dup f) ≡ dup)
        × (get_quality_of_service (with_duplicate dup f) ≡ get_quality_of_service f)
        × (has_retain (with_duplicate dup f) ≡ has_retain f))
      × ((has_duplicate (with_quality_of_service qos f)
            ≡ (if qos == 0 then false else has_duplicate f))
          × (get_quality_of_service (with_quality_of_service qos f) ≡ qos)
          × (has_retain (with_quality_of_service qos f) ≡ has_retain f))
flags-setters dup qos f hq hf =
    (flags-with_duplicate dup f hf, flags-with_quality_of_service qos f hq hf)
