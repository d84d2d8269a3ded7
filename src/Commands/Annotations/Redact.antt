-- ===== src/Commands/Annotations/Redact.antt =====
-- `RedactMasks` of internal/commands/annotations.go leaves no mask in the text.
use mirror_gha.Base.{
  if◌then◌else◌, Bool-cases, length, All, In, Text, lit, text_eq, text_eq_iff, has_prefix, contains,
  replace_from, replace_all, ℕ, zero, suc, ◌-◌, ◌≡◌, refl, sym, subst, ◌≢◌, ◌⊎◌, inl, inr, true,
  false, List, [], ◌∷◌, arith,
}
use mirror_gha.Commands.Annotations.{redact_masks}

abbrev stars : Text
stars = lit "***"

abbrev pub NoStar : Text → Type 0
NoStar v = ¬ In b'*' v

star_start : (v s : Text) → NoStar v → v ≢ [] → has_prefix (b'*' ∷ s) v ≡ false
unfolding has_prefix
star_start [] s free full = absurd (full refl)
star_start (b ∷ v) s free full = let away : b ≢ b'*' = λ e. free (inl e) in ground arith

not_prefix_of_nil : (v : Text) → v ≢ [] → has_prefix [] v ≡ false
unfolding has_prefix
not_prefix_of_nil [] full = absurd (full refl)
not_prefix_of_nil (b ∷ v) full = refl

module _ (old : Text) where
  replaced : (c : ℕ) (s : Text) → Text
  replaced c s = replace_from old stars 0 (c ∷ s)

  replaced_hit :
      (c : ℕ) (s : Text)
      → has_prefix (c ∷ s) old ≡ true
      → replaced c s ≡ b'*' ∷ b'*' ∷ b'*' ∷ replace_from old stars (length old - 1) s
  unfolding replaced replace_from
  replaced_hit c s h = rw h

  replaced_miss :
      (c : ℕ) (s : Text)
      → has_prefix (c ∷ s) old ≡ false
      → replaced c s ≡ c ∷ replace_from old stars 0 s
  unfolding replaced replace_from
  replaced_miss c s h = rw h

  -- What begins the replaced text began the text, if it has no star.
  has_prefix-of_replace :
      (s v : Text)
      → NoStar v
      → has_prefix (replace_from old stars 0 s) v ≡ true
      → has_prefix s v ≡ true
  unfolding has_prefix replaced
  has_prefix-of_replace s [] free h = refl
  has_prefix-of_replace [] (b ∷ v) free h = unfold replace_from in h
  has_prefix-of_replace (c ∷ s) (b ∷ v) free h = elim (Bool-cases (has_prefix (c ∷ s) old)) [
    | inl hit ↦
        let h' = subst (λ t. has_prefix t (b ∷ v) ≡ true) (replaced_hit c s hit) h in
        absurd (free (inl (ground arith)))
    | inr miss ↦
        let h' = subst (λ t. has_prefix t (b ∷ v) ≡ true) (replaced_miss c s miss) h in
        ground (arith, has_prefix-of_replace s v (λ m. free (inr m)))
  ]

  contains-of_replace :
      (skip : ℕ) (s v : Text)
      → NoStar v
      → v ≢ []
      → contains (replace_from old stars skip s) v ≡ true
      → contains s v ≡ true
  unfolding contains replaced
  contains-of_replace zero [] v free full h = unfold replace_from in h
  contains-of_replace (suc skip) [] v free full h = unfold replace_from in h
  contains-of_replace (suc skip) (c ∷ s) v free full h =
      let h' : contains s v ≡ true =
        contains-of_replace skip s v free full (unfold replace_from in h) in
      ground arith
  contains-of_replace zero (c ∷ s) v free full h = elim (Bool-cases (has_prefix (c ∷ s) old)) [
    | inl hit ↦
        let r = replace_from old stars (length old - 1) s in
        let h' : contains (b'*' ∷ b'*' ∷ b'*' ∷ r) v ≡ true =
          subst (λ t. contains t v ≡ true) (replaced_hit c s hit) h in
        let inside : contains r v ≡ true = ground (
          arith,
          star_start v (b'*' ∷ b'*' ∷ r) free full,
          star_start v (b'*' ∷ r) free full,
          star_start v r free full,
        ) in
        let h'' : contains s v ≡ true = contains-of_replace (length old - 1) s v free full inside in
        ground arith
    | inr miss ↦
        let r = replace_from old stars 0 s in
        let same = replaced_miss c s miss in
        let h' : contains (c ∷ r) v ≡ true = subst (λ t. contains t v ≡ true) same h in
        let at_start = λ (p : has_prefix (c ∷ r) v ≡ true).
          has_prefix-of_replace (c ∷ s) v free (subst (λ t. has_prefix t v ≡ true) (sym same) p) in
        elim (Bool-cases (has_prefix (c ∷ r) v)) [
          | inl p ↦ let q = at_start p in ground arith
          | inr p ↦
              let inside : contains r v ≡ true = ground arith in
              let h'' : contains s v ≡ true = contains-of_replace 0 s v free full inside in
              ground arith
        ]
  ]

  -- No occurrence of the replaced text itself is left.
  contains-replace_self :
      (skip : ℕ) (s : Text)
      → NoStar old
      → old ≢ []
      → contains (replace_from old stars skip s) old ≡ false
  unfolding contains replaced replace_from
  contains-replace_self zero [] free full = not_prefix_of_nil old full
  contains-replace_self (suc skip) [] free full = not_prefix_of_nil old full
  contains-replace_self (suc skip) (c ∷ s) free full = contains-replace_self skip s free full
  contains-replace_self zero (c ∷ s) free full = elim (Bool-cases (has_prefix (c ∷ s) old)) [
    | inl hit ↦
        let r = replace_from old stars (length old - 1) s in
        let inside = contains-replace_self (length old - 1) s free full in
        subst (λ t. contains t old ≡ false) (sym (replaced_hit c s hit))
          (ground (
            arith,
            star_start old (b'*' ∷ b'*' ∷ r) free full,
            star_start old (b'*' ∷ r) free full,
            star_start old r free full,
            inside,
          ))
    | inr miss ↦
        let r = replace_from old stars 0 s in
        let same = replaced_miss c s miss in
        let inside = contains-replace_self 0 s free full in
        subst (λ t. contains t old ≡ false) (sym same)
          (elim (Bool-cases (has_prefix (c ∷ r) old)) [
            | inl p ↦ cc (
                has_prefix-of_replace (c ∷ s) old free
                  (subst (λ t. has_prefix t old ≡ true) (sym same) p))
            | inr p ↦ ground arith
          ])
  ]

-- The text with one mask replaced has no mask that it did not have.
contains-redact_one :
    (text mask v : Text)
    → NoStar v
    → v ≢ []
    → contains text v ≡ false
    → contains (if text_eq mask [] then text else replace_all mask stars text) v ≡ false
unfolding replace_all
contains-redact_one text mask v free full h = elim (Bool-cases (text_eq mask [])) [
  | inl e ↦ rw e h
  | inr e ↦ rw e (elim (Bool-cases (contains (replace_from mask stars 0 text) v)) [
    | inl p ↦ cc (contains-of_replace mask 0 text v free full p)
    | inr p ↦ p
  ])
]

redact_masks-keeps :
    (masks : List Text) (text v : Text)
    → NoStar v
    → v ≢ []
    → contains text v ≡ false
    → contains (redact_masks text masks) v ≡ false
unfolding redact_masks
redact_masks-keeps [] text v free full h = h
redact_masks-keeps (mask ∷ masks) text v free full h =
    redact_masks-keeps masks _ v free full (contains-redact_one text mask v free full h)

-- If no mask holds a star, the redacted text holds none of the masks, but the empty one.
pub redact_masks_hides :
    (masks : List Text) (text : Text)
    → All NoStar masks
    → All (λ v. (v ≡ []) ⊎ (contains (redact_masks text masks) v ≡ false)) masks
unfolding redact_masks
redact_masks_hides [] text h = tt
redact_masks_hides (v ∷ masks) text h = (
  elim (Bool-cases (text_eq v [])) [
    | inl e ↦ inl ((text_eq_iff v []).0 e)
    | inr e ↦
        let full : v ≢ [] = λ q. cc ((text_eq_iff v []).1 q) in
        inr (redact_masks-keeps masks _ v h.0 full (rw e (hidden v full h.0)))
  ],
  redact_masks_hides masks _ h.1,
)
  where
    hidden : (v : Text) → v ≢ [] → NoStar v → contains (replace_all v stars text) v ≡ false
    hidden v full free = unfold replace_all in contains-replace_self v 0 text free full
