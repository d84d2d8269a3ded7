-- ===== src/Credentials/Registry.antt =====
-- What internal/engine/credentials.go accepts, and the registry that it picks.
use mirror_gha.Base.{
  ◌==◌, if◌then◌else◌, Bool-cases, Option-cases, length, any, In, Text, lit, text_eq, text_eq_iff,
  has_prefix, Map, lookup, >>=-eq-ok, ok-injective, cut, ℕ, ◌≡◌, refl, sym, ap, ◌∙◌, subst, ◌≢◌,
  ◌↔◌, ◌⊎◌, inl, inr, Bool, true, false, ◌||◌, Option, none, some, [], ◌∷◌, ◌++◌, arith, ok,
}
use mirror_gha.Credentials.{field_value, validate_credentials, registry_host_for, docker_hub}

field_value_iff : (o : Option Text) (v : Text) → (field_value o ≡ ok v) ↔ ((o ≡ some v) × (v ≢ []))
unfolding field_value
field_value_iff none v = ((λ h. cc h), (λ h. cc (h.0)))
field_value_iff (some w) v = elim (Bool-cases (text_eq w [])) [
  | inl e ↦
      let nil = (text_eq_iff w []).0 e in
      (
        (λ h. let h' = rw e at h in cc h'),
        (λ h. let same : w ≡ v = cc (h.0) in absurd (h.1 (sym same ∙ nil))),
      )
  | inr e ↦ (
    (λ h.
        let h' = ok-injective (rw e at h) in
        (ap some h', (λ q. cc (e, (text_eq_iff w []).1 (h' ∙ q))))),
    (λ h. rw e (let same : w ≡ v = cc (h.0) in ap ok same)),
  )
]

-- Both keys are bound to a value that is not empty.
abbrev pub Complete : Map Text → Text → Text → Type 0
Complete creds username password =
    (length creds ≡ 2)
    × ((lookup (lit "username") creds ≡ some username) × (username ≢ []))
    × ((lookup (lit "password") creds ≡ some password) × (password ≢ []))

-- A map is accepted just if it has two keys, the user name and the password, with values that are
-- not empty, and then these are the result.
pub validate_credentials_iff :
    (creds : Map Text) (username password : Text)
    → (validate_credentials (some creds) ≡ ok (username, password))
      ↔ Complete creds username password
unfolding validate_credentials
validate_credentials_iff creds username password = (
  (λ h. elim (Bool-cases (length creds == 2)) [
    | inl e ↦
        let (u, hu, h') = >>=-eq-ok (field_value (lookup (lit "username") creds)) _ (rw e at h) in
        let (p, hp, h'') = >>=-eq-ok (field_value (lookup (lit "password") creds)) _ h' in
        let same : u ≡ username = cc h'' in
        let same' : p ≡ password = cc h'' in
        (
          ground arith,
          (field_value_iff _ username).0 (hu ∙ ap ok same),
          (field_value_iff _ password).0 (hp ∙ ap ok same'),
        )
    | inr e ↦ let h' = rw e at h in cc h'
  ]),
  (λ (h : Complete creds username password).
      let (n, hu, hp) = h in
      let two : length creds == 2 ≡ true = ground arith in
      let u = (field_value_iff (lookup (lit "username") creds) username).1 hu in
      let p = (field_value_iff (lookup (lit "password") creds) password).1 hp in
      rw (two, u, p) refl),
)

has_prefix-one : (c x : ℕ) (s : Text) → has_prefix (x ∷ s) (c ∷ []) ≡ (x == c)
unfolding has_prefix
has_prefix-one c x s = ground arith

cut-cons :
    (c x : ℕ) (s : Text)
    → cut (c ∷ []) (x ∷ s) ≡ (
        if x == c then some ([], s) else elim (cut (c ∷ []) s) [
          | none ↦ none
          | some (before, after) ↦ some (x ∷ before, after)
        ])
unfolding cut
cut-cons c x s = rw (has_prefix-one c x s) refl

cut-nil : (c : ℕ) → cut (c ∷ []) [] ≡ none
unfolding cut
cut-nil c = refl

cut-absent : (c : ℕ) (s : Text) → cut (c ∷ []) s ≡ none → ¬ In c s
cut-absent c [] h m = m
cut-absent c (x ∷ s) h m =
    let step = sym (cut-cons c x s) ∙ h in
    elim (Bool-cases (x == c)) [
      | inl e ↦ let h' = rw e at step in cc h'
      | inr e ↦ elim (Option-cases (cut (c ∷ []) s)) [
        | inl q ↦ elim m [ inl p ↦ ground arith | inr m' ↦ cut-absent c s q m' ]
        | inr (r, q) ↦ let h' = rw (e, q) at step in cc h'
      ]
    ]

-- What stands before and after the first `c` makes the text again, and the first part has no `c`.
cut_lem :
    (c : ℕ) (s before after : Text)
    → cut (c ∷ []) s ≡ some (before, after)
    → (s ≡ before ++ c ∷ after) × (¬ In c before)
cut_lem c [] before after h = let h' = cut-nil c in cc (h, h')
cut_lem c (x ∷ s) before after h =
    let step = sym (cut-cons c x s) ∙ h in
    elim (Bool-cases (x == c)) [
      | inl e ↦
          let h' = rw e at step in
          let nil : before ≡ [] = cc h' in
          let rest : after ≡ s = cc h' in rw (nil, rest) (ground arith, λ m. m)
      | inr e ↦ elim (Option-cases (cut (c ∷ []) s)) [
        | inl q ↦ let h' = rw (e, q) at step in cc h'
        | inr ((b, a), q) ↦
            let h' = rw (e, q) at step in
            let front : before ≡ x ∷ b = cc h' in
            let rest : after ≡ a = cc h' in
            let (same, free) = cut_lem c s b a q in
            rw (front, rest)
              (ap (λ t. x ∷ t) same, λ m. elim m [ inl p ↦ ground arith | inr m' ↦ free m' ])
      ]
    ]

-- A text that has a point or a colon, or is localhost.
abbrev looks_like_host : Text → Bool
looks_like_host s = any (λ c. c == b'.' || c == b':') s || text_eq s (lit "localhost")

-- The image's text before its first slash.
abbrev Begins : Text → Text → Type 0
Begins image first = (rest : Text) × (image ≡ first ++ b'/' ∷ rest) × (¬ In b'/' first)

-- The registry of an image is the text before its first slash, where that has a point or a colon or
-- is localhost; it is Docker Hub where there is no slash, or that text is none of these.
registry_host_for_lem :
    (image : Text)
    → (Begins image (registry_host_for image) × (looks_like_host (registry_host_for image) ≡ true))
      ⊎ ((registry_host_for image ≡ docker_hub)
          × ((¬ In b'/' image)
              ⊎ ((first : Text) × (Begins image first × (looks_like_host first ≡ false)))))
unfolding registry_host_for
registry_host_for_lem image = elim (Option-cases (cut (lit "/") image)) [
  | inl q ↦ inr (rw (q, registry_host_for) refl, inl (cut-absent b'/' image q))
  | inr ((first, rest), q) ↦
      let begins : Begins image first =
        (let (same, free) = cut_lem b'/' image first rest q in (rest, same, free)) in
      elim (Bool-cases (looks_like_host first)) [
        | inl e ↦
            let host : registry_host_for image ≡ first = rw (q, e, registry_host_for) refl in
            inl (subst (λ h. Begins image h × (looks_like_host h ≡ true)) (sym host) (begins, e))
        | inr e ↦ inr (rw (q, e, registry_host_for) refl, inr (first, (begins, e)))
      ]
]
