-- ===== src/Actions/Resolve/Parts.antt =====
-- What the references that `ResolveUsesRef` of internal/actions/resolve.go accepts are made of.
use mirror_gha.Base.{
  ◌==◌, Bool-cases, Option-cases, &&-eq_true, length, drop, All, In, Text, lit, text_eq,
  text_eq_iff, has_prefix, ok-injective, split_rest, split, join, cut_last, trim_prefix, Free,
  split_rest-Free, ℕ, ◌≡◌, refl, sym, ap, ◌∙◌, subst, ◌≢◌, inl, inr, true, ◌||◌, Option, none, some,
  List, [], ◌∷◌, ◌++◌, arith, ok,
}
use mirror_gha.Actions.Resolve.{
  ActionRef, of_parts, docker_scheme, docker_ref, local_ref, remote_ref, resolve_remote,
  resolve_uses_ref,
}

module _ (sep : ℕ) where
  cut_last-absent : (s : Text) → cut_last sep s ≡ none → ¬ In sep s
  unfolding cut_last
  cut_last-absent [] h m = m
  cut_last-absent (x ∷ s) h m = elim (Option-cases (cut_last sep s)) [
    | inl e ↦
        let h' = rw e at h in elim m [ inl p ↦ ground arith | inr m' ↦ cut_last-absent s e m' ]
    | inr (q, e) ↦ let h' = rw e at h in cc h'
  ]

  cut_last_lem :
      (s before after : Text)
      → cut_last sep s ≡ some (before, after)
      → (s ≡ before ++ sep ∷ after) × (¬ In sep after)
  unfolding cut_last
  cut_last_lem [] before after h = cc h
  cut_last_lem (x ∷ s) before after h = elim (Option-cases (cut_last sep s)) [
    | inl e ↦
        let h' = rw e at h in
        elim (Bool-cases (x == sep)) [
          | inl hit ↦
              let h'' = rw hit at h' in
              let nil : before ≡ [] = cc h'' in
              let rest : after ≡ s = cc h'' in rw (nil, rest) (ground arith, cut_last-absent s e)
          | inr miss ↦ let h'' = rw miss at h' in cc h''
        ]
    | inr ((b, a), e) ↦
        let h' = rw e at h in
        let (same, free) = cut_last_lem s b a e in
        let front : before ≡ x ∷ b = cc h' in
        let rest : after ≡ a = cc h' in rw (front, rest) (ap (λ t. x ∷ t) same, free)
  ]

  join-cons :
      (c : ℕ) (p : Text) (ps : List Text)
      → join (sep ∷ []) ((c ∷ p) ∷ ps) ≡ c ∷ join (sep ∷ []) (p ∷ ps)
  unfolding join
  join-cons c p [] = refl
  join-cons c p (q ∷ ps) = refl

  -- Joined, they are the text again.
  join-split : (s : Text) → join (sep ∷ []) (split sep s) ≡ s
  unfolding split_rest split join
  join-split [] = refl
  join-split (c ∷ s) = elim (Bool-cases (c == sep)) [
    | inl e ↦ (rw e (ground (arith, join-split s)))
    | inr e ↦ rw e (join-cons c _ _ ∙ ap (λ t. c ∷ t) (join-split s))
  ]

has_prefix_lem : (s p : Text) → has_prefix s p ≡ true → s ≡ p ++ drop (length p) s
unfolding has_prefix
has_prefix_lem s [] h = refl
has_prefix_lem [] (b ∷ p) h = cc h
has_prefix_lem (a ∷ s) (b ∷ p) h =
    let (e, h') = &&-eq_true (a == b) _ h in ground (arith, has_prefix_lem s p h')

-- An owner's or a repository's name.
abbrev pub Name : Text → Type 0
Name s = (s ≢ []) × (¬ In b'/' s)

-- How `uses` spells the reference.
pub data Spells (uses : Text) : ActionRef → Type 0 where
  image : (name : Text) → uses ≡ docker_scheme ++ name → Spells uses (docker_ref name)
  path :
      has_prefix uses (lit "./") || has_prefix uses (lit "../") ≡ true
      → Spells uses (local_ref uses)
  remote :
      (owner repo ref : Text)
      → Name owner
      → Name repo
      → (ref ≢ []) × (¬ In b'@' ref)
      → uses ≡ (owner ++ b'/' ∷ repo) ++ b'@' ∷ ref
      → Spells uses (remote_ref owner repo [] ref)
  remote_subpath :
      (owner repo subpath ref : Text)
      → Name owner
      → Name repo
      → (ref ≢ []) × (¬ In b'@' ref)
      → uses ≡ (owner ++ b'/' ∷ (repo ++ b'/' ∷ subpath)) ++ b'@' ∷ ref
      → Spells uses (remote_ref owner repo subpath ref)

of_parts_lem :
    (uses ref : Text) (parts : List Text) {r : ActionRef}
    → All (Free b'/') parts
    → (ref ≢ []) × (¬ In b'@' ref)
    → uses ≡ join (b'/' ∷ []) parts ++ b'@' ∷ ref
    → of_parts uses ref parts ≡ ok r
    → Spells uses r
unfolding of_parts join
of_parts_lem uses ref [] free full same h = cc h
of_parts_lem uses ref (owner ∷ []) free full same h = cc h
of_parts_lem uses ref (owner ∷ repo ∷ sub) free full same h = elim (Bool-cases (text_eq owner [])) [
  | inl e ↦ let h' = rw e at h in cc h'
  | inr a ↦ elim (Bool-cases (text_eq repo [])) [
    | inl e ↦ let h' = rw (a, e) at h in cc h'
    | inr b ↦
        let h' = ok-injective (rw (a, b) at h) in
        subst (Spells uses) h' (
          spelled sub ((λ q. cc ((text_eq_iff owner []).1 q)), free.0)
            ((λ q. cc ((text_eq_iff repo []).1 q)), free.1.0) same)
  ]
]
  where
    spelled :
        (sub : List Text)
        → Name owner
        → Name repo
        → uses ≡ join (b'/' ∷ []) (owner ∷ repo ∷ sub) ++ b'@' ∷ ref
        → Spells uses (remote_ref owner repo (join (b'/' ∷ []) sub) ref)
    spelled [] o p q = remote owner repo ref o p full q
    spelled (t ∷ ts) o p q = remote_subpath owner repo (join (b'/' ∷ []) (t ∷ ts)) ref o p full q

resolve_remote_lem :
    (uses : Text) (halves : Option (Text × Text)) {r : ActionRef}
    → cut_last b'@' uses ≡ halves
    → resolve_remote uses halves ≡ ok r
    → Spells uses r
unfolding resolve_remote split
resolve_remote_lem uses none c h = cc h
resolve_remote_lem uses (some (front, ref)) c h = elim (Bool-cases (text_eq ref [])) [
  | inl e ↦ let h' = rw e at h in cc h'
  | inr e ↦
      let h' = rw e at h in
      let (same, free) = cut_last_lem b'@' uses front ref c in
      of_parts_lem uses ref (split b'/' front) (split_rest-Free b'/' front)
        ((λ q. cc ((text_eq_iff ref []).1 q)), free)
        (same ∙ ap (λ t. t ++ b'@' ∷ ref) (sym (join-split b'/' front))) h'
]

-- A reference that `ResolveUsesRef` returns is spelled by the text: an image behind `docker://`; a
-- path, which begins with `./` or `../`; or an owner, a repository, a subpath if there is one, and
-- a ref, the names not empty and without `/`, the ref not empty and without `@`.
pub resolve_uses_ref-Spells :
    (uses : Text) {r : ActionRef} → resolve_uses_ref uses ≡ ok r → Spells uses r
unfolding resolve_uses_ref trim_prefix
resolve_uses_ref-Spells uses h = elim (Bool-cases (has_prefix uses docker_scheme)) [
  | inl e ↦
      let h' = ok-injective (rw e at h) in
      subst (Spells uses) h' (image _ (has_prefix_lem uses docker_scheme e))
  | inr a ↦ elim (Bool-cases (has_prefix uses (lit "./") || has_prefix uses (lit "../"))) [
    | inl e ↦ let h' = ok-injective (rw (a, e) at h) in subst (Spells uses) h' (path e)
    | inr b ↦ resolve_remote_lem uses (cut_last b'@' uses) refl (rw (a, b) at h)
  ]
]
