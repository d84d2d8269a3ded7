-- ===== src/Base/Split.antt =====
-- Pieces between separators, split and joined.
use mirror_gha.Base.Texts.{Text}
use mirror_gha.Base.Tests.{◌==◌, ==_iff, Bool-cases}
use mirror_gha.Base.Strings.{split_rest, split, join}
use mirror_gha.Base.Lists.{All, In}
use Prim.Native.Nat.{ℕ}
use native.Mathlib.Omega.{arith}
use mathlib.Core.Bool.{false}
use mathlib.Core.Path.{◌≡◌, refl, ap, ◌∙◌}
use mathlib.Core.Logic.{inl, inr}
use mathlib.Core.List.{List, [], ◌∷◌, ◌++◌}

module _ (sep : ℕ) where
  abbrev pub Free : Text → Type 0
  Free t = ¬ In sep t

  pub split_rest-Free : (s : Text) → All Free ((split_rest sep s).0 ∷ (split_rest sep s).1)
  unfolding split_rest
  split_rest-Free [] = ((λ m. absurd m), tt)
  split_rest-Free (c ∷ s) = elim (Bool-cases (c == sep)) [
    | inl q ↦ rw q ((λ m. absurd m), split_rest-Free s)
    | inr q ↦
        let rest = split_rest-Free s in
        rw q ((λ m. elim m [ inl e ↦ ground (arith, ==_iff c sep) | inr k ↦ rest.0 k ]), rest.1)
  ]

  pub split-Free : (s : Text) → All Free (split sep s)
  unfolding split
  split-Free s = split_rest-Free s

  split_rest-sep : (p s : Text) → Free p → split_rest sep (p ++ (sep ∷ s)) ≡ (p, split sep s)
  unfolding split_rest split
  split_rest-sep [] s free = rw ((==_iff sep sep).1 refl, split_rest) refl
  split_rest-sep (c ∷ p) s free =
      let apart : (c == sep) ≡ false = elim (Bool-cases (c == sep)) [
        | inr q ↦ q
        | inl q ↦ absurd (free (inl ((==_iff c sep).0 q)))
      ] in
      rw (split_rest-sep p s (λ m. free (inr m)), apart, split_rest) refl

  split_rest-last : (p : Text) → Free p → split_rest sep p ≡ (p, [])
  unfolding split_rest
  split_rest-last [] free = refl
  split_rest-last (c ∷ p) free =
      let apart : (c == sep) ≡ false = elim (Bool-cases (c == sep)) [
        | inr q ↦ q
        | inl q ↦ absurd (free (inl ((==_iff c sep).0 q)))
      ] in
      rw (split_rest-last p (λ m. free (inr m)), apart, split_rest) refl

  -- A piece with no separator, before a separator.
  pub split-sep : (p s : Text) → Free p → split sep (p ++ (sep ∷ s)) ≡ p ∷ split sep s
  unfolding split
  split-sep p s free = rw (split_rest-sep p s free, split) refl

  pub split-join :
      (p : Text) (ps : List Text)
      → All Free (p ∷ ps)
      → split sep (join (sep ∷ []) (p ∷ ps)) ≡ p ∷ ps
  unfolding join split
  split-join p [] free = rw (split_rest-last p free.0) refl
  split-join p (q ∷ ps) free =
      split-sep p (join (sep ∷ []) (q ∷ ps)) free.0 ∙ ap (λ l. p ∷ l) (split-join q ps free.1)

  -- A text before a separator.
  split_rest-append :
      (a s : Text)
      → split_rest sep (a ++ (sep ∷ s))
        ≡ ((split_rest sep a).0, (split_rest sep a).1 ++ split sep s)
  unfolding split_rest split
  split_rest-append [] s = rw ((==_iff sep sep).1 refl, split_rest) refl
  split_rest-append (c ∷ a) s = elim (Bool-cases (c == sep)) [
    | inl q ↦ rw (split_rest-append a s, q, split_rest) refl
    | inr q ↦ rw (split_rest-append a s, q, split_rest) refl
  ]

  pub split-append : (a s : Text) → split sep (a ++ (sep ∷ s)) ≡ split sep a ++ split sep s
  unfolding split
  split-append a s = rw (split_rest-append a s, split) refl
