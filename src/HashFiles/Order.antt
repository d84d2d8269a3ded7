-- ===== src/HashFiles/Order.antt =====
-- The digest of `hashFiles` and the order in which a tree is walked.
use mathlib.Core.List.{Perm, Permᴰ}
use mathlib.Core.List.Permᴰ
use mathlib.Core.Logic.{∥∥₁_elim}
use mirror_gha.Base.{
  Bool-cases, Option-cases, any, In, Text, text_eq, text_eq_iff, text_eq_refl, text_eq_ne, In-dec,
  Map, insert, keys, Result, >>=-eq-ok, ok-injective, Result-cases, sort_strings_perm, ◌≡◌, refl,
  sym, ap, ◌∙◌, subst, inl, inr, Bool, true, false, Option, none, some, List, [], ◌∷◌, ok,
}
use mirror_gha.HashFiles.Glob.{glob_match}
use mirror_gha.HashFiles.Digest.{Visit, visit_file, walk_files, digest, hash_files}

In-permᴰ : (a : Text) {xs ys : List Text} → Permᴰ xs ys → In a xs → In a ys
In-permᴰ a Permᴰ.nil h = h
In-permᴰ a (Permᴰ.cons e d) (inl p) = inl (sym e ∙ p)
In-permᴰ a (Permᴰ.cons e d) (inr m) = inr (In-permᴰ a d m)
In-permᴰ a (Permᴰ.swap e f) (inl p) = inr (inl (sym e ∙ p))
In-permᴰ a (Permᴰ.swap e f) (inr (inl p)) = inl (sym f ∙ p)
In-permᴰ a (Permᴰ.swap e f) (inr (inr m)) = inr (inr m)
In-permᴰ a (Permᴰ.trans d e) h = In-permᴰ a e (In-permᴰ a d h)

-- The same keys, in orders of their own.
abbrev Same : Map Bool → Map Bool → Type 0
Same m n = Permᴰ (keys m) (keys n)

keys-insert_old :
    (k : Text) (v : Bool) (m : Map Bool) → In k (keys m) → keys (insert k v m) ≡ keys m
unfolding insert
keys-insert_old k v [] h = absurd h
keys-insert_old k v ((j, w) ∷ m) h = elim (Bool-cases (text_eq j k)) [
  | inl e ↦ rw e (ap (λ i. i ∷ keys m) (sym ((text_eq_iff j k).0 e)))
  | inr e ↦ rw e (
      ap (λ ks. j ∷ ks)
        (keys-insert_old k v m (elim h [ inl p ↦ cc (e, (text_eq_iff j k).1 p) | inr n ↦ n ])))
]

keys-insert_new :
    (k : Text) (v : Bool) (m : Map Bool)
    → ¬ In k (keys m)
    → Permᴰ (keys (insert k v m)) (k ∷ keys m)
unfolding insert
keys-insert_new k v [] h = Permᴰ.refl (k ∷ [])
keys-insert_new k v ((j, w) ∷ m) h =
    rw (text_eq_ne j k (λ e. h (inl e))) (
      Permᴰ.trans (Permᴰ.cons refl (keys-insert_new k v m (λ i. h (inr i)))) (Permᴰ.swap refl refl))

insert-Same : (k : Text) (m n : Map Bool) → Same m n → Same (insert k true m) (insert k true n)
insert-Same k m n s = elim (In-dec k (keys m)) [
  | inl i ↦ rw (keys-insert_old k true m i, keys-insert_old k true n (In-permᴰ k s i)) s
  | inr o ↦ Permᴰ.trans (keys-insert_new k true m o) (
      Permᴰ.trans (Permᴰ.cons refl s)
        (Permᴰ.symm (keys-insert_new k true n (λ i. o (In-permᴰ k (Permᴰ.symm s) i)))))
]

insert_ne-Same :
    (a b : Text) (m : Map Bool)
    → text_eq a b ≡ false
    → text_eq b a ≡ false
    → Same (insert a true (insert b true m)) (insert b true (insert a true m))
unfolding insert
insert_ne-Same a b [] h k = rw (h, k) (Permᴰ.swap refl refl)
insert_ne-Same a b ((j, w) ∷ m) h k = elim (Bool-cases (text_eq j a)) [
  | inl e ↦
      rw (e, h, text_eq_ne j b (λ p. cc (p, (text_eq_iff j a).0 e, text_eq_refl b)), e)
        (Permᴰ.refl (a ∷ keys (insert b true m)))
  | inr e ↦ elim (Bool-cases (text_eq j b)) [
    | inl f ↦ rw (e, f, k) (Permᴰ.refl (b ∷ keys (insert a true m)))
    | inr f ↦ rw (e, f, e) (Permᴰ.cons refl (insert_ne-Same a b m h k))
  ]
]

insert_comm-Same :
    (a b : Text) (m : Map Bool)
    → Same (insert a true (insert b true m)) (insert b true (insert a true m))
insert_comm-Same a b m = elim (Bool-cases (text_eq a b)) [
  | inl e ↦ rw ((text_eq_iff a b).0 e) (Permᴰ.refl (keys (insert b true (insert b true m))))
  | inr e ↦ insert_ne-Same a b m e (text_eq_ne b a (λ p. cc (e, p, text_eq_refl a)))
]

-- What one visit of a file finds.
abbrev add : Option Text → Map Bool → Map Bool
add none m = m
add (some rel) m = insert rel true m

add-Same : (o : Option Text) (m n : Map Bool) → Same m n → Same (add o m) (add o n)
add-Same none m n s = s
add-Same (some rel) m n s = insert-Same rel m n s

add_comm-Same : (o p : Option Text) (m : Map Bool) → Same (add o (add p m)) (add p (add o m))
add_comm-Same none p m = Permᴰ.refl (keys (add p m))
add_comm-Same (some a) none m = Permᴰ.refl (keys (insert a true m))
add_comm-Same (some a) (some b) m = insert_comm-Same a b m

module _ (accepts : Text → Text → Option Bool) (rel_path : Text → Text → Result Text Text)
    (root : Text) (patterns : List Text) where
  abbrev visit_with : Visit → Map Bool → Result Text (Map Bool)
  visit_with = visit_file accepts rel_path root patterns

  visit_file-add :
      (v : Visit) (m out : Map Bool)
      → visit_with v m ≡ ok out
      → (o : Option Text) × ((n : Map Bool) → visit_with v n ≡ ok (add o n))
  unfolding visit_file
  visit_file-add v m out h = elim (Option-cases v.failure) [
    | inr (e, f) ↦ cc (rw f at h)
    | inl f ↦ elim (Bool-cases v.is_dir) [
      | inl d ↦ (none, λ n. rw (f, d) refl)
      | inr d ↦ elim (Result-cases (rel_path root v.path)) [
        | inr (e, r) ↦ cc (rw (f, d, r) at h)
        | inl (rel, r) ↦
            elim (Bool-cases (any (λ pattern. glob_match accepts pattern rel) patterns)) [
              | inl b ↦ (some rel, λ n. rw (f, d, r, b) refl)
              | inr b ↦ (none, λ n. rw (f, d, r, b) refl)
            ]
      ]
    ]
  ]

  abbrev walk_with : List Visit → Map Bool → Result Text (Map Bool)
  walk_with = walk_files accepts rel_path root patterns

  -- The walk goes through in another order, and finds the same.
  abbrev Reaches : List Visit → Map Bool → Map Bool → Type 0
  Reaches ws n out = (out' : Map Bool) × (walk_with ws n ≡ ok out') × Same out out'

  -- A walk that goes through, after its first visit.
  abbrev Onward : Visit → List Visit → Map Bool → Map Bool → Type 0
  Onward v vs m out =
      (o : Option Text) × ((n : Map Bool) → visit_with v n ≡ ok (add o n))
      × (walk_with vs (add o m) ≡ ok out)

  walk_files-Onward :
      (v : Visit) (vs : List Visit) (m out : Map Bool)
      → walk_with (v ∷ vs) m ≡ ok out
      → Onward v vs m out
  unfolding walk_files
  walk_files-Onward v vs m out h =
      let (m', first, rest) = >>=-eq-ok (visit_with v m) (walk_with vs) h in
      let (o, visited) = visit_file-add v m m' first in
      (o, visited, subst (λ k. walk_with vs k ≡ ok out) (ok-injective (sym first ∙ visited m)) rest)

  walk_files-Same :
      (vs : List Visit) (m n out : Map Bool) → Same m n → walk_with vs m ≡ ok out → Reaches vs n out
  unfolding walk_files
  walk_files-Same [] m n out s h = (n, refl, subst (λ k. Same k n) (ok-injective h) s)
  walk_files-Same (v ∷ vs) m n out s h =
      let (o, visited, rest) = walk_files-Onward v vs m out h in
      rw (visited n) (walk_files-Same vs (add o m) (add o n) out (add-Same o m n s) rest)

  walk_files_permᴰ :
      {vs ws : List Visit} (m n out : Map Bool)
      → Permᴰ vs ws
      → Same m n
      → walk_with vs m ≡ ok out
      → Reaches ws n out
  unfolding walk_files
  walk_files_permᴰ m n out Permᴰ.nil s h = walk_files-Same [] m n out s h
  walk_files_permᴰ m n out (Permᴰ.cons {a = v} {b = w} {l₁ = vs} {l₂ = ws} e d) s h =
      let (o, visited, rest) = walk_files-Onward v vs m out h in
      let onward = walk_files_permᴰ (add o m) (add o n) out d (add-Same o m n s) rest in
      rw (sym e, visited n) onward
  walk_files_permᴰ m n out (Permᴰ.swap {a = v} {b = w} {a' = v'} {b' = w'} {l = l} e f) s h =
      let (o, visited, rest) = walk_files-Onward v (w ∷ l) m out h in
      let (p, visited', rest') = walk_files-Onward w l (add o m) out rest in
      let same : Same (add p (add o m)) (add o (add p n)) =
        Permᴰ.trans (add_comm-Same p o m) (add-Same o (add p m) (add p n) (add-Same p m n s)) in
      rw (sym f, visited' n, sym e, visited (add p n))
        (walk_files-Same l (add p (add o m)) (add o (add p n)) out same rest')
  walk_files_permᴰ m n out (Permᴰ.trans d e) s h =
      let (mid, reached, same) = walk_files_permᴰ m n out d s h in
      let (out', reached', same') = walk_files_permᴰ n n mid e (Permᴰ.refl (keys n)) reached in
      (out', reached', Permᴰ.trans same same')

module _ (read : Text → Result Text Text) (sha256 : Text → Text) (root : Text) where
  digest_permᴰ :
      (rels ss : List Text)
      → Permᴰ rels ss
      → digest read sha256 root rels ≡ digest read sha256 root ss
  unfolding digest
  digest_permᴰ [] [] d = refl
  digest_permᴰ [] (s ∷ ss) d = absurd (In-permᴰ s (Permᴰ.symm d) (inl refl))
  digest_permᴰ (r ∷ rels) [] d = absurd (In-permᴰ r d (inl refl))
  digest_permᴰ (r ∷ rels) (s ∷ ss) d = rw (sort_strings_perm (r ∷ rels) (s ∷ ss) (∣ d ∣₁)) refl

module _ (accepts : Text → Text → Option Bool) (rel_path : Text → Text → Result Text Text)
    (read : Text → Result Text Text) (sha256 : Text → Text) (root : Text)
    (patterns : List Text) where
  abbrev hash_in : (Text → List Visit) → Result Text Text
  hash_in walk = hash_files accepts rel_path read sha256 walk root patterns

  hash_files_permᴰ :
      (walk walk' : Text → List Visit) (out : Text)
      → Permᴰ (walk root) (walk' root)
      → hash_in walk ≡ ok out
      → hash_in walk' ≡ ok out
  unfolding hash_files
  hash_files_permᴰ walk walk' out d h =
      let (m, walked, digested) =
        >>=-eq-ok (walk_files accepts rel_path root patterns (walk root) [])
          (λ m. digest read sha256 root (keys m)) h in
      let (m', walked', same) =
        walk_files_permᴰ accepts rel_path root patterns [] [] m d Permᴰ.nil walked in
      rw walked' (sym (digest_permᴰ read sha256 root (keys m) (keys m') same) ∙ digested)

  -- A tree that is walked in another order, each file still once for each time that it was visited,
  -- has the same digest: where one walk gives a digest, so does the other, and it is the same.
  pub hash_files_perm :
      (walk walk' : Text → List Visit) (out : Text)
      → Perm (walk root) (walk' root)
      → hash_in walk ≡ ok out
      → hash_in walk' ≡ ok out
  hash_files_perm walk walk' out p h =
      ∥∥₁_elim p (hlevel) (λ d. hash_files_permᴰ walk walk' out d h)
