-- ===== src/Artifacts/Deletion.antt =====
-- What `v4DeleteArtifact` of internal/artifactserver/v4.go removes.
use mirror_gha.Base.{
  if◌then◌else◌, Bool-cases, Text, lit, text_eq, text_eq_iff, has_prefix, Map, lookup, split,
  cut_last, slash, clean_elements, show_path, clean, join_paths, join_path, ℕ, ◌≡◌, refl, ap, ◌∙◌,
  subst, inl, inr, true, false, none, some, [], ◌∷◌, ◌++◌, ok,
}
use mirror_gha.Artifacts.Disk.{Disk, resolve, dir_of, remove_all, is_below}
use mirror_gha.Artifacts.Handlers.{v4_blob_rel, v4_delete_artifact}

lookup-remove_all :
    (dir p : Text) (files : Map Text)
    → lookup p (remove_all dir files) ≡ (if is_below dir p then none else lookup p files)
unfolding remove_all lookup
lookup-remove_all dir p [] = elim (Bool-cases (is_below dir p)) [
  | inl q ↦ rw q refl
  | inr q ↦ rw q refl
]
lookup-remove_all dir p ((path, file) ∷ files) =
    let rest = lookup-remove_all dir p files in
    elim (Bool-cases (is_below dir path)) [
      | inl q ↦ elim (Bool-cases (text_eq path p)) [
        | inl e ↦
            let below : is_below dir p ≡ true =
              subst (λ k. is_below dir k ≡ true) ((text_eq_iff path p).0 e) q in
            rw (q, e, rest, below) refl
        | inr e ↦ rw (q, e, rest) refl
      ]
      | inr q ↦ elim (Bool-cases (text_eq path p)) [
        | inl e ↦
            let out : is_below dir p ≡ false =
              subst (λ k. is_below dir k ≡ false) ((text_eq_iff path p).0 e) q in
            rw (q, e, out) refl
        | inr e ↦ rw (q, e, rest) refl
      ]
    ]

-- A name that resolves inside the store: its deletion removes every file in the directory of its
-- blob, and no other one.
deleted_files :
    (hash : Text → ℕ) (name path p : Text) (d : Disk)
    → resolve d (v4_blob_rel name) ≡ ok path
    → lookup p (v4_delete_artifact hash (some name) d).1.files
      ≡ (if is_below (dir_of path) p then none else lookup p d.files)
unfolding v4_delete_artifact
deleted_files hash name path p d there =
    rw (there, v4_delete_artifact) (lookup-remove_all (dir_of path) p d.files)

cut_last-slash : (a : Text) → cut_last b'/' (a ++ lit "/.zip") ≡ some (a, lit ".zip")
unfolding cut_last
cut_last-slash [] = refl
cut_last-slash (c ∷ a) = rw (cut_last-slash a) refl

nameless_blob : v4_blob_rel [] ≡ lit ".zip"
unfolding v4_blob_rel join_paths clean clean_elements show_path split text_eq has_prefix
nameless_blob = refl

clean_zip : clean (lit ".zip") ≡ lit ".zip"
unfolding clean clean_elements show_path split text_eq has_prefix
clean_zip = refl

resolve_zip : (d : Disk) → resolve d (lit ".zip") ≡ ok (join_path d.root (lit ".zip"))
unfolding resolve text_eq has_prefix
resolve_zip d = rw (clean_zip, resolve) refl

dir_of-slash : (a : Text) → dir_of (a ++ lit "/.zip") ≡ clean (a ++ slash)
unfolding dir_of
dir_of-slash a = rw (cut_last-slash a, dir_of) refl

-- A store at a cleaned path: a deletion that names no artifact removes every file of the store.
pub v4_delete_artifact_empties :
    (hash : Text → ℕ) (p : Text) (d : Disk)
    → join_path d.root (lit ".zip") ≡ d.root ++ lit "/.zip"
    → clean (d.root ++ slash) ≡ d.root
    → is_below d.root p ≡ true
    → lookup p (v4_delete_artifact hash (some []) d).1.files ≡ none
v4_delete_artifact_empties hash p d joined cleaned below =
    let there : resolve d (v4_blob_rel []) ≡ ok (join_path d.root (lit ".zip")) =
      ap (resolve d) nameless_blob ∙ resolve_zip d in
    let parent : dir_of (join_path d.root (lit ".zip")) ≡ d.root =
      ap dir_of joined ∙ dir_of-slash d.root ∙ cleaned in
    deleted_files hash [] (join_path d.root (lit ".zip")) p d there ∙ rw (parent, below) refl
