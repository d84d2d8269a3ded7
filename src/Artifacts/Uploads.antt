-- ===== src/Artifacts/Uploads.antt =====
-- What the uploads and deletions of internal/artifactserver/v4.go leave in the store.
use mirror_gha.Base.{
  length, drop, Text, lit, text_eq, text_eq_refl, text_eq_ne, Map, lookup, lookup-insert, ℕ, zero,
  suc, ◌≡◌, refl, sym, ap, ◌∙◌, ◌≢◌, false, none, some, [], ◌∷◌, ◌++◌, ok,
}
use mathlib.Core.List.{append-nil}
use mirror_gha.Cache.Handlers.{write_at, or_empty}
use mirror_gha.Artifacts.Disk.{Disk, whole, resolve, write_blob, set_file}
use mirror_gha.Artifacts.Handlers.{
  created, served, v4_blob_rel, v4_upload_artifact, v4_download_artifact,
}

write_at_start : (bytes file : Text) → write_at 0 bytes file ≡ bytes ++ drop (length bytes) file
unfolding write_at
write_at_start [] file = refl
write_at_start (c ∷ bytes) [] = ap (λ t. c ∷ t) (sym (append-nil bytes))
write_at_start (c ∷ bytes) (x ∷ file) = ap (λ t. c ∷ t) (write_at_start bytes file)

-- An upload of a block, by what the file was.
v4_upload_artifact-whole :
    (name comp bytes path : Text) (d : Disk)
    → name ≢ []
    → comp ≢ lit "blocklist"
    → resolve d (v4_blob_rel name) ≡ ok path
    → v4_upload_artifact name comp (whole bytes) d ≡ (created, set_file path 0 bytes d)
unfolding v4_upload_artifact write_blob
v4_upload_artifact-whole name comp bytes path d full block there =
    let named : text_eq name [] ≡ false = text_eq_ne name [] full in
    let sent : text_eq comp (lit "blocklist") ≡ false = text_eq_ne comp (lit "blocklist") block in
    rw (named, sent, there, v4_upload_artifact, write_blob) refl

-- Where a file is does not depend on the files.
resolve-files :
    (d : Disk) (files : Map Text) (rel : Text)
    → resolve (record d { files = files }) rel ≡ resolve d rel
unfolding resolve
resolve-files d files rel = refl

v4_download_artifact-there :
    (name path file : Text) (d : Disk)
    → resolve d (v4_blob_rel name) ≡ ok path
    → lookup path d.files ≡ some file
    → v4_download_artifact name d ≡ served false file
unfolding v4_download_artifact
v4_download_artifact-there name path file d there found =
    rw (there, found, v4_download_artifact) refl

lookup-set_file :
    (path bytes : Text) (offset : ℕ) (d : Disk)
    → lookup path (set_file path offset bytes d).files
      ≡ some (write_at offset bytes (or_empty (lookup path d.files)))
lookup-set_file path bytes offset d =
    lookup-insert path path _ d.files ∙ rw (text_eq_refl path) refl

or_empty-none :
    (path : Text) (files : Map Text) → lookup path files ≡ none → or_empty (lookup path files) ≡ []
or_empty-none path files h = ap or_empty h

-- An upload of a block, and a download behind it.
v4_download_artifact-block :
    (name comp bytes path : Text) (d : Disk)
    → name ≢ []
    → comp ≢ lit "blocklist"
    → resolve d (v4_blob_rel name) ≡ ok path
    → v4_download_artifact name (v4_upload_artifact name comp (whole bytes) d).1
      ≡ served false (bytes ++ drop (length bytes) (or_empty (lookup path d.files)))
v4_download_artifact-block name comp bytes path d full block there =
    let d' = set_file path 0 bytes d in
    let found = lookup-set_file path bytes 0 d in
    ap (λ r. v4_download_artifact name r.1)
      (v4_upload_artifact-whole name comp bytes path d full block there)
    ∙ v4_download_artifact-there name path _ d'
        (resolve-files d d'.files (v4_blob_rel name) ∙ there) found
    ∙ ap (served false) (write_at_start bytes (or_empty (lookup path d.files)))

drop-nil : (n : ℕ) → drop {A = ℕ} n [] ≡ []
drop-nil zero = refl
drop-nil (suc n) = refl

-- If the name resolves inside the store and there is no file yet, an upload in one block is answered
-- with success, and a download then gives the bytes.
pub v4_download_artifact-v4_upload_artifact :
    (name comp bytes path : Text) (d : Disk)
    → name ≢ []
    → comp ≢ lit "blocklist"
    → resolve d (v4_blob_rel name) ≡ ok path
    → lookup path d.files ≡ none
    → ((v4_upload_artifact name comp (whole bytes) d).0 ≡ created)
      × (v4_download_artifact name (v4_upload_artifact name comp (whole bytes) d).1
          ≡ served false bytes)
v4_download_artifact-v4_upload_artifact name comp bytes path d full block there fresh =
    let empty = or_empty-none path d.files fresh in
    (
      ap (λ r. r.0) (v4_upload_artifact-whole name comp bytes path d full block there),
      v4_download_artifact-block name comp bytes path d full block there
          ∙ ap (λ t. served false (bytes ++ drop (length bytes) t)) empty
          ∙ ap (λ t. served false (bytes ++ t)) (drop-nil (length bytes))
          ∙ ap (served false) (append-nil bytes),
    )

-- Of two blocks of one artifact, the second is written over the start of the first.
pub v4_upload_artifact_overwrites :
    (name a b path : Text) (d : Disk)
    → name ≢ []
    → resolve d (v4_blob_rel name) ≡ ok path
    → lookup path d.files ≡ none
    → v4_download_artifact name
        (v4_upload_artifact name
          (lit "block")
          (whole b)
          (v4_upload_artifact name (lit "block") (whole a) d).1).1
      ≡ served false (b ++ drop (length b) a)
v4_upload_artifact_overwrites name a b path d full there fresh =
    let block : lit "block" ≢ lit "blocklist" = λ q. cc q in
    let first = v4_upload_artifact-whole name (lit "block") a path d full block there in
    let d1 = set_file path 0 a d in
    let stored : or_empty (lookup path d1.files) ≡ a =
      ap or_empty (lookup-set_file path a 0 d)
      ∙ write_at_start a (or_empty (lookup path d.files))
      ∙ ap (λ t. a ++ drop (length a) t) (or_empty-none path d.files fresh)
      ∙ ap (λ t. a ++ t) (drop-nil (length a))
      ∙ append-nil a in
    ap (λ r. v4_download_artifact name (v4_upload_artifact name (lit "block") (whole b) r.1).1)
      first
    ∙ v4_download_artifact-block name (lit "block") b path d1 full block
        (resolve-files d d1.files (v4_blob_rel name) ∙ there)
    ∙ ap (λ t. served false (b ++ drop (length b) t)) stored
