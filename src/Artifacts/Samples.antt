-- ===== src/Artifacts/Samples.antt =====
-- internal/artifactserver on a small store, and the theorems about it at it.
use mirror_gha.Base.{
  Text, lit, text_eq, has_prefix, lookup, insert, slash, clean, join_paths, join_path, ◌≡◌, refl,
  true, false, none, some, [], ◌∷◌, ok, err,
}
use mirror_gha.Cache.Handlers.{write_at, parse_content_range_start}
use mirror_gha.Artifacts.Disk.{
  write_blob, Disk, escapes_root, whole, resolve, exists_file, is_below,
}
use mirror_gha.Artifacts.Handlers.{
  created, served, v3_upload, v3_download_artifact, v4_blob_rel, v4_upload_artifact,
  v4_download_artifact, v4_delete_artifact,
}
use mirror_gha.Artifacts.Uploads.{
  v4_download_artifact-v4_upload_artifact, v4_upload_artifact_overwrites,
}
use mirror_gha.Artifacts.Guard.{Below, resolve-Below}
use mirror_gha.Artifacts.Deletion.{v4_delete_artifact_empties}

abbrev disk : Disk
disk = record { root = lit "/tmp/a"; files = (lit "/tmp/a/log/log.zip", lit "old") ∷ [] }

abbrev blob_path : Text
blob_path = lit "/tmp/a/out/out.zip"

resolved : resolve disk (v4_blob_rel (lit "out")) ≡ ok blob_path
unfolding resolve text_eq clean v4_blob_rel join_paths
resolved = refl

escape_refused : resolve disk (lit "a/../../b") ≡ err (escapes_root (lit "a/../../b"))
unfolding resolve text_eq clean
escape_refused = refl

gzip_served :
    v3_download_artifact
      (lit "1/f")
      ((v3_upload (lit "1") (lit "f") (lit "gzip") (lit "bytes 0-1/2") (whole (lit "zz")) disk).1)
    ≡ served true (lit "zz")
unfolding v3_upload v3_download_artifact resolve text_eq clean lookup write_blob join_paths insert
    write_at parse_content_range_start
gzip_served = refl

log_there : exists_file (lit "log/log.zip") disk ≡ true
unfolding exists_file resolve text_eq clean lookup join_paths
log_there = refl

out_new : lookup blob_path disk.files ≡ none
unfolding lookup text_eq
out_new = refl

v4_download_artifact-v4_upload_artifact_example :
    ((v4_upload_artifact (lit "out") (lit "block") (whole (lit "zip")) disk).0 ≡ created)
    × (v4_download_artifact
          (lit "out")
          (v4_upload_artifact (lit "out") (lit "block") (whole (lit "zip")) disk).1
        ≡ served false (lit "zip"))
v4_download_artifact-v4_upload_artifact_example =
    v4_download_artifact-v4_upload_artifact (lit "out") (lit "block") (lit "zip") blob_path disk
      (λ q. cc q) (λ q. cc q) resolved out_new

v4_upload_artifact_overwrites_example :
    v4_download_artifact
      (lit "out")
      (v4_upload_artifact
        (lit "out")
        (lit "block")
        (whole (lit "cd"))
        (v4_upload_artifact (lit "out") (lit "block") (whole (lit "abx")) disk).1).1
    ≡ served false (lit "cdx")
v4_upload_artifact_overwrites_example =
    v4_upload_artifact_overwrites (lit "out") (lit "abx") (lit "cd") blob_path disk (λ q. cc q)
      resolved out_new

root_joined : join_path (lit "/tmp/a") (lit ".zip") ≡ lit "/tmp/a/.zip"
unfolding join_paths
root_joined = refl

root_cleaned : clean (lit "/tmp/a/") ≡ lit "/tmp/a"
unfolding clean
root_cleaned = refl

log_below : is_below (lit "/tmp/a") (lit "/tmp/a/log/log.zip") ≡ true
unfolding text_eq has_prefix
log_below = refl

v4_delete_artifact_empties_example :
    lookup (lit "/tmp/a/log/log.zip") (v4_delete_artifact (λ name. 0) (some []) disk).1.files ≡ none
v4_delete_artifact_empties_example =
    v4_delete_artifact_empties (λ name. 0) (lit "/tmp/a/log/log.zip") disk root_joined root_cleaned
      log_below

root_rooted : has_prefix (lit "/tmp/a") slash ≡ true
unfolding has_prefix
root_rooted = refl

resolve-Below_example : Below (lit "/tmp/a") blob_path
resolve-Below_example = resolve-Below disk (v4_blob_rel (lit "out")) root_rooted resolved
