-- ===== src/Artifacts/Handlers.antt =====
-- internal/artifactserver/v3.go and v4.go: the requests as steps on the store. What decodes a body is
-- an argument: the request is `none` for a body that is no JSON of its form.
use mirror_gha.Base.{
  if◌then◌else◌, Text, lit, text_eq, lookup, Result, join_path, ℕ, Bool, true, false, Option, none,
  some, [], ◌++◌, ok, err,
}
use mirror_gha.Cache.Handlers.{parse_content_range_start}
use mirror_gha.Artifacts.Disk.{Disk, DiskError, Written, resolve, write_blob, dir_of, remove_all}

pub data Reply : Type 0 where
  bad_request : Text → Reply
  server_error : DiskError → Reply
  not_found : Reply
  created : Reply
  container_url : Text → Reply
  message : Text → Reply
  signed_upload_url : Text → Reply
  signed_url : Text → Reply
  artifact_id : ℕ → Reply
  served : (gzipped : Bool) → (file : Text) → Reply

abbrev replied : Reply → Result DiskError (Unit {0}) × Disk → Reply × Disk
replied reply (ok _, d) = (reply, d)
replied reply (err e, d) = (server_error e, d)

abbrev gz_suffix : Text
gz_suffix = lit ".gz__"

-- `v3Reserve`
unfoldable pub v3_reserve : (host run_id : Text) → Reply
v3_reserve host run_id = container_url (lit "http://" ++ (host ++ (lit "/upload/" ++ run_id)))

-- `v3Upload`
unfoldable pub v3_upload : (run_id item_path encoding range : Text) → Written → Disk → Reply × Disk
v3_upload run_id item_path encoding range written d =
    if text_eq item_path []
    then (bad_request (lit "itemPath query parameter is required"), d)
    else let plain = join_path run_id item_path in
      let rel = if text_eq encoding (lit "gzip") then plain ++ gz_suffix else plain in
      replied (message (lit "success")) (write_blob rel (parse_content_range_start range) written d)

-- `v3Finalize`
unfoldable pub v3_finalize : Reply
v3_finalize = message (lit "success")

-- `v3DownloadArtifact`, for a request of a whole file.
unfoldable pub v3_download_artifact : Text → Disk → Reply
v3_download_artifact rel d = elim (resolve d rel) [
  | err e ↦ server_error e
  | ok path ↦ elim (lookup path d.files) [
    | some file ↦ served false file
    | none ↦ elim (lookup (path ++ gz_suffix) d.files) [
      | some file ↦ served true file
      | none ↦ not_found
    ]
  ]
]

-- `v4BlobRel`
unfoldable pub v4_blob_rel : Text → Text
v4_blob_rel name = join_path name (name ++ lit ".zip")

abbrev v4_route_base : Text
v4_route_base = lit "/twirp/github.actions.results.api.v1.ArtifactService"

abbrev v4_url : (Text → Text) → (host route name : Text) → Text
v4_url escape host route name =
    lit "http://" ++ (host ++ (v4_route_base ++ (route ++ (lit "?artifactName=" ++ escape name))))

-- `v4CreateArtifact`; `escape` is `url.QueryEscape`.
unfoldable pub v4_create_artifact : (Text → Text) → Text → Option Text → Reply
v4_create_artifact escape host none = bad_request (lit "invalid request body")
v4_create_artifact escape host (some name) =
    signed_upload_url (v4_url escape host (lit "/UploadArtifact") name)

-- `v4UploadArtifact`
unfoldable pub v4_upload_artifact : (name comp : Text) → Written → Disk → Reply × Disk
v4_upload_artifact name comp written d =
    if text_eq name []
    then (bad_request (lit "artifactName query parameter is required"), d)
    else if text_eq comp (lit "blocklist")
    then (created, d)
    else replied created (write_blob (v4_blob_rel name) 0 written d)

-- `v4FinalizeArtifact`; `artifact_name_to_id` is a hash.
unfoldable pub v4_finalize_artifact : (Text → ℕ) → Option Text → Reply
v4_finalize_artifact artifact_name_to_id none = bad_request (lit "invalid request body")
v4_finalize_artifact artifact_name_to_id (some name) = artifact_id (artifact_name_to_id name)

-- `v4GetSignedArtifactURL`
unfoldable pub v4_get_signed_artifact_url : (Text → Text) → Text → Option Text → Reply
v4_get_signed_artifact_url escape host none = bad_request (lit "invalid request body")
v4_get_signed_artifact_url escape host (some name) =
    signed_url (v4_url escape host (lit "/DownloadArtifact") name)

-- `v4DownloadArtifact`, for a request of a whole file.
unfoldable pub v4_download_artifact : Text → Disk → Reply
v4_download_artifact name d = elim (resolve d (v4_blob_rel name)) [
  | err e ↦ server_error e
  | ok path ↦ elim (lookup path d.files) [ none ↦ not_found | some file ↦ served false file ]
]

-- `v4DeleteArtifact`
unfoldable pub v4_delete_artifact : (Text → ℕ) → Option Text → Disk → Reply × Disk
v4_delete_artifact artifact_name_to_id none d = (bad_request (lit "invalid request body"), d)
v4_delete_artifact artifact_name_to_id (some name) d = (
  artifact_id (artifact_name_to_id name),
  elim (resolve d (v4_blob_rel name)) [
    | err e ↦ d
    | ok path ↦ record d { files = remove_all (dir_of path) d.files }
  ],
)
