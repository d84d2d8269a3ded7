-- ===== src/Cache/Handlers.antt =====
-- internal/cacheserver/handlers.go: the requests as steps on the store and on the blobs on disk. A
-- blob is kept by its id, which is a plain file name. What decodes a body, and whether a file can be
-- opened, are arguments.
pub mod Chunks
pub mod Protocol
mod Samples
use mirror_gha.Base.{
  ltb, leb, ◌==◌, if◌then◌else◌, Text, lit, text_eq, has_prefix, Map, lookup, insert, keys, Result,
  split_rest, split, trim_prefix, ℕ, zero, suc, ◌+◌, ◌-◌, ◌*◌, ◌^◌, Bool, not, ◌&&◌, Option, none,
  some, List, [], ◌∷◌, ◌++◌, ok, err,
}
use mirror_gha.Workflow.{ℤ}
use mirror_gha.Cache.Defs.{CacheEntry, Codec, Store, StoreError, find, reserve, commit, get}

pub record Server : Type 0 where
  pub store : Store
  pub blobs : Map Text

pub data Response : Type 0 where
  bad_request : Text → Response
  server_error : StoreError → Response
  file_error no_content done not_found : Response
  found : (cache_key archive_location : Text) → Response
  reserved : (cache_id : Text) → Response
  blob : Text → Response

unfoldable pub status : Response → ℕ
status (bad_request message) = 400
status (server_error e) = 500
status file_error = 500
status no_content = 204
status not_found = 404
status _ = 200

abbrev archive_location : Text → Text → Text
archive_location host id = lit "http://" ++ (host ++ (lit "/_apis/artifactcache/artifacts/" ++ id))

find_response : Text → Result StoreError (Option CacheEntry) → Response
find_response host (err e) = server_error e
find_response host (ok none) = no_content
find_response host (ok (some entry)) = found entry.key (archive_location host entry.id)

-- `handleFind`, with the query's `keys` and `version`.
unfoldable pub handle_find : (Text → Bool) → (host keys version : Text) → Server → Response
unfolding find_response find split text_eq
handle_find is_utf8 host keys version s =
    if text_eq keys []
    then bad_request (lit "keys query parameter is required")
    else find_response host (find is_utf8 (split b',' keys) version s.store)

unfoldable pub reserve_response : Result StoreError Text × Store → Server → Response × Server
reserve_response (ok id, store) s = (reserved id, record s { store = store })
reserve_response (err e, store) s = (server_error e, record s { store = store })

-- `handleReserve`; the request is `none` for a body that is no JSON of its form.
unfoldable pub handle_reserve : Option (Text × Text) → Option (List ℕ) → Server → Response × Server
unfolding reserve_response reserve
handle_reserve none bytes s = (bad_request (lit "invalid request body"), s)
handle_reserve (some (key, version)) bytes s =
    reserve_response (reserve bytes key version s.store) s

-- `strconv.ParseInt(s, 10, 64)` for a text without a minus sign; `none` is an error.
unfoldable pub parse_digits : ℕ → Text → Option ℕ
parse_digits n [] = some n
parse_digits n (c ∷ s) =
    if leb b'0' c && leb c b'9' then parse_digits (n * 10 + (c - b'0')) s else none

abbrev in_int64 : Option ℕ → Option ℕ
in_int64 none = none
in_int64 (some n) = if ltb n (2 ^ 63) then some n else none

unfoldable pub parse_int : Text → Option ℕ
unfolding parse_digits
parse_int [] = none
parse_int (c ∷ s) =
    if c == b'+'
    then (if text_eq s [] then none else in_int64 (parse_digits 0 s))
    else in_int64 (parse_digits 0 (c ∷ s))

-- `parseContentRangeStart`
unfoldable pub parse_content_range_start : Text → ℕ
unfolding trim_prefix has_prefix split_rest parse_int
parse_content_range_start header =
    elim (parse_int (split_rest b'-' (trim_prefix header (lit "bytes "))).0) [
      | none ↦ 0
      | some n ↦ n
    ]

-- `Seek` and then the writes: a gap behind the end is filled with zeros.
unfoldable pub write_at : ℕ → Text → Text → Text
write_at offset [] file = file
write_at zero (c ∷ bytes) [] = c ∷ bytes
write_at zero (c ∷ bytes) (x ∷ file) = c ∷ write_at zero bytes file
write_at (suc offset) (c ∷ bytes) [] = 0 ∷ write_at offset (c ∷ bytes) []
write_at (suc offset) (c ∷ bytes) (x ∷ file) = x ∷ write_at offset (c ∷ bytes) file

abbrev pub or_empty : Option Text → Text
or_empty none = []
or_empty (some file) = file

-- `handleUpload`; `complete` is false where the copy ends with an error behind the bytes received.
unfoldable pub handle_upload :
    (opens complete : Bool) → (id header received : Text) → Server → Response × Server
unfolding write_at parse_content_range_start insert lookup
handle_upload opens complete id header received s = if not opens then (file_error, s) else (
  (if complete then done else file_error),
  record s {
    blobs =
        insert id
          (write_at (parse_content_range_start header) received (or_empty (lookup id s.blobs)))
          s.blobs;
  },
)

unfoldable pub commit_response : Result StoreError Text × Store → Server → Response × Server
commit_response (ok text, store) s = (done, record s { store = store })
commit_response (err e, store) s = (server_error e, record s { store = store })

-- `handleCommit`
unfoldable pub handle_commit : Codec → Bool → ℕ → Text → Option ℤ → Server → Response × Server
unfolding commit_response commit
handle_commit codec wrote now id none s = (bad_request (lit "invalid request body"), s)
handle_commit codec wrote now id (some size) s =
    commit_response (commit codec wrote now id size s.store) s

-- `handleDownload`, for a request of the whole file.
unfoldable pub handle_download : Text → Server → Response
unfolding get lookup
handle_download id s = elim (get id s.store) [
  | none ↦ not_found
  | some entry ↦ elim (lookup id s.blobs) [ none ↦ not_found | some file ↦ blob file ]
]

-- `handleClean`
unfoldable pub handle_clean : Server → Response × Server
handle_clean s = (done, s)
