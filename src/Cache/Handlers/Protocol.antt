-- ===== src/Cache/Handlers/Protocol.antt =====
-- A client of internal/cacheserver/handlers.go: it reserves an id, uploads chunks, commits, and
-- downloads.
use mirror_gha.Base.{
  Bool-cases, length, All, Text, text_eq, text_eq_refl, Map, lookup, lookup-insert, ℕ, ◌<◌, ◌≡◌,
  refl, ap, ◌∙◌, ◌≢◌, inl, inr, true, none, some, List, [], ◌∷◌, ◌++◌, map, ok,
}
use mirror_gha.Workflow.{ℤ}
use mirror_gha.Cache.Defs.{commit, CacheEntry, Codec, Store, hex, get, reserve}
use mirror_gha.Cache.Restore.{entry_of, index_after, commit-reserve}
use mirror_gha.Cache.Handlers.{
  Server, blob, done, or_empty, write_at, parse_content_range_start, handle_reserve, handle_upload,
  handle_commit, handle_download, reserve_response, commit_response,
}
use mirror_gha.Cache.Handlers.Chunks.{Chunk, IsSlice, Covers, write_chunks, write_chunks_complete}

-- Uploads without an I/O error, each with its header and body.
unfoldable pub upload_all : Text → List (Text × Text) → Server → Server
unfolding handle_upload
upload_all id [] s = s
upload_all id ((header, body) ∷ rest) s =
    upload_all id rest (handle_upload true true id header body s).1

abbrev pub chunk_of : Text × Text → Chunk
chunk_of (header, body) = (parse_content_range_start header, body)

store-upload_all :
    (id : Text) (ups : List (Text × Text)) (s : Server) → (upload_all id ups s).store ≡ s.store
unfolding upload_all handle_upload
store-upload_all id [] s = refl
store-upload_all id ((header, body) ∷ rest) s =
    store-upload_all id rest (handle_upload true true id header body s).1

lookup-upload :
    (id header body : Text) (s : Server)
    → lookup id (handle_upload true true id header body s).1.blobs
      ≡ some (write_at (parse_content_range_start header) body (or_empty (lookup id s.blobs)))
unfolding handle_upload
lookup-upload id header body s = lookup-insert id id _ s.blobs ∙ rw (text_eq_refl id) refl

lookup-upload_all :
    (id : Text) (ups : List (Text × Text)) (s : Server) (f : Text)
    → lookup id s.blobs ≡ some f
    → lookup id (upload_all id ups s).blobs ≡ some (write_chunks (map chunk_of ups) f)
unfolding upload_all
lookup-upload_all id [] s f h = h
lookup-upload_all id ((header, body) ∷ rest) s f h =
    lookup-upload_all id rest (handle_upload true true id header body s).1 _ (
      lookup-upload id header body s
      ∙ ap (λ o. some (write_at (parse_content_range_start header) body (or_empty o))) h)

get_last :
    (es : List CacheEntry) (e : CacheEntry) (pending : Map CacheEntry)
    → (x : CacheEntry) × (get e.id (record { index = es ++ e ∷ []; pending = pending }) ≡ some x)
unfolding get
get_last [] e pending = (e, rw (text_eq_refl e.id) refl)
get_last (x ∷ es) e pending = elim (Bool-cases (text_eq x.id e.id)) [
  | inl h ↦ (x, rw h refl)
  | inr h ↦ let (y, q) = get_last es e pending in (y, rw h q)
]

-- The id reserved, the chunks uploaded.
abbrev pub uploaded : List ℕ → Text → Text → List (Text × Text) → Server → Server
uploaded bytes key version ups s =
    upload_all (hex bytes) ups (handle_reserve (some (key, version)) (some bytes) s).1

store-uploaded :
    (bytes : List ℕ) (key version : Text) (ups : List (Text × Text)) (s : Server)
    → (uploaded bytes key version ups s).store ≡ (reserve (some bytes) key version s.store).1
unfolding handle_reserve reserve_response reserve
store-uploaded bytes key version ups s = store-upload_all (hex bytes) ups _

lookup-uploaded :
    (bytes : List ℕ) (key version header body : Text) (rest : List (Text × Text)) (s : Server)
    → lookup (hex bytes) s.blobs ≡ none
    → lookup (hex bytes) (uploaded bytes key version ((header, body) ∷ rest) s).blobs
      ≡ some (write_chunks (map chunk_of ((header, body) ∷ rest)) [])
unfolding handle_reserve reserve_response reserve upload_all
lookup-uploaded bytes key version header body rest s fresh =
    let ready : Server = (handle_reserve (some (key, version)) (some bytes) s).1 in
    lookup-upload_all (hex bytes) rest (handle_upload true true (hex bytes) header body ready).1
      (write_at (parse_content_range_start header) body [])
      (lookup-upload (hex bytes) header body ready
        ∙ ap (λ o. some (write_at (parse_content_range_start header) body (or_empty o))) fresh)

handle_commit-done :
    (codec : Codec) (now : ℕ) (id : Text) (size : ℤ) (u : Server) {text : Text} {st : Store}
    → commit codec true now id size u.store ≡ (ok text, st)
    → handle_commit codec true now id (some size) u ≡ (done, record u { store = st })
unfolding handle_commit commit_response
handle_commit-done codec now id size u h = ap (λ r. commit_response r u) h

handle_download-blob :
    (id : Text) (s : Server) {x : CacheEntry} {file : Text}
    → get id s.store ≡ some x
    → lookup id s.blobs ≡ some file
    → handle_download id s ≡ blob file
unfolding handle_download
handle_download-blob id s there stored = rw (there, stored, handle_download) refl

-- An id that is reserved and has no blob yet; uploads, at least one, whose chunks are parts of a
-- file and cover it, in whatever order; and a commit whose index reaches the disk: the commit
-- succeeds, and a download of the id then gives the file.
pub handle_download-commit :
    (codec : Codec) (bytes : List ℕ) (key version : Text) (size : ℤ) (now : ℕ) (text file : Text)
    (ups : List (Text × Text)) (s : Server)
    → codec.encode (index_after (entry_of bytes key version size now) s.store) ≡ ok text
    → lookup (hex bytes) s.blobs ≡ none
    → ups ≢ []
    → All (IsSlice file) (map chunk_of ups)
    → ((i : ℕ) → i < length file → Covers (map chunk_of ups) i)
    → ((handle_commit codec true now (hex bytes) (some size) (uploaded bytes key version ups s)).0
        ≡ done)
      × (handle_download
            (hex bytes)
            (handle_commit codec true now
              (hex bytes)
              (some size)
              (uploaded bytes key version ups s)).1
          ≡ blob file)
handle_download-commit codec bytes key version size now text file [] s w f full h c =
    absurd (full refl)
handle_download-commit codec bytes key version size now text file (up ∷ rest) s w f full h c =
    let ups = up ∷ rest in
    let u = uploaded bytes key version ups s in
    let (pending, written) = commit-reserve codec bytes key version size now s.store text w in
    let (x, there) = get_last s.store.index (entry_of bytes key version size now) pending in
    let whole = write_chunks_complete (map chunk_of ups) file h c in
    let handled = handle_commit-done codec now (hex bytes) size u (
      ap (λ st. commit codec true now (hex bytes) size st) (store-uploaded bytes key version ups s)
      ∙ written) in
    (
      ap (λ r. r.0) handled,
      ap (λ r. handle_download (hex bytes) r.1) handled
          ∙ handle_download-blob (hex bytes) _ there
              (lookup-uploaded bytes key version up.0 up.1 rest s f ∙ ap some whole),
    )
