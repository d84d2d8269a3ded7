-- ===== src/Cache/Handlers/Samples.antt =====
-- Requests to internal/cacheserver/handlers.go, and the theorem about them.
use mirror_gha.Base.{
  length, All, Text, lit, lookup, ℕ, zero, suc, ◌+◌, ◌<◌, ◌≡◌, refl, sym, ap, ◌∙◌, true, Option,
  some, List, [], ◌∷◌, map, arith, ok,
}
use mirror_gha.Workflow.{pos}
use mirror_gha.Cache.Defs.{Codec, hex}
use mirror_gha.Cache.Handlers.{
  Server, done, blob, status, parse_content_range_start, handle_find, handle_commit,
  handle_download,
}
use mirror_gha.Cache.Handlers.Chunks.{IsSlice, Covers, get_elem?}
use mirror_gha.Cache.Handlers.Protocol.{chunk_of, uploaded, handle_download-commit}

abbrev server : Server
server = record { store = record { index = []; pending = [] }; blobs = [] }

abbrev small_codec : Codec
small_codec = record { encode = λ es. ok (length es ∷ []); decode = λ text. ok [] }

offset_of_range : parse_content_range_start (lit "bytes 12-40/*") ≡ 12
unfolding parse_content_range_start
offset_of_range = refl

clean_miss : status (handle_find (λ k. true) (lit "host") (lit "a,b") (lit "v") server) ≡ 204
unfolding handle_find status
clean_miss = refl

-- The second half comes first.
abbrev halves : List (Text × Text)
halves = (lit "bytes 2-3/*", lit "cd") ∷ (lit "bytes 0-1/*", lit "ab") ∷ []

abbrev file_at : ℕ → Option ℕ
file_at i = get_elem? i (lit "abcd")

-- Two bytes of the file, from an offset.
two_bytes :
    (o i j : ℕ) (a b : ℕ)
    → file_at o ≡ some a
    → file_at (o + 1) ≡ some b
    → j ≡ o + i
    → i < 2
    → get_elem? i (a ∷ b ∷ []) ≡ file_at j
unfolding get_elem?
two_bytes o zero j a b p q e h = sym (ap file_at (omega arith) ∙ p)
two_bytes o (suc zero) j a b p q e h = sym (ap file_at (omega arith) ∙ q)
two_bytes o (suc (suc i)) j a b p q e h = absurd (omega arith)

halves-IsSlice : All (IsSlice (lit "abcd")) (map chunk_of halves)
unfolding parse_content_range_start get_elem?
halves-IsSlice = (
  (omega arith, (λ i j. two_bytes 2 i j b'c' b'd' refl refl)),
  ((omega arith, (λ i j. two_bytes 0 i j b'a' b'b' refl refl)), tt),
)

halves-Covers : (i : ℕ) → i < 4 → Covers (map chunk_of halves) i
unfolding parse_content_range_start
halves-Covers i h = ground arith

handle_download-commit_example :
    ((handle_commit small_codec true 5
        (hex (7 ∷ []))
        (some (pos 4))
        (uploaded (7 ∷ []) (lit "npm") (lit "v") halves server)).0
      ≡ done)
    × (handle_download
          (hex (7 ∷ []))
          (handle_commit small_codec true 5
            (hex (7 ∷ []))
            (some (pos 4))
            (uploaded (7 ∷ []) (lit "npm") (lit "v") halves server)).1
        ≡ blob (lit "abcd"))
unfolding lookup
handle_download-commit_example =
    handle_download-commit small_codec (7 ∷ []) (lit "npm") (lit "v") (pos 4) 5 (1 ∷ [])
      (lit "abcd") halves server refl refl (λ e. cc e) halves-IsSlice halves-Covers
