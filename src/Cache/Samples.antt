-- ===== src/Cache/Samples.antt =====
-- internal/cacheserver/store.go on a small store, and the theorems about it at it.
use mirror_gha.Base.{
  if◌then◌else◌, length, Text, lit, text_eq, has_prefix, sort_slice, ℕ, ◌≡◌, refl, true, some, [],
  ◌∷◌, arith, ok,
}
use mirror_gha.Workflow.{pos}
use mirror_gha.Cache.Defs.{Codec, commit, reserve, hex, CacheEntry, Store, find}
use mirror_gha.Cache.Restore.{entry_of, index_after, Restored, commit-reserve_find}
use mirror_gha.Cache.Find.{Answers, find_lem}

abbrev entry : Text → ℕ → CacheEntry
entry key now = record { id = key; key = key; version = lit "v"; size = pos 3; created_at = now }

abbrev store : Store
store = record { index = entry (lit "npm-1") 5 ∷ entry (lit "npm-2") 7 ∷ []; pending = [] }

restores_newest :
    find (λ k. true) (lit "npm-3" ∷ lit "npm-" ∷ []) (lit "v") store
    ≡ ok (some (entry (lit "npm-2") 7))
unfolding find text_eq has_prefix sort_slice
restores_newest = refl

find_example :
    Answers
      (λ k. true)
      (lit "npm-3" ∷ lit "npm-" ∷ [])
      (lit "v")
      store
      (find (λ k. true) (lit "npm-3" ∷ lit "npm-" ∷ []) (lit "v") store)
find_example = find_lem (λ k. true) (lit "npm-3" ∷ lit "npm-" ∷ []) (lit "v") store

abbrev next_entry : CacheEntry
next_entry = entry_of (0x1f ∷ []) (lit "npm-3") (lit "v") (pos 9) 8

-- A codec for the indexes up to the one with `next_entry`: it writes how many entries there are.
abbrev count_codec : Codec
count_codec = record {
  encode = λ es. ok (length es ∷ []);
  decode = λ text.
      if text_eq text (3 ∷ [])
      then ok (index_after next_entry store)
      else if text_eq text (2 ∷ [])
      then ok store.index
      else ok [];
}

commit-reserve_find_example :
    (s' : Store) × (commit count_codec true 8
        (hex (0x1f ∷ []))
        (pos 9)
        (reserve (some (0x1f ∷ [])) (lit "npm-3") (lit "v") store).1
      ≡ (ok (3 ∷ []), s'))
    × (s'.index ≡ index_after next_entry store)
    × Restored (λ k. true) count_codec next_entry (lit "npm-" ∷ []) (3 ∷ []) s'
unfolding text_eq
commit-reserve_find_example =
    commit-reserve_find (λ k. true) count_codec (0x1f ∷ []) (lit "npm-3") (lit "v") (pos 9) 8 store
      (lit "npm-" ∷ []) (3 ∷ []) refl refl (omega arith, (omega arith, tt))
