-- ===== src/Cache/Restore.antt =====
-- `Reserve`, `Commit` and then `Find` of internal/cacheserver/store.go, in the same process and in
-- the next one.
use mirror_gha.Base.{
  Option-cases, keep, All, In, In-append_right, In-append, All-In, In-keep, In-of_keep, Text,
  text_eq_refl, Map, lookup, insert, delete, lookup-insert, ℕ, ◌≤◌, ◌<◌, ◌≡◌, refl, sym, ap, ◌∙◌,
  subst, inl, inr, Bool, true, some, List, [], ◌∷◌, ◌++◌, arith, ok,
}
use mirror_gha.Workflow.{ℤ, pos}
use mirror_gha.Cache.Defs.{
  CacheEntry, Codec, Store, open_store, read_store, opened, reserve, commit, commit_entry, written,
  hex, contents, newest, find, find_key, is_exact,
}
use mirror_gha.Cache.Find.{IsNewest, Heads, Heads-newest}

abbrev pub entry_of : List ℕ → Text → Text → ℤ → ℕ → CacheEntry
entry_of bytes key version size now = record {
  id = hex bytes;
  key = key;
  version = version;
  size = size;
  created_at = now;
}

abbrev pub index_after : CacheEntry → Store → List CacheEntry
index_after e s = s.index ++ e ∷ []

pub commit-reserve :
    (codec : Codec) (bytes : List ℕ) (key version : Text) (size : ℤ) (now : ℕ) (s : Store)
    (text : Text)
    → codec.encode (index_after (entry_of bytes key version size now) s) ≡ ok text
    → (pending : Map CacheEntry) × (commit codec true now
          (hex bytes)
          size
          (reserve (some bytes) key version s).1
        ≡ (
          ok text,
          record { index = index_after (entry_of bytes key version size now) s; pending = pending },
        ))
unfolding commit reserve commit_entry
commit-reserve codec bytes key version size now s text h =
    let e : CacheEntry = record {
      id = hex bytes;
      key = key;
      version = version;
      size = pos 0;
      created_at = 0;
    } in
    let there : lookup (hex bytes) (insert (hex bytes) e s.pending) ≡ some e =
      lookup-insert (hex bytes) (hex bytes) e s.pending ∙ rw (text_eq_refl (hex bytes)) refl in
    (
      delete (hex bytes) (insert (hex bytes) e s.pending),
      rw (there, h, commit, reserve, commit_entry, written) refl,
    )

newest_at_end :
    (p : CacheEntry → Bool) (es : List CacheEntry) (e : CacheEntry)
    → p e ≡ true
    → All (λ x. x.created_at < e.created_at) es
    → newest (keep p (es ++ e ∷ [])) ≡ some e
newest_at_end p es e hit older =
    let kept = keep p (es ++ e ∷ []) in
    let inside = In-of_keep p e (es ++ e ∷ []) (In-append_right e es (e ∷ []) (inl refl)) hit in
    elim (Option-cases (newest kept)) [
      | inl q ↦
          let nil : kept ≡ [] = subst (λ o. Heads o kept) q (Heads-newest kept) in
          let gone : In e [] = subst (λ l. In e l) nil inside in absurd gone
      | inr (e', q) ↦
          let n : IsNewest kept e' = subst (λ o. Heads o kept) q (Heads-newest kept) in
          let not_older = All-In (λ x. x.created_at ≤ e'.created_at) kept e n.no_later inside in
          elim (In-append e' es (e ∷ []) (In-keep p e' (es ++ e ∷ []) n.stored).0) [
            | inl m ↦
                let less = All-In (λ x. x.created_at < e.created_at) es e' older m in
                absurd (omega (arith, less, not_older))
            | inr m ↦ elim m [ inl same ↦ q ∙ ap some (sym same) | inr gone ↦ absurd gone ]
          ]
    ]

find-newest :
    (is_utf8 : Text → Bool) (e : CacheEntry) (more : List Text) (s : Store)
    → All (λ x. x.created_at < e.created_at) s.index
    → (pending : Map CacheEntry)
    → find is_utf8 (e.key ∷ more) e.version (record { index = index_after e s; pending = pending })
      ≡ ok (some e)
unfolding find find_key
find-newest is_utf8 e more s older pending =
    let hit : is_exact e.key e.version e ≡ true =
      rw (text_eq_refl e.key, text_eq_refl e.version) refl in
    rw (newest_at_end (is_exact e.key e.version) s.index e hit older, find_key) refl

module _ (is_utf8 : Text → Bool) (codec : Codec) where
  -- What the store answers for a key and version just committed, now and after it is opened again.
  abbrev pub Restored : CacheEntry → List Text → Text → Store → Type 0
  Restored e more text s =
      (find is_utf8 (e.key ∷ more) e.version s ≡ ok (some e))
      × ((reopened : Store) × (open_store codec true (contents text) ≡ ok reopened)
          × (find is_utf8 (e.key ∷ more) e.version reopened ≡ ok (some e)))

  -- A reservation and then a commit of its id, where the index is written and read back by the codec
  -- and the clock is past all stored entries: the commit succeeds, the entry stands last in the
  -- index, and Find gives it for its key and version, in this store and in the store that is opened
  -- from the file written, whatever other keys follow.
  pub commit-reserve_find :
      (bytes : List ℕ) (key version : Text) (size : ℤ) (now : ℕ) (s : Store) (more : List Text)
      (text : Text)
      → codec.encode (index_after (entry_of bytes key version size now) s) ≡ ok text
      → codec.decode text ≡ ok (index_after (entry_of bytes key version size now) s)
      → All (λ x. x.created_at < now) s.index
      → (s' : Store) × (commit codec true now
            (hex bytes)
            size
            (reserve (some bytes) key version s).1
          ≡ (ok text, s'))
        × (s'.index ≡ index_after (entry_of bytes key version size now) s)
        × Restored (entry_of bytes key version size now) more text s'
  unfolding open_store read_store opened
  commit-reserve_find bytes key version size now s more text encoded decoded older =
      let e = entry_of bytes key version size now in
      let (pending, done) = commit-reserve codec bytes key version size now s text encoded in
      (
        record { index = index_after e s; pending = pending },
        done,
        refl,
        (
          find-newest is_utf8 e more s older pending,
          (
            record { index = index_after e s; pending = [] },
            rw decoded refl,
            find-newest is_utf8 e more s older [],
          ),
        ),
      )
