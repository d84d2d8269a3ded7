-- ===== src/Cache/Find.antt =====
-- `Find` of internal/cacheserver/store.go: the entry that a restore gets.
use mirror_gha.Base.{
  Bool-cases, Option-cases, keep, All, All-map, In, Text, keys, sort_insert, sort_slice, Result,
  ◌>>=◌, ◌≤◌, ◌≡◌, refl, sym, ap, subst, ◌⊎◌, inl, inr, Bool, true, false, Option, none, some, List,
  [], ◌∷◌, ◌++◌, arith, ok, err,
}
use mirror_gha.Cache.Defs.{
  CacheEntry, Store, StoreError, compile_pattern, later, first, newest, is_exact, is_prefixed,
  find_prefixed, find_key, find,
}

-- `e` is one of the entries, and none of them is newer.
pub record IsNewest (es : List CacheEntry) (e : CacheEntry) : Type 0 where
  pub stored : In e es
  pub no_later : All (λ x. x.created_at ≤ e.created_at) es

abbrev pub Heads : Option CacheEntry → List CacheEntry → Type 0
Heads none es = es ≡ []
Heads (some e) es = IsNewest es e

IsNewest-cons :
    (a e : CacheEntry) (es : List CacheEntry)
    → IsNewest es e
    → later a e ≡ false
    → IsNewest (a ∷ es) e
IsNewest-cons a e es n h = record { stored = inr n.stored; no_later = (ground arith, n.no_later) }

IsNewest-self :
    (a e : CacheEntry) (es : List CacheEntry)
    → IsNewest es e
    → later a e ≡ true
    → IsNewest (a ∷ es) a
IsNewest-self a e es n h = record {
  stored = inl refl;
  no_later = (omega arith, All-map es (λ x le. ground arith) n.no_later);
}

Heads-sort_insert :
    (a : CacheEntry) (sorted es : List CacheEntry)
    → Heads (first sorted) es
    → Heads (first (sort_insert later a sorted)) (a ∷ es)
unfolding sort_insert
Heads-sort_insert a [] es h = rw h (record { stored = inl refl; no_later = (omega arith, tt) })
Heads-sort_insert a (x ∷ xs) es h = elim (Bool-cases (later a x)) [
  | inl e ↦ rw e (IsNewest-self a x es h e)
  | inr e ↦ rw e (IsNewest-cons a x es h e)
]

Heads-sort_slice : (es : List CacheEntry) → Heads (first (sort_slice later es)) es
unfolding sort_slice
Heads-sort_slice [] = refl
Heads-sort_slice (a ∷ es) = Heads-sort_insert a (sort_slice later es) es (Heads-sort_slice es)

pub Heads-newest : (es : List CacheEntry) → Heads (newest es) es
unfolding newest
Heads-newest es = Heads-sort_slice es

keep-nil :
    (p : CacheEntry → Bool) (es : List CacheEntry) → keep p es ≡ [] → All (λ x. p x ≡ false) es
keep-nil p [] h = tt
keep-nil p (e ∷ es) h = elim (Bool-cases (p e)) [
  | inl q ↦ cc (rw q at h)
  | inr q ↦ (q, keep-nil p es (rw q at h))
]

-- No stored entry of the version has a key that begins with `key`.
abbrev pub Misses : Text → Store → Text → Type 0
Misses version s key = All (λ x. is_prefixed key version x ≡ false) s.index

-- `e` is what the keys restore: for the first of them that any entry answers, the newest entry with
-- exactly that key, and only where there is none, the newest entry whose key begins with it.
pub record Restores (keys : List Text) (version : Text) (s : Store) (e : CacheEntry) : Type 0 where
  pub before : List Text
  pub key : Text
  pub after : List Text
  pub split : keys ≡ before ++ key ∷ after
  pub earlier_miss : All (Misses version s) before
  pub choice :
      IsNewest (keep (is_exact key version) s.index) e
      ⊎ All (λ x. is_exact key version x ≡ false) s.index
        × IsNewest (keep (is_prefixed key version) s.index) e

module _ (is_utf8 : Text → Bool) where
  abbrev pub Answers : List Text → Text → Store → Result StoreError (Option CacheEntry) → Type 0
  Answers keys version s (ok (some e)) = Restores keys version s e
  Answers keys version s (ok none) = All (Misses version s) keys
  Answers keys version s (err (compile_pattern key)) = In key keys × (is_utf8 key ≡ false)
  Answers keys version s (err _) = ⊥

  abbrev Round : Text → Text → Store → Result StoreError (Option CacheEntry) → Type 0
  Round key version s (ok (some e)) =
      IsNewest (keep (is_exact key version) s.index) e
      ⊎ All (λ x. is_exact key version x ≡ false) s.index
        × IsNewest (keep (is_prefixed key version) s.index) e
  Round key version s (ok none) = Misses version s key
  Round key version s (err (compile_pattern k)) = (k ≡ key) × (is_utf8 key ≡ false)
  Round key version s (err _) = ⊥

  Round-find_prefixed :
      (key version : Text) (s : Store)
      → All (λ x. is_exact key version x ≡ false) s.index
      → Round key version s (find_prefixed is_utf8 key version s)
  unfolding find_prefixed
  Round-find_prefixed key version s no_exact = elim (Bool-cases (is_utf8 key)) [
    | inl valid ↦ rw valid (found (newest es) (Heads-newest es))
    | inr invalid ↦ rw invalid (refl, invalid)
  ]
    where
      es : List CacheEntry
      es = keep (is_prefixed key version) s.index

      found : (o : Option CacheEntry) → Heads o es → Round key version s (ok o)
      found none h = keep-nil (is_prefixed key version) s.index h
      found (some e) h = inr (no_exact, h)

  find_key-Round :
      (key version : Text) (s : Store) → Round key version s (find_key is_utf8 key version s)
  unfolding find_key
  find_key-Round key version s =
      let es = keep (is_exact key version) s.index in
      let at_newest = Heads-newest es in
      elim (Option-cases (newest es)) [
        | inl q ↦
            rw (q, find_key)
              (Round-find_prefixed key version s
                (keep-nil (is_exact key version) s.index (subst (λ o. Heads o es) q at_newest)))
        | inr (e, q) ↦ rw (q, find_key) (inl (subst (λ o. Heads o es) q at_newest))
      ]

  Restores-cons :
      (k : Text) (ks : List Text) (version : Text) (s : Store) (e : CacheEntry)
      → Misses version s k
      → Restores ks version s e
      → Restores (k ∷ ks) version s e
  Restores-cons k ks version s e miss r = record {
    before = k ∷ r.before;
    key = r.key;
    after = r.after;
    split = ap (λ (l : List Text). k ∷ l) r.split;
    earlier_miss = (miss, r.earlier_miss);
    choice = r.choice;
  }

  Answers-cons :
      (k : Text) (ks : List Text) (version : Text) (s : Store)
      (r : Result StoreError (Option CacheEntry))
      → Misses version s k
      → Answers ks version s r
      → Answers (k ∷ ks) version s r
  Answers-cons k ks version s (ok (some e)) miss a = Restores-cons k ks version s e miss a
  Answers-cons k ks version s (ok none) miss a = (miss, a)
  Answers-cons k ks version s (err (compile_pattern j)) miss a = (inr a.0, a.1)
  Answers-cons k ks version s (err _) miss a = a

  Answers-Round :
      (k : Text) (ks : List Text) (version : Text) (s : Store)
      (r rest : Result StoreError (Option CacheEntry))
      → Round k version s r
      → Answers ks version s rest
      → Answers
          (k ∷ ks)
          version
          s
          (r >>= λ found. elim found [ none ↦ rest | some e ↦ ok (some e) ])
  Answers-Round k ks version s (ok none) rest round a = Answers-cons k ks version s rest round a
  Answers-Round k ks version s (ok (some e)) rest round a = record {
    before = [];
    key = k;
    after = ks;
    split = refl;
    earlier_miss = tt;
    choice = round;
  }
  Answers-Round k ks version s (err (compile_pattern j)) rest round a =
      (inl (sym round.0), subst (λ i. is_utf8 i ≡ false) (sym round.0) round.1)
  Answers-Round k ks version s (err _) rest round a = round

  -- What `Find` answers, on every path. An entry: what the keys restore. No entry: none of the keys
  -- is the beginning of the key of a stored entry of the version. An error: it names one of the keys,
  -- which is not valid UTF-8.
  pub find_lem :
      (keys : List Text) (version : Text) (s : Store)
      → Answers keys version s (find is_utf8 keys version s)
  unfolding find
  find_lem [] version s = tt
  find_lem (k ∷ ks) version s =
      Answers-Round k ks version s (find_key is_utf8 k version s) (find is_utf8 ks version s)
        (find_key-Round k version s) (find_lem ks version s)
