-- ===== src/Cache/Defs.antt =====
-- internal/cacheserver/store.go. What the disk, the clock and the random generator answer are
-- arguments; the mutex makes each method one step.
use mirror_gha.Base.{
  ltb, if◌then◌else◌, keep, Text, text_eq, has_prefix, Map, lookup, insert, delete, sort_slice,
  Result, ◌>>=◌, ℕ, ◌+◌, ◌-◌, ◌/◌, ◌%◌, Bool, ◌&&◌, Option, none, some, List, [], ◌∷◌, ◌++◌, ok,
  err,
}
use mirror_gha.Workflow.{ℤ, pos}

pub record CacheEntry : Type 0 where
  pub id : Text
  pub key : Text
  pub version : Text
  pub size : ℤ
  pub created_at : ℕ

-- `json.MarshalIndent` and `json.Unmarshal` on the index.
pub record Codec : Type 0 where
  pub encode : List CacheEntry → Result Text Text
  pub decode : Text → Result Text (List CacheEntry)

pub record Store : Type 0 where
  pub index : List CacheEntry
  pub pending : Map CacheEntry

pub data StoreError : Type 0 where
  create_dir read_index generate_id write_index : StoreError
  parse_index marshal_index : Text → StoreError
  unknown_id : Text → StoreError
  compile_pattern : Text → StoreError

-- What `os.ReadFile` answers.
pub data FileRead : Type 0 where
  contents : Text → FileRead
  not_exist failed : FileRead

unfoldable pub opened : Result Text (List CacheEntry) → Result StoreError Store
opened (ok index) = ok (record { index = index; pending = [] })
opened (err e) = err (parse_index e)

unfoldable pub read_store : Codec → FileRead → Result StoreError Store
unfolding opened
read_store codec (contents text) = opened (codec.decode text)
read_store codec not_exist = ok (record { index = []; pending = [] })
read_store codec failed = err read_index

unfoldable pub open_store : Codec → (made_dir : Bool) → FileRead → Result StoreError Store
unfolding read_store
open_store codec made_dir index_file =
    if made_dir then read_store codec index_file else err create_dir

-- `hex.EncodeToString`
abbrev hex_digit : ℕ → ℕ
hex_digit n = if ltb n 10 then n + b'0' else n - 10 + b'a'

unfoldable pub hex : List ℕ → Text
hex [] = []
hex (b ∷ bs) = hex_digit (b / 16) ∷ hex_digit (b % 16) ∷ hex bs

unfoldable pub reserve : Option (List ℕ) → Text → Text → Store → Result StoreError Text × Store
unfolding hex insert
reserve none key version s = (err generate_id, s)
reserve (some bytes) key version s =
    let id = hex bytes in
    let entry : CacheEntry = record {
      id = id;
      key = key;
      version = version;
      size = pos 0;
      created_at = 0;
    } in
    (ok id, record s { pending = insert id entry s.pending })

unfoldable pub written : Bool → Result Text Text → Store → Result StoreError Text × Store
written wrote (err e) s = (err (marshal_index e), s)
written wrote (ok text) s = (if wrote then ok text else err write_index, s)

unfoldable pub commit_entry :
    Codec → Bool → ℕ → ℤ → CacheEntry → Text → Store → Result StoreError Text × Store
unfolding written delete
commit_entry codec wrote now size entry id s =
    let entry' = record entry { size = size; created_at = now } in
    let s' : Store = record { index = s.index ++ entry' ∷ []; pending = delete id s.pending } in
    written wrote (codec.encode s'.index) s'

-- `Commit`; a success gives the text that the index file holds from then on.
unfoldable pub commit : Codec → Bool → ℕ → Text → ℤ → Store → Result StoreError Text × Store
unfolding commit_entry lookup
commit codec wrote now id size s = elim (lookup id s.pending) [
  | none ↦ (err (unknown_id id), s)
  | some entry ↦ commit_entry codec wrote now size entry id s
]

-- `CreatedAt.After`, the order of both `sort.Slice` calls.
abbrev pub later : CacheEntry → CacheEntry → Bool
later a b = ltb b.created_at a.created_at

abbrev pub first : List CacheEntry → Option CacheEntry
first [] = none
first (e ∷ es) = some e

unfoldable pub newest : List CacheEntry → Option CacheEntry
unfolding sort_slice
newest es = first (sort_slice later es)

abbrev pub is_exact : Text → Text → CacheEntry → Bool
is_exact key version e = text_eq e.key key && text_eq e.version version

-- `pattern.MatchString` for the anchored and quoted key: a prefix test.
abbrev pub is_prefixed : Text → Text → CacheEntry → Bool
is_prefixed key version e = text_eq e.version version && has_prefix e.key key

-- `utf8.ValidString`: `regexp.Compile` refuses other patterns.
module _ (is_utf8 : Text → Bool) where
  unfoldable pub find_prefixed : Text → Text → Store → Result StoreError (Option CacheEntry)
  unfolding newest
  find_prefixed key version s =
      if is_utf8 key
      then ok (newest (keep (is_prefixed key version) s.index))
      else err (compile_pattern key)

  -- One round of the loop over the keys: `none` moves on to the next key.
  unfoldable pub find_key : Text → Text → Store → Result StoreError (Option CacheEntry)
  unfolding find_prefixed newest
  find_key key version s = elim (newest (keep (is_exact key version) s.index)) [
    | some e ↦ ok (some e)
    | none ↦ find_prefixed key version s
  ]

  unfoldable pub find : List Text → Text → Store → Result StoreError (Option CacheEntry)
  unfolding find_key
  find [] version s = ok none
  find (key ∷ ks) version s =
      let rest = find ks version s in
      find_key key version s >>= λ found. elim found [ none ↦ rest | some e ↦ ok (some e) ]

unfoldable pub get_from : Text → List CacheEntry → Option CacheEntry
get_from id [] = none
get_from id (e ∷ es) = if text_eq e.id id then some e else get_from id es

unfoldable pub get : Text → Store → Option CacheEntry
unfolding get_from
get id s = get_from id s.index
