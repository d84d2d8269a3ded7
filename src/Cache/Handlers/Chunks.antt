-- ===== src/Cache/Handlers/Chunks.antt =====
-- Chunked uploads of internal/cacheserver/handlers.go: the order of the chunks does not matter.
use mirror_gha.Base.{
  length, All, Text, ℕ, zero, suc, ◌+◌, ◌-◌, ◌≤◌, ◌<◌, ◌≡◌, refl, sym, ap, ◌∙◌, ◌⊎◌, inl, inr,
  Option, none, some, List, [], ◌∷◌, arith,
}
use mirror_gha.Cache.Handlers.{write_at}

-- The byte at a position.
unfoldable pub get_elem? : ℕ → Text → Option ℕ
get_elem? i [] = none
get_elem? zero (x ∷ xs) = some x
get_elem? (suc i) (x ∷ xs) = get_elem? i xs

get_elem-ext :
    (f g : Text)
    → length f ≤ length g
    → ((i : ℕ) → i < length g → get_elem? i f ≡ get_elem? i g)
    → f ≡ g
unfolding get_elem?
get_elem-ext [] [] le h = refl
get_elem-ext [] (y ∷ g) le h = cc (h 0 (omega arith))
get_elem-ext (x ∷ f) [] le h = absurd (omega arith)
get_elem-ext (x ∷ f) (y ∷ g) le h =
    let head = h 0 (omega arith) in
    ground (arith, head, get_elem-ext f g (omega arith) (λ i less. h (suc i) (omega arith)))

get_elem-some : (i : ℕ) (g : Text) → i < length g → (x : ℕ) × (get_elem? i g ≡ some x)
unfolding get_elem?
get_elem-some i [] h = absurd (omega arith)
get_elem-some zero (x ∷ g) h = (x, refl)
get_elem-some (suc i) (x ∷ g) h = get_elem-some i g (omega arith)

length-write_at :
    (n o : ℕ) (c f : Text) → o + length c ≤ n → length f ≤ n → length (write_at o c f) ≤ n
unfolding write_at
length-write_at n o [] f a b = b
length-write_at n zero (c ∷ cs) [] a b = omega arith
length-write_at zero zero (c ∷ cs) (x ∷ f) a b = absurd (omega arith)
length-write_at (suc n) zero (c ∷ cs) (x ∷ f) a b =
    omega (arith, length-write_at n zero cs f (omega arith) (omega arith))
length-write_at zero (suc o) (c ∷ cs) f a b = absurd (omega arith)
length-write_at (suc n) (suc o) (c ∷ cs) [] a b =
    omega (arith, length-write_at n o (c ∷ cs) [] (omega arith) (omega arith))
length-write_at (suc n) (suc o) (c ∷ cs) (x ∷ f) a b =
    omega (arith, length-write_at n o (c ∷ cs) f (omega arith) (omega arith))

-- Inside the chunk the file has the chunk's bytes.
get_elem-write_at :
    (i j o : ℕ) (c f : Text)
    → j ≡ o + i
    → i < length c
    → get_elem? j (write_at o c f) ≡ get_elem? i c
unfolding write_at get_elem?
get_elem-write_at i j o [] f e h = absurd (omega arith)
get_elem-write_at i j zero (c ∷ cs) [] e h = ap (λ k. get_elem? k (c ∷ cs)) (omega arith)
get_elem-write_at zero zero zero (c ∷ cs) (x ∷ f) e h = refl
get_elem-write_at zero (suc j) zero (c ∷ cs) (x ∷ f) e h = absurd (omega arith)
get_elem-write_at (suc i) zero zero (c ∷ cs) (x ∷ f) e h = absurd (omega arith)
get_elem-write_at (suc i) (suc j) zero (c ∷ cs) (x ∷ f) e h =
    get_elem-write_at i j zero cs f (omega arith) (omega arith)
get_elem-write_at i zero (suc o) (c ∷ cs) f e h = absurd (omega arith)
get_elem-write_at i (suc j) (suc o) (c ∷ cs) [] e h =
    get_elem-write_at i j o (c ∷ cs) [] (omega arith) h
get_elem-write_at i (suc j) (suc o) (c ∷ cs) (x ∷ f) e h =
    get_elem-write_at i j o (c ∷ cs) f (omega arith) h

-- Outside of it, what was there stays.
get_elem-write_outside :
    (i o : ℕ) (c f : Text) {v : ℕ}
    → (i < o) ⊎ (o + length c ≤ i)
    → get_elem? i f ≡ some v
    → get_elem? i (write_at o c f) ≡ some v
unfolding write_at get_elem?
get_elem-write_outside i o [] f out h = h
get_elem-write_outside i zero (c ∷ cs) [] out h = cc h
get_elem-write_outside zero zero (c ∷ cs) (x ∷ f) out h = absurd (omega arith)
get_elem-write_outside (suc i) zero (c ∷ cs) (x ∷ f) out h =
    get_elem-write_outside i zero cs f (inr (omega arith)) h
get_elem-write_outside i (suc o) (c ∷ cs) [] out h = cc h
get_elem-write_outside zero (suc o) (c ∷ cs) (x ∷ f) out h = h
get_elem-write_outside (suc i) (suc o) (c ∷ cs) (x ∷ f) out h =
    get_elem-write_outside i o (c ∷ cs) f (ground arith) h

-- A chunk: an offset and the bytes there.
abbrev pub Chunk : Type 0
Chunk = ℕ × Text

-- The chunk lies within the file and holds its bytes.
abbrev pub IsSlice : Text → Chunk → Type 0
IsSlice file (o, c) =
    (o + length c ≤ length file)
    × ((i j : ℕ) → j ≡ o + i → i < length c → get_elem? i c ≡ get_elem? j file)

-- The position lies in one of the chunks.
abbrev pub Covers : List Chunk → ℕ → Type 0
Covers [] i = ⊥
Covers ((o, c) ∷ cs) i = (o ≤ i) × (i < o + length c) ⊎ Covers cs i

-- The chunks written one after the other.
abbrev pub write_chunks : List Chunk → Text → Text
write_chunks [] f = f
write_chunks ((o, c) ∷ cs) f = write_chunks cs (write_at o c f)

covered_or_not : (o n i : ℕ) → (o ≤ i) × (i < o + n) ⊎ ((i < o) ⊎ (o + n ≤ i))
covered_or_not o n i = ground arith

length-write_chunks :
    (cs : List Chunk) (file f : Text)
    → All (IsSlice file) cs
    → length f ≤ length file
    → length (write_chunks cs f) ≤ length file
length-write_chunks [] file f h le = le
length-write_chunks ((o, c) ∷ cs) file f h le =
    length-write_chunks cs file (write_at o c f) h.1 (length-write_at (length file) o c f h.0.0 le)

-- A position that a chunk covers, or that was right before, is right after the chunks.
get_elem-write_chunks :
    (cs : List Chunk) (file f : Text) (i : ℕ)
    → All (IsSlice file) cs
    → i < length file
    → Covers cs i ⊎ (get_elem? i f ≡ get_elem? i file)
    → get_elem? i (write_chunks cs f) ≡ get_elem? i file
get_elem-write_chunks [] file f i h less (inl gone) = absurd gone
get_elem-write_chunks [] file f i h less (inr e) = e
get_elem-write_chunks ((o, c) ∷ cs) file f i h less right = elim (covered_or_not o (length c) i) [
  | inl within ↦ get_elem-write_chunks cs file (write_at o c f) i h.1 less (
      inr (
        get_elem-write_at (i - o) i o c f (omega arith) (omega arith)
        ∙ h.0.1 (i - o) i (omega arith) (omega arith)))
  | inr out ↦ elim right [
    | inl covers ↦ elim covers [
      | inl within ↦ absurd (ground arith)
      | inr later ↦ get_elem-write_chunks cs file (write_at o c f) i h.1 less (inl later)
    ]
    | inr e ↦
        let (v, q) = get_elem-some i file less in
        get_elem-write_chunks cs file (write_at o c f) i h.1 less
          (inr (get_elem-write_outside i o c f out (e ∙ q) ∙ sym q))
  ]
]

-- Chunks of a file that cover all of it give the file, in whatever order they are written.
pub write_chunks_complete :
    (cs : List Chunk) (file : Text)
    → All (IsSlice file) cs
    → ((i : ℕ) → i < length file → Covers cs i)
    → write_chunks cs [] ≡ file
write_chunks_complete cs file h covers =
    get_elem-ext (write_chunks cs []) file (length-write_chunks cs file [] h (omega arith))
      (λ i less. get_elem-write_chunks cs file [] i h less (inl (covers i less)))
