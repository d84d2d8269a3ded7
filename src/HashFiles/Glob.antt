-- ===== src/HashFiles/Glob.antt =====
-- `globMatch` and `matchSegments` of internal/engine/hashfiles.go.
use mirror_gha.Base.{
  if◌then◌else◌, Bool-cases, &&-eq_true, Text, lit, text_eq, text_eq_iff, text_eq_refl, text_eq_ne,
  split, ◌≡◌, refl, sym, ap, subst, ◌≢◌, ◌↔◌, ◌⊎◌, inl, inr, Bool, true, false, ◌&&◌, ◌||◌, Option,
  none, some, List, [], ◌∷◌, ◌++◌, arith,
}

abbrev pub stars : Text
stars = lit "**"

abbrev pub concat : List (List Text) → List Text
concat [] = []
concat (ss ∷ rest) = ss ++ concat rest

or_true : (b : Bool) → (b || true) ≡ true
or_true b = ground arith

or-eq_true : (a b : Bool) → (a || b) ≡ true → (a ≡ true) ⊎ (b ≡ true)
or-eq_true a b h = ground arith

-- `accepts` is `filepath.Match`, `none` where the pattern is malformed.
module _ (accepts : Text → Text → Option Bool) where
  unfoldable pub accepts_segment : Text → Text → Bool
  accepts_segment q s = elim (accepts q s) [ none ↦ false | some b ↦ b ]

  unfoldable pub match_segments : List Text → List Text → Bool
  unfolding accepts_segment
  match_segments [] [] = true
  match_segments [] (_ ∷ _) = false
  match_segments (q ∷ pat) [] =
      let rest = match_segments pat [] in if text_eq q stars then rest else false
  match_segments (q ∷ pat) (s ∷ path) =
      let none_more = match_segments pat (s ∷ path) in
      let one_more = match_segments (q ∷ pat) path in
      let next = match_segments pat path in
      if text_eq q stars then none_more || one_more else accepts_segment q s && next

  unfoldable pub glob_match : Text → Text → Bool
  unfolding match_segments
  glob_match pattern rel = match_segments (split b'/' pattern) (split b'/' rel)

  -- What one segment of a pattern stands for: `**` for any segments, another for one that it accepts.
  abbrev pub Fits : Text → List Text → Type 0
  Fits q ss = (q ≡ stars) ⊎ ((q ≢ stars) × ((s : Text) × (ss ≡ s ∷ []) × (accepts q s ≡ some true)))

  abbrev pub FitsAll : List Text → List (List Text) → Type 0
  FitsAll [] [] = Unit
  FitsAll [] (_ ∷ _) = ⊥
  FitsAll (_ ∷ _) [] = ⊥
  FitsAll (q ∷ pat) (ss ∷ rest) = Fits q ss × FitsAll pat rest

  accepts_segment_iff : (q s : Text) → (accepts_segment q s ≡ true) ↔ (accepts q s ≡ some true)
  unfolding accepts_segment
  accepts_segment_iff q s = ground arith

  stars_none :
      (pat path : List Text)
      → match_segments pat path ≡ true
      → match_segments (stars ∷ pat) path ≡ true
  unfolding match_segments
  stars_none pat [] h = rw (text_eq_refl stars) h
  stars_none pat (s ∷ path) h = rw (text_eq_refl stars, h) refl

  stars_some :
      (pat ss path : List Text)
      → match_segments pat path ≡ true
      → match_segments (stars ∷ pat) (ss ++ path) ≡ true
  unfolding match_segments
  stars_some pat [] path h = stars_none pat path h
  stars_some pat (s ∷ ss) path h =
      rw (text_eq_refl stars, stars_some pat ss path h)
        (or_true (match_segments pat (s ∷ (ss ++ path))))

  FitsAll-complete :
      (pat : List Text) (parts : List (List Text))
      → FitsAll pat parts
      → match_segments pat (concat parts) ≡ true
  unfolding match_segments
  FitsAll-complete [] [] h = refl
  FitsAll-complete [] (_ ∷ _) h = absurd h
  FitsAll-complete (_ ∷ _) [] h = absurd h
  FitsAll-complete (q ∷ pat) (ss ∷ rest) (inl e, h) =
      rw e (stars_some pat ss (concat rest) (FitsAll-complete pat rest h))
  FitsAll-complete (q ∷ pat) (ss ∷ rest) (inr (n, m), h) =
      let (s, e, a) = m in
      rw (e, text_eq_ne q stars n, (accepts_segment_iff q s).1 a) (FitsAll-complete pat rest h)

  abbrev Parts : List Text → List Text → Type 0
  Parts pat path = (parts : List (List Text)) × (FitsAll pat parts) × (concat parts ≡ path)

  none-Parts : (pat path : List Text) → Parts pat path → Parts (stars ∷ pat) path
  none-Parts pat path (parts, h, e) = ([] ∷ parts, (inl refl, h), e)

  one-Parts :
      (s : Text) (pat path : List Text) → Parts (stars ∷ pat) path → Parts (stars ∷ pat) (s ∷ path)
  one-Parts s pat path ([], h, e) = absurd h
  one-Parts s pat path (ss ∷ rest, h, e) = ((s ∷ ss) ∷ rest, (inl refl, h.1), ap (λ t. s ∷ t) e)

  next-Parts :
      (q s : Text) (pat path : List Text)
      → q ≢ stars
      → accepts q s ≡ some true
      → Parts pat path
      → Parts (q ∷ pat) (s ∷ path)
  next-Parts q s pat path n a (parts, h, e) =
      ((s ∷ []) ∷ parts, (inr (n, (s, refl, a)), h), ap (λ t. s ∷ t) e)

  Parts-sound : (pat path : List Text) → match_segments pat path ≡ true → Parts pat path
  unfolding match_segments
  Parts-sound [] [] h = ([], tt, refl)
  Parts-sound [] (_ ∷ _) h = cc
  Parts-sound (q ∷ pat) [] h = elim (Bool-cases (text_eq q stars)) [
    | inl e ↦ rw ((text_eq_iff q stars).0 e) (none-Parts pat [] (Parts-sound pat [] (rw e at h)))
    | inr e ↦ cc (rw e at h)
  ]
  Parts-sound (q ∷ pat) (s ∷ path) h = elim (Bool-cases (text_eq q stars)) [
    | inl e ↦
        let is : q ≡ stars = (text_eq_iff q stars).0 e in
        let either : (match_segments pat (s ∷ path) || match_segments (q ∷ pat) path) ≡ true =
          rw (e, match_segments) at h in
        elim (or-eq_true (match_segments pat (s ∷ path)) (match_segments (q ∷ pat) path) either) [
          | inl a ↦ rw is (none-Parts pat (s ∷ path) (Parts-sound pat (s ∷ path) a))
          | inr b ↦
              subst (λ r. Parts (r ∷ pat) (s ∷ path)) (sym is)
                (one-Parts s pat path
                  (subst (λ r. Parts (r ∷ pat) path) is (Parts-sound (q ∷ pat) path b)))
        ]
    | inr e ↦
        let both : (accepts_segment q s && match_segments pat path) ≡ true =
          rw (e, match_segments) at h in
        let (a, b) = &&-eq_true (accepts_segment q s) (match_segments pat path) both in
        next-Parts q s pat path (λ is. cc (e, (text_eq_iff q stars).1 is))
          ((accepts_segment_iff q s).0 a) (Parts-sound pat path b)
  ]

  -- A pattern matches a path exactly if the segments of the path can be parted, one part for each
  -- segment of the pattern, so that `**` has any part and another segment of the pattern has a part
  -- of one segment that `filepath.Match` accepts for it.
  pub glob_match_iff :
      (pattern rel : Text)
      → (glob_match pattern rel ≡ true) ↔ (
          (parts : List (List Text)) × FitsAll (split b'/' pattern) parts
          × (concat parts ≡ split b'/' rel))
  unfolding glob_match
  glob_match_iff pattern rel = (
    Parts-sound (split b'/' pattern) (split b'/' rel),
    λ (parts, h, e).
        subst (λ path. match_segments (split b'/' pattern) path ≡ true) e
          (FitsAll-complete (split b'/' pattern) parts h),
  )
