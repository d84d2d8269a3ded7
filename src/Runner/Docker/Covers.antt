-- ===== src/Runner/Docker/Covers.antt =====
-- What a call made through the traced system takes, and what its result knows of.
use mirror_gha.Base.{
  if◌then◌else◌, Text, Result, ok-injective, some-injective, Result-cases, ◌≡◌, refl, sym, ap, ◌∙◌,
  subst, ◌⊎◌, inl, inr, Bool, true, false, none, some, List, ◌∷◌, ok, err,
}
use mirror_gha.Os.{
  Os, Io, Command, Output, Ran, completed, exit_error, run_error, ◌>>=◌, give, raise, lift, wrap,
  on_error, checked, checked_result,
}
use mirror_gha.Runner.Docker.Traced.{
  Event, Traced, traced, Resource, taken, Taken, taken_by, ran, made, directory,
}

abbrev pub Owned : Type 1
Owned = Resource → Type 0

-- Where a call succeeds: what has been taken by then had been taken before the call, or is known from
-- the result, and what was known before still is.
pub record Covers {W A : Type 0} (known : Owned) (P : A → Owned) (m : Io (Traced W) A)
    : Type 0 where
  pub found :
      (s : Traced W) (a : A) (x : Resource)
      → (m s).0 ≡ ok a
      → Taken x (m s).1.1
      → Taken x s.1 ⊎ P a x
  pub kept : (s : Traced W) (a : A) (x : Resource) → (m s).0 ≡ ok a → known x → P a x

-- What one more command takes.
pub Taken-ran :
    (c : Command) (r : Ran) (log : List Event) (x : Resource)
    → Taken x (ran c r ∷ log)
    → (taken_by c.args r ≡ some x) ⊎ Taken x log
Taken-ran c r log x (e, (inl same, q)) = inl (ap taken same ∙ q)
Taken-ran c r log x (e, (inr m, q)) = inr (e, (m, q))

-- What one more directory takes.
pub Taken-made :
    (dir : Text) (log : List Event) (x : Resource)
    → Taken x (made dir ∷ log)
    → Taken x log ⊎ (directory dir ≡ x)
Taken-made dir log x (e, (inl same, q)) = inr (some-injective (ap taken same ∙ q))
Taken-made dir log x (e, (inr m, q)) = inl (e, (m, q))

pub Taken-quiet :
    (c : Command) (r : Ran) (log : List Event) (x : Resource)
    → taken_by c.args r ≡ none
    → Taken x (ran c r ∷ log)
    → Taken x log
Taken-quiet c r log x nothing t = elim (Taken-ran c r log x t) [
  | inl q ↦ let h : none ≡ some x = sym nothing ∙ q in cc h
  | inr old ↦ old
]

module _ {W : Type 0} where
  pub Covers-bind :
      {A B : Type 0} {known : Owned} {P : B → Owned} (Q : A → Owned) (m : Io (Traced W) A)
      (f : A → Io (Traced W) B)
      → Covers known Q m
      → ((a : A) → Covers (Q a) P (f a))
      → Covers known P (m >>= f)
  unfolding ◌>>=◌
  Covers-bind Q m f km kf = record {
    found = λ s b x h t. elim (Result-cases (m s).0) [
      | inr (e, q) ↦ let h' = rw (q, ◌>>=◌) at h in cc h'
      | inl (a, q) ↦
          let h' = rw (q, ◌>>=◌) at h in
          elim ((kf a).found (m s).1 b x h' (rw (q, ◌>>=◌) at t)) [
            | inr p ↦ inr p
            | inl mid ↦ elim (km.found s a x q mid) [
              | inl old ↦ inl old
              | inr k ↦ inr ((kf a).kept (m s).1 b x h' k)
            ]
          ]
    ];
    kept = λ s b x h k. elim (Result-cases (m s).0) [
      | inr (e, q) ↦ let h' = rw (q, ◌>>=◌) at h in cc h'
      | inl (a, q) ↦ (kf a).kept (m s).1 b x (rw (q, ◌>>=◌) at h) (km.kept s a x q k)
    ];
  }

  pub Covers-give :
      {A : Type 0} {known : Owned} {P : A → Owned} (a : A)
      → ((x : Resource) → known x → P a x)
      → Covers known P (give {W = Traced W} a)
  unfolding give
  Covers-give {P = P} a k = record {
    found = λ s b x h t. inl t;
    kept = λ s b x h p. subst (λ c. P c x) (ok-injective h) (k x p);
  }

  pub Covers-raise :
      {A : Type 0} {known : Owned} {P : A → Owned} (e : Text)
      → Covers known P (raise {W = Traced W} e)
  unfolding raise
  Covers-raise e = record { found = λ s b x h t. inl t; kept = λ s b x h p. cc h }

  -- More may be known from the result.
  pub Covers-more :
      {A : Type 0} {known : Owned} {P Q : A → Owned} (m : Io (Traced W) A)
      → ((a : A) (x : Resource) → P a x → Q a x)
      → Covers known P m
      → Covers known Q m
  Covers-more m more k = record {
    found = λ s a x h t. elim (k.found s a x h t) [ inl old ↦ inl old | inr p ↦ inr (more a x p) ];
    kept = λ s a x h p. more a x (k.kept s a x h p);
  }

  pub Covers-lift_bind :
      {A B : Type 0} {known : Owned} {P : B → Owned} (r : Result Text A) (f : A → Io (Traced W) B)
      → ((a : A) → r ≡ ok a → Covers known P (f a))
      → Covers known P (lift r >>= f)
  unfolding lift ◌>>=◌
  Covers-lift_bind (ok a) f k = record { found = (k a refl).found; kept = (k a refl).kept }
  Covers-lift_bind (err e) f k = record { found = λ s b x h t. cc h; kept = λ s b x h p. cc h }

  pub Covers-try_bind :
      {A B : Type 0} {known : Owned} {P : B → Owned} (tidy : Traced W → Traced W)
      (r : Result Text A) (f : A → Io (Traced W) B)
      → ((a : A) → r ≡ ok a → Covers known P (f a))
      → Covers known P (on_error tidy (lift r) >>= f)
  unfolding lift on_error ◌>>=◌
  Covers-try_bind tidy (ok a) f k = record { found = (k a refl).found; kept = (k a refl).kept }
  Covers-try_bind tidy (err e) f k = record { found = λ s b x h t. cc h; kept = λ s b x h p. cc h }

  pub Covers-if :
      {A : Type 0} {known : Owned} {P : A → Owned} (b : Bool) (m n : Io (Traced W) A)
      → Covers known P m
      → Covers known P n
      → Covers known P (if b then m else n)
  Covers-if true m n km kn = km
  Covers-if false m n km kn = kn

  -- The error of a call may be another, or be followed by more calls.
  pub Covers-on_error :
      {A : Type 0} {known : Owned} {P : A → Owned} (tidy : Traced W → Traced W)
      (m : Io (Traced W) A)
      → Covers known P m
      → Covers known P (on_error tidy m)
  unfolding on_error
  Covers-on_error tidy m k = record {
    found = λ s a x h t. elim (Result-cases (m s).0) [
      | inr (e, q) ↦ let h' = rw (q, on_error) at h in cc h'
      | inl (b, q) ↦ k.found s a x (q ∙ (rw (q, on_error) at h)) (rw (q, on_error) at t)
    ];
    kept = λ s a x h p. elim (Result-cases (m s).0) [
      | inr (e, q) ↦ let h' = rw (q, on_error) at h in cc h'
      | inl (b, q) ↦ k.kept s a x (q ∙ (rw (q, on_error) at h)) p
    ];
  }

  pub Covers-wrap :
      {A : Type 0} {known : Owned} {P : A → Owned} (before : Text) (m : Io (Traced W) A)
      → Covers known P m
      → Covers known P (wrap before m)
  unfolding wrap
  Covers-wrap before m k = record {
    found = λ s a x h t. elim (Result-cases (m s).0) [
      | inr (e, q) ↦ let h' = rw (q, wrap) at h in cc h'
      | inl (b, q) ↦ k.found s a x (q ∙ (rw (q, wrap) at h)) (rw (q, wrap) at t)
    ];
    kept = λ s a x h p. elim (Result-cases (m s).0) [
      | inr (e, q) ↦ let h' = rw (q, wrap) at h in cc h'
      | inl (b, q) ↦ k.kept s a x (q ∙ (rw (q, wrap) at h)) p
    ];
  }

  module _ (os : Os W) where
    checked_result-completed :
        (message : Text → Text → Text) (r : Ran) (o : Output)
        → checked_result (traced os) message r ≡ ok o
        → r ≡ completed o
    checked_result-completed message (completed o') o h = ap completed (ok-injective h)
    checked_result-completed message (exit_error code e o') o h = cc h
    checked_result-completed message (run_error e o') o h = cc h

    -- A command that has to end well.
    pub Covers-checked :
        {known : Owned} {P : Output → Owned} (message : Text → Text → Text) (c : Command)
        → ((o : Output) (x : Resource) → (taken_by c.args (completed o) ≡ some x) ⊎ known x → P o x)
        → Covers known P (checked (traced os) message c)
    unfolding checked
    Covers-checked message c k = record {
      found = λ s o x h t. elim (Taken-ran c (os.run c s.0).0 s.1 x t) [
        | inr old ↦ inl old
        | inl q ↦
            let done = checked_result-completed message (os.run c s.0).0 o h in
            inr (k o x (inl (ap (taken_by c.args) (sym done) ∙ q)))
      ];
      kept = λ s o x h p. k o x (inr p);
    }
