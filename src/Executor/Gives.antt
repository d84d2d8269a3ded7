-- ===== src/Executor/Gives.antt =====
-- What the computations on the machine of internal/engine/executor.go give where they succeed.
use mirror_gha.Base.{
  if◌then◌else◌, Result, ok-injective, Result-cases, ◌≡◌, sym, ap, ◌∙◌, subst, inl, inr, Bool, true,
  false, ok,
}
use mirror_gha.Expr.{Context}
use mirror_gha.Executor.Machine.{Machine, M, ◌>>=◌, give, raise, lift, call, rewrap, with_context}
use mirror_gha.Executor.Frame.{bind-cases}

-- Where a computation succeeds, its result has a property.
pub record Gives {W E A : Type 0} (P : A → Type 0) (m : M W E A) : Type 0 where
  pub gives : (s : Machine W) {a : A} → (m s).0 ≡ ok a → P a

module _ {W E : Type 0} where
  pub Gives-bind :
      {A B : Type 0} {P : B → Type 0} (Q : A → Type 0) (m : M W E A) (f : A → M W E B)
      → Gives Q m
      → ((a : A) → Q a → Gives P (f a))
      → Gives P (m >>= f)
  Gives-bind Q m f km kf = record {
    gives = λ s h. elim (bind-cases m f s) [
      | inl (a, q, same) ↦ (kf a (km.gives s q)).gives (m s).1 (sym (ap (λ r. r.0) same) ∙ h)
      | inr (e, q, same) ↦ let h' = sym (ap (λ r. r.0) same) ∙ h in cc h'
    ];
  }

  pub Gives-any : {A : Type 0} (m : M W E A) → Gives (λ _. Unit {0}) m
  Gives-any m = record { gives = λ s h. tt }

  -- What a computation gives does not matter for what follows.
  pub Gives-then :
      {A B : Type 0} {P : B → Type 0} (m : M W E A) (f : A → M W E B)
      → ((a : A) → Gives P (f a))
      → Gives P (m >>= f)
  Gives-then m f kf = Gives-bind (λ _. Unit) m f (Gives-any m) (λ a _. kf a)

  pub Gives-give : {A : Type 0} {P : A → Type 0} (a : A) → P a → Gives {W = W} {E = E} P (give a)
  unfolding give
  Gives-give {P = P} a p = record { gives = λ s h. subst P (ok-injective h) p }

  pub Gives-raise : {A : Type 0} {P : A → Type 0} (e : E) → Gives {W = W} P (raise e)
  unfolding raise
  Gives-raise e = record { gives = λ s h. cc h }

  pub Gives-if :
      {A : Type 0} {P : A → Type 0} (b : Bool) (m n : M W E A)
      → Gives P m
      → Gives P n
      → Gives P (if b then m else n)
  Gives-if true m n km kn = km
  Gives-if false m n km kn = kn

  pub Gives-bool :
      {A : Type 0} {P : A → Type 0} (b : Bool) (m n : M W E A)
      → Gives P m
      → Gives P n
      → Gives P (elim b [ false ↦ m | true ↦ n ])
  Gives-bool true m n km kn = kn
  Gives-bool false m n km kn = km

  pub Gives-rewrap :
      {E' A : Type 0} {P : A → Type 0} (wrap : E' → E) (m : M W E' A)
      → Gives P m
      → Gives P (rewrap wrap m)
  unfolding rewrap lift
  Gives-rewrap wrap m km = record {
    gives = λ s h. elim (Result-cases (m s).0) [
      | inl (a, q) ↦ km.gives s (let h' = rw (q, rewrap, lift) at h in q ∙ ap ok (ok-injective h'))
      | inr (e, q) ↦ let h' = rw (q, rewrap, lift) at h in cc h'
    ];
  }

  pub Gives-with_context :
      {A : Type 0} {P : A → Type 0} (c : Context) (m : M W E A)
      → Gives P m
      → Gives P (with_context c m)
  unfolding with_context
  Gives-with_context c m km = record { gives = λ s h. km.gives (record s { context = c }) h }

  pub Gives-call :
      {E' A : Type 0} {P : A → Type 0} (wrap : E' → E) (f : W → Result E' A × W)
      → ((w : W) (a : A) → (f w).0 ≡ ok a → P a)
      → Gives P (call wrap f)
  unfolding call lift
  Gives-call wrap f k = record {
    gives = λ s h. elim (Result-cases (f s.world).0) [
      | inl (a, q) ↦ k s.world _ (let h' = rw (q, call, lift) at h in q ∙ ap ok (ok-injective h'))
      | inr (e, q) ↦ let h' = rw (q, call, lift) at h in cc h'
    ];
  }
