-- ===== src/Errors/Laws.antt =====
-- pkg/planner/errors.go: what a run of several steps keeps, and which errors are set aside.
use cluster_api_provider_ran.Prelude.{
  ◌≡◌, refl, ap, ◌⊎◌, inl, inr, Bool, true, false, arith, absurd,
}
use cluster_api_provider_ran.Errors.{Error, Result, ok, err, Run, raise, continue, ◌>>=◌, ◌>>◌}

pub Result-cases {ℓ} :
    {A : Type ℓ} (r : Result A) → ((a : A) × (r ≡ ok a)) ⊎ ((e : Error) × (r ≡ err e))
Result-cases (ok a) = inl (a, refl)
Result-cases (err e) = inr (e, refl)

module _ {T A B : Type 0} (P : T → Type 0) where
  keeps-continue :
      (r : Result A) (f : A → Run T B) (t : T)
      → P t
      → ((a : A) → (u : T) → P u → P (f a u).1)
      → P (continue r f t).1
  keeps-continue (ok a) f t h k = k a t h
  keeps-continue (err e) f t h k = h

  -- What each step keeps, the two in sequence keep.
  pub keeps-bind :
      (m : Run T A) (f : A → Run T B) (t : T)
      → P (m t).1
      → ((a : A) → (u : T) → P u → P (f a u).1)
      → P ((m >>= f) t).1
  keeps-bind m f t h k = keeps-continue (m t).0 f (m t).1 h k

  pub keeps-then :
      (m : Run T A) (n : Run T B) (t : T)
      → P (m t).1
      → ((u : T) → P u → P (n u).1)
      → P ((m >> n) t).1
  keeps-then m n t h k = keeps-bind m (λ _. n) t h (λ _ u. k u)

module _ {T A B : Type 0} (P Q : T → Type 0) (weaken : (u : T) → P u → Q u) where
  leads-continue :
      (r : Result A) (f : A → Run T B) (t : T)
      → P t
      → ((a : A) → (u : T) → P u → Q (f a u).1)
      → Q (continue r f t).1
  leads-continue (ok a) f t h k = k a t h
  leads-continue (err e) f t h k = weaken t h

  -- What the first step establishes carries over, or the second step makes it what is wanted.
  pub leads-bind :
      (m : Run T A) (f : A → Run T B) (t : T)
      → P (m t).1
      → ((a : A) → (u : T) → P u → Q (f a u).1)
      → Q ((m >>= f) t).1
  leads-bind m f t h k = leads-continue (m t).0 f (m t).1 h k

never :
    {T A B : Type 0} (e : Error) (b : B) (r : Result A × T)
    → (continue r.0 (λ _. raise e) r.1).0 ≡ ok b
    → false ≡ true
never e b (ok a, t) h = ground arith
never e b (err x, t) h = ground arith

-- A run that ends in an error gives no value.
pub then-raise :
    {T A B : Type 0} (m : Run T A) (e : Error) (b : B) (t : T)
    → ((m >> raise e) t).0 ≡ ok b
    → false ≡ true
then-raise m e b t h = never e b (m t) h

abbrev pub is_ok : {A : Type 0} → Result A → Bool
is_ok (ok a) = true
is_ok (err e) = false

module _ {T A B : Type 0} (f : A → Run T B) (b : B) (u : T) where
  split_ok :
      (p q : Result A × T)
      → q ≡ p
      → continue p.0 f p.1 ≡ (ok b, u)
      → (a : A) × (v : T) × (q ≡ (ok a, v)) × (f a v ≡ (ok b, u))
  split_ok (ok a, v) q e h = (a, v, e, h)
  split_ok (err x, v) q e h = absurd (ap (λ r. is_ok r.0) h)

  -- What a sequence that ends well is made of.
  pub ok-bind :
      (m : Run T A) (t : T)
      → (m >>= f) t ≡ (ok b, u)
      → (a : A) × (v : T) × (m t ≡ (ok a, v)) × (f a v ≡ (ok b, u))
  ok-bind m t h = split_ok (m t) (m t) refl h

pub ok-then :
    {T A B : Type 0} (m : Run T A) (n : Run T B) (b : B) (t u : T)
    → (m >> n) t ≡ (ok b, u)
    → (a : A) × (v : T) × (m t ≡ (ok a, v)) × (n v ≡ (ok b, u))
ok-then m n b t u h = ok-bind (λ _. n) b u m t h
