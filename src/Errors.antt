-- ===== src/Errors.antt =====
-- pkg/planner/errors.go: the errors of the planner, and results that may be errors.
pub mod Laws
use cluster_api_provider_ran.Prelude.{
  String, ◌≡◌, Bool, true, false, Option, none, some, ◌<>◌, if◌then◌else◌,
}

-- Go's `error`. `waiting` and `ignore` are errWaiting and errIgnore, `skip` is wrangler's
-- generic.ErrSkip, `not_found` an API error with that reason, `wrap` is fmt.Errorf with `%w`.
-- `panic` is no error value: it stands for a panic of the goroutine, which ends a call as well.
pub data Error : Type 0 where
  waiting : String → Error
  ignore : String → Error
  skip : Error
  not_found : String → Error
  other : String → Error
  panic : String → Error
  wrap : String → Error → Error

-- err.Error()
unfoldable pub message : Error → String
message (waiting m) = m
message (ignore m) = m
message skip = "skip processing"
message (not_found m) = m
message (other m) = m
message (panic m) = m
message (wrap m e) = m <> message e

-- errors.As(err, &errWaiting)
unfoldable pub is_err_waiting : Error → Bool
is_err_waiting (waiting m) = true
is_err_waiting (wrap m e) = is_err_waiting e
is_err_waiting _ = false

-- errors.As(err, &errIgnore)
unfoldable pub is_err_ignore : Error → Bool
is_err_ignore (ignore m) = true
is_err_ignore (wrap m e) = is_err_ignore e
is_err_ignore _ = false

-- errors.Is(err, generic.ErrSkip)
unfoldable pub is_err_skip : Error → Bool
is_err_skip skip = true
is_err_skip (wrap m e) = is_err_skip e
is_err_skip _ = false

unfoldable pub is_not_found : Error → Bool
is_not_found (not_found m) = true
is_not_found (wrap m e) = is_not_found e
is_not_found _ = false

-- The first error that may be ignored is kept; any other error is passed on.
unfoldable pub ignore_errors : Option Error → Option Error → Option Error × Option Error
ignore_errors first none = (first, none)
ignore_errors none (some e) = if is_err_ignore e then (some e, none) else (none, some e)
ignore_errors (some f) (some e) = if is_err_ignore e then (some f, none) else (some f, some e)

-- A Go result (value, error) of which the caller reads one side only.
pub data Result {ℓ} (A : Type ℓ) : Type ℓ where
  ok : A → Result A
  err : Error → Result A

-- Code that changes a state and may fail. What was written before an error stays written.
abbrev pub Run {ℓ} : Type ℓ → Type ℓ → Type ℓ
Run T A = T → Result A × T

module _ {ℓ} {T A : Type ℓ} where
  abbrev pub pure : A → Run T A
  pure a t = (ok a, t)

  abbrev pub raise : Error → Run T A
  raise e t = (err e, t)

  abbrev pub lift : Result A → Run T A
  lift r t = (r, t)

  abbrev pub gets : (T → A) → Run T A
  gets f t = (ok (f t), t)

abbrev pub modify : {T : Type 0} → (T → T) → Run T (Unit {0})
modify f t = (ok tt, f t)

module _ {ℓ} {T A B : Type ℓ} where
  abbrev pub continue : Result A → (A → Run T B) → Run T B
  continue (ok a) f t = f a t
  continue (err e) f t = (err e, t)

  infixl 5 ◌>>=◌ ◌>>◌
  abbrev pub ◌>>=◌ : Run T A → (A → Run T B) → Run T B
  ◌>>=◌ m f t = let (r, t') = m t in continue r f t'

  abbrev pub ◌>>◌ : Run T A → Run T B → Run T B
  m >> n = m >>= λ _. n

-- `if bad { return err }`
abbrev pub refuse_if : {T : Type 0} → Bool → Error → Run T (Unit {0})
refuse_if true e t = (err e, t)
refuse_if false e t = (ok tt, t)

-- The `error` half of a result.
abbrev pub error_of {ℓ} : {A : Type ℓ} → Result A → Option Error
error_of (ok a) = none
error_of (err e) = some e

-- `if err != nil { return err }` in a function that changes no state
abbrev pub and_then {ℓ κ} : {A : Type ℓ} {B : Type κ} → Result A → (A → Result B) → Result B
and_then (ok a) f = f a
and_then (err e) f = err e

abbrev pub run_if : {T : Type 0} → Bool → Run T (Unit {0}) → Run T (Unit {0})
run_if true m t = m t
run_if false m t = (ok tt, t)
