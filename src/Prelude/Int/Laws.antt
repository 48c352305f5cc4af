-- ===== src/Prelude/Int/Laws.antt =====
-- `strconv.Atoi` reads back what `strconv.Itoa` prints.
use Prim.Native.Nat.{ℕ, zero, suc, ◌+◌, ◌-◌, ◌*◌, ◌/◌, ◌%◌, ◌<◌}
use Prim.Native.Char.{code}
use Prim.Native.String.{String}
use mathlib.Core.Path.{◌≡◌, refl, ◌∙◌, ap}
use mathlib.Core.Option.{none, some}
use mathlib.Core.Logic.{inl, inr}
use native.Mathlib.Omega.{arith}
use text.Mathlib.TextLemmas.{nil-append, cons-append}
use mathlib.Core.Bool.{false}
use text.Mathlib.Text.{◌==◌ as str_eq}
use text.Mathlib.TextEquality.{eq_iff}
use cluster_api_provider_ran.Prelude.Tests.{ltb, Bool-cases}
use cluster_api_provider_ran.Prelude.Text.{◌<>◌}
use cluster_api_provider_ran.Prelude.Int.{
  ℤ, pos, negsuc, int64_limit, digit, print_digits, parse_digits, itoa, atoi, unsigned, negated,
  nonempty_digits,
}

parse_digits-append :
    (a m : ℕ) (s t : String)
    → parse_digits a s ≡ some m
    → parse_digits a (s <> t) ≡ parse_digits m t
unfolding parse_digits
parse_digits-append a m String.[] t h = rw (nil-append t) (ground arith)
parse_digits-append a m (String.◌∷◌ c s) t h =
    rw (cons-append c s t) (ground (arith, parse_digits-append (a * 10 + (code c - 48)) m s t))

parse_digits-digit : (m d : ℕ) → d < 10 → parse_digits m (digit d) ≡ some (m * 10 + d)
unfolding parse_digits digit
parse_digits-digit m zero h = refl
parse_digits-digit m (suc zero) h = refl
parse_digits-digit m (suc (suc zero)) h = refl
parse_digits-digit m (suc (suc (suc zero))) h = refl
parse_digits-digit m (suc (suc (suc (suc zero)))) h = refl
parse_digits-digit m (suc (suc (suc (suc (suc zero))))) h = refl
parse_digits-digit m (suc (suc (suc (suc (suc (suc zero)))))) h = refl
parse_digits-digit m (suc (suc (suc (suc (suc (suc (suc zero))))))) h = refl
parse_digits-digit m (suc (suc (suc (suc (suc (suc (suc (suc zero)))))))) h = refl
parse_digits-digit m (suc (suc (suc (suc (suc (suc (suc (suc (suc zero))))))))) h = refl
parse_digits-digit m (suc (suc (suc (suc (suc (suc (suc (suc (suc (suc d)))))))))) h =
    absurd (omega arith)

parse_digits-print_digits : (fuel n : ℕ) → n < fuel → parse_digits 0 (print_digits fuel n) ≡ some n
unfolding print_digits
parse_digits-print_digits zero n h = absurd (omega arith)
parse_digits-print_digits (suc fuel) n h = elim (Bool-cases (ltb n 10)) [
  | inl small ↦ rw small (parse_digits-digit 0 n (ground arith) ∙ ap some (omega arith))
  | inr large ↦ rw large (
      parse_digits-append 0 (n / 10) (print_digits fuel (n / 10)) (digit (n % 10))
        (parse_digits-print_digits fuel (n / 10) (ground arith))
      ∙ parse_digits-digit (n / 10) (n % 10) (omega arith)
      ∙ ap some (omega arith))
]

-- A text that reads as a positive number begins with no sign.
atoi_of_digits :
    (n : ℕ) (s : String) → parse_digits 0 s ≡ some (suc n) → atoi s ≡ unsigned (some (suc n))
unfolding atoi
atoi_of_digits n String.[] h = ground arith
atoi_of_digits n (String.◌∷◌ c s) h = ground arith

nonempty_digits_lem :
    (n : ℕ) (s : String) → parse_digits 0 s ≡ some (suc n) → nonempty_digits s ≡ some (suc n)
unfolding nonempty_digits parse_digits
nonempty_digits_lem n String.[] h = ground arith
nonempty_digits_lem n (String.◌∷◌ c s) h = h

atoi_of_minus :
    (n : ℕ) (s : String)
    → parse_digits 0 s ≡ some (suc n)
    → atoi ("-" <> s) ≡ negated (some (suc n))
unfolding atoi
atoi_of_minus n s h =
    rw (cons-append "-" String.[] s, nil-append s) (ap negated (nonempty_digits_lem n s h))

unsigned_lem : (n : ℕ) → n < int64_limit → unsigned (some n) ≡ some (pos n)
unfolding unsigned
unsigned_lem n h = ground arith

negated_lem : (n : ℕ) → n < int64_limit → negated (some (suc n)) ≡ some (negsuc n)
unfolding negated
negated_lem n h = ground arith

-- The numbers of Go's 64-bit `int`.
abbrev pub InRange : ℤ → Type 0
InRange (pos n) = n < int64_limit
InRange (negsuc n) = n < int64_limit

pub atoi-itoa : (z : ℤ) → InRange z → atoi (itoa z) ≡ some z
atoi-itoa (pos zero) h = unfold atoi itoa in refl
atoi-itoa (pos (suc n)) h =
    let parsed = parse_digits-print_digits (suc (suc n)) (suc n) (omega arith) in
    unfold itoa in atoi_of_digits n _ parsed ∙ unsigned_lem (suc n) h
atoi-itoa (negsuc n) h =
    let parsed = parse_digits-print_digits (suc (suc n)) (suc n) (omega arith) in
    unfold itoa in atoi_of_minus n _ parsed ∙ negated_lem n h

atoi-empty : atoi "" ≡ none
unfolding atoi
atoi-empty = refl

pub itoa-nonempty : (z : ℤ) → InRange z → str_eq (itoa z) "" ≡ false
itoa-nonempty z h = elim (Bool-cases (str_eq (itoa z) "")) [
  | inr filled ↦ filled
  | inl empty ↦
      let same = ap atoi ((eq_iff (itoa z) "").0 empty) in
      let parsed = atoi-itoa z h in let nothing = atoi-empty in ground arith
]
