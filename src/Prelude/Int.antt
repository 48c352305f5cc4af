-- ===== src/Prelude/Int.antt =====
-- Go's `int` where it can be negative, and `strconv.Itoa` and `strconv.Atoi` on 64 bits.
pub mod Laws
use Prim.Native.Nat.{ℕ, zero, suc, ◌+◌, ◌-◌, ◌*◌, ◌/◌, ◌%◌, ◌^◌}
use Prim.Native.Char.{code}
use Prim.Native.String.{String}
use mathlib.Core.Path.{◌≡◌, refl}
use mathlib.Core.Bool.{Bool, true, false, ◌&&◌}
use mathlib.Core.Option.{Option, none, some}
use cluster_api_provider_ran.Prelude.Tests.{ltb, leb, ◌==◌, if◌then◌else◌}
use cluster_api_provider_ran.Prelude.Text.{◌<>◌}

-- `negsuc n` is -(n + 1).
pub data ℤ : Type 0 where
  pos : ℕ → ℤ
  negsuc : ℕ → ℤ

infix 50 ◌<ℤ◌
abbrev pub ◌<ℤ◌ : ℤ → ℤ → Bool
pos a <ℤ pos b = ltb a b
pos a <ℤ negsuc b = false
negsuc a <ℤ pos b = true
negsuc a <ℤ negsuc b = ltb b a

abbrev pub int_eq : ℤ → ℤ → Bool
int_eq (pos a) (pos b) = a == b
int_eq (pos a) (negsuc b) = false
int_eq (negsuc a) (pos b) = false
int_eq (negsuc a) (negsuc b) = a == b

abbrev pub minus_one : ℤ
minus_one = negsuc 0

abbrev pub int64_limit : ℕ
int64_limit = 2 ^ 63

-- One decimal digit.
digit : ℕ → String
digit zero = "0"
digit (suc zero) = "1"
digit (suc (suc zero)) = "2"
digit (suc (suc (suc zero))) = "3"
digit (suc (suc (suc (suc zero)))) = "4"
digit (suc (suc (suc (suc (suc zero))))) = "5"
digit (suc (suc (suc (suc (suc (suc zero)))))) = "6"
digit (suc (suc (suc (suc (suc (suc (suc zero))))))) = "7"
digit (suc (suc (suc (suc (suc (suc (suc (suc zero)))))))) = "8"
digit _ = "9"

-- Decimal digits, most significant first; the fuel is at least the number of digits.
print_digits : ℕ → ℕ → String
print_digits zero n = ""
print_digits (suc fuel) n =
    let front = print_digits fuel (n / 10) in if ltb n 10 then digit n else front <> digit (n % 10)

-- `strconv.Itoa`
unfoldable pub itoa : ℤ → String
unfolding print_digits digit
itoa (pos n) = print_digits (suc n) n
itoa (negsuc n) = "-" <> print_digits (suc (suc n)) (suc n)

parse_digits : ℕ → String → Option ℕ
parse_digits n String.[] = some n
parse_digits n (String.◌∷◌ c s) =
    if leb 48 (code c) && leb (code c) 57 then parse_digits (n * 10 + (code c - 48)) s else none

-- The value that digits stand for, on the sign's side, if it fits 64 bits.
unsigned : Option ℕ → Option ℤ
unsigned none = none
unsigned (some n) = if ltb n int64_limit then some (pos n) else none

negated : Option ℕ → Option ℤ
negated none = none
negated (some zero) = some (pos zero)
negated (some (suc n)) = if ltb n int64_limit then some (negsuc n) else none

nonempty_digits : String → Option ℕ
nonempty_digits String.[] = none
nonempty_digits (String.◌∷◌ c s) = parse_digits 0 (String.◌∷◌ c s)

-- `strconv.Atoi`
unfoldable pub atoi : String → Option ℤ
unfolding parse_digits unsigned negated nonempty_digits
atoi String.[] = none
atoi (String.◌∷◌ c s) =
    if code c == 45
    then negated (nonempty_digits s)
    else if code c == 43
    then unsigned (nonempty_digits s)
    else unsigned (parse_digits 0 (String.◌∷◌ c s))

itoa_examples : (itoa (pos 307) ≡ "307") × (itoa minus_one ≡ "-1")
unfolding itoa
itoa_examples = (refl, refl)

atoi_examples : (atoi "42" ≡ some (pos 42)) × (atoi "-1" ≡ some minus_one) × (atoi "1x" ≡ none)
unfolding atoi
atoi_examples = (refl, refl, refl)
