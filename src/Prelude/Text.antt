-- ===== src/Prelude/Text.antt =====
-- Texts as Go uses them: comparison, concatenation, and the functions of its `strings` package.
use Prim.Native.Nat.{ℕ, zero, suc, compare, Ordering}
use Prim.Native.Char.{Char, code}
use Prim.Native.String.{String, ◌++◌}
use cluster_api_provider_ran.Prelude.Tests.{◌==◌, if◌then◌else◌}
use mathlib.Core.Path.{◌≡◌, refl}
use mathlib.Core.Logic.{◌⊎◌, inl, inr}
use mathlib.Core.Bool.{Bool, true, false, ◌||◌}
use mathlib.Core.List.{List, [], ◌∷◌}
use native.Mathlib.Omega.{arith}
use text.Mathlib.Text.{◌==◌ as str_eq, starts_with}
use text.Mathlib.TextEquality.{eq_iff}

infixr 65 ◌<>◌
-- `+` on Go strings
abbrev pub ◌<>◌ : String → String → String
s <> t = s ++ t

-- The code points of a text. Go compares the UTF-8 bytes, which orders texts in the same way.
abbrev pub codes : String → List ℕ
codes String.[] = []
codes (String.◌∷◌ c s) = code c ∷ codes s

-- `<=` on the code points
pub codes_le : List ℕ → List ℕ → Bool
codes_le [] ys = true
codes_le (x ∷ xs) [] = false
codes_le (x ∷ xs) (y ∷ ys) =
    let rest = codes_le xs ys in
    elim (compare x y) [ Ordering.lt ↦ true | Ordering.eq ↦ rest | Ordering.gt ↦ false ]

pub codes_le_total : (xs ys : List ℕ) → codes_le xs ys ≡ false → codes_le ys xs ≡ true
unfolding codes_le
codes_le_total [] ys h = ground arith
codes_le_total (x ∷ xs) [] h = refl
codes_le_total (x ∷ xs) (y ∷ ys) h = ground (arith, codes_le_total xs ys)

pub codes_le_trans :
    (xs ys zs : List ℕ) → codes_le xs ys ≡ true → codes_le ys zs ≡ true → codes_le xs zs ≡ true
unfolding codes_le
codes_le_trans [] ys zs h k = refl
codes_le_trans (x ∷ xs) [] zs h k = ground arith
codes_le_trans (x ∷ xs) (y ∷ ys) [] h k = ground arith
codes_le_trans (x ∷ xs) (y ∷ ys) (z ∷ zs) h k = ground (arith, codes_le_trans xs ys zs)

-- `s <= t` on Go strings
unfoldable pub str_le : String → String → Bool
unfolding codes_le
str_le s t = codes_le (codes s) (codes t)

pub str_le_total : (s t : String) → str_le s t ≡ false → str_le t s ≡ true
unfolding str_le
str_le_total s t = codes_le_total (codes s) (codes t)

pub str_le_trans : (r s t : String) → str_le r s ≡ true → str_le s t ≡ true → str_le r t ≡ true
unfolding str_le
str_le_trans r s t = codes_le_trans (codes r) (codes s) (codes t)

-- `strings.Contains`
unfoldable pub contains : String → String → Bool
contains String.[] t = str_eq t ""
contains (String.◌∷◌ c s) t = starts_with (String.◌∷◌ c s) t || contains s t

-- `strings.HasSuffix`
unfoldable pub has_suffix : String → String → Bool
has_suffix String.[] t = str_eq t ""
has_suffix (String.◌∷◌ c s) t = str_eq (String.◌∷◌ c s) t || has_suffix s t

-- `strings.Join`
unfoldable pub join : String → List String → String
join sep [] = ""
join sep (x ∷ []) = x
join sep (x ∷ y ∷ xs) = x <> sep <> join sep (y ∷ xs)

-- The letter that stands in the place of `c`, if it stands in `from`
unfoldable translate : String → String → Char → Char
translate (String.◌∷◌ f from) (String.◌∷◌ t to) c =
    let rest = translate from to c in if code f == code c then t else rest
translate from to c = c

unfoldable translate_all : String → String → String → String
unfolding translate
translate_all from to String.[] = ""
translate_all from to (String.◌∷◌ c s) = String.◌∷◌ (translate from to c) (translate_all from to s)

abbrev upper_case : String
upper_case = "ABCDEFGHIJKLMNOPQRSTUVWXYZ"

abbrev lower_case : String
lower_case = "abcdefghijklmnopqrstuvwxyz"

-- `strings.ToUpper` on ASCII
unfoldable pub to_upper : String → String
unfolding translate_all
to_upper s = translate_all lower_case upper_case s

-- `strings.ToLower` on ASCII
unfoldable pub to_lower : String → String
unfolding translate_all
to_lower s = translate_all upper_case lower_case s

abbrev text_size : String → ℕ
text_size String.[] = 0
text_size (String.◌∷◌ c s) = suc (text_size s)

-- How many characters after the first are part of a match
abbrev tail_size : String → ℕ
tail_size String.[] = 0
tail_size (String.◌∷◌ c s) = text_size s

unfoldable replace_from : ℕ → String → String → String → String
replace_from skip from to String.[] = ""
replace_from (suc skip) from to (String.◌∷◌ c s) = replace_from skip from to s
replace_from zero from to (String.◌∷◌ c s) = elim (starts_with (String.◌∷◌ c s) from) [
  | true ↦ to <> replace_from (tail_size from) from to s
  | false ↦ String.◌∷◌ c (replace_from zero from to s)
]

-- `strings.ReplaceAll` of a text that is not empty
unfoldable pub replace_all : String → String → String → String
unfolding replace_from
replace_all s from to = replace_from zero from to s

-- Membership in a slice or in the keys of a map.
unfoldable pub member : String → List String → Bool
member k [] = false
member k (x ∷ xs) = str_eq x k || member k xs

pub Str-cases : (s t : String) → (s ≡ t) ⊎ ((s ≡ t) → ⊥)
Str-cases s t = go (str_eq s t) refl
  where
    go : (b : Bool) → str_eq s t ≡ b → (s ≡ t) ⊎ ((s ≡ t) → ⊥)
    go true e = inl ((eq_iff s t).0 e)
    go false e = inr (λ p. cc ((eq_iff s t).1 p))

pub str_eq_ne : (s t : String) → (s ≡ t → ⊥) → str_eq s t ≡ false
str_eq_ne s t h = go (str_eq s t) refl
  where
    go : (b : Bool) → str_eq s t ≡ b → b ≡ false
    go true e = absurd (h ((eq_iff s t).0 e))
    go false e = refl
