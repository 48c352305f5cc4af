-- ===== src/Prelude/Maps.antt =====
-- Go's maps with string keys, as association lists. A nil map reads as an empty one.
use Prim.Native.String.{String}
use mathlib.Core.Path.{◌≡◌, refl}
use mathlib.Core.Option.{Option, none, some}
use mathlib.Core.List.{List, [], ◌∷◌}
use native.Mathlib.Omega.{arith}
use text.Mathlib.Text.{◌==◌ as str_eq}
use text.Mathlib.TextEquality.{eq_iff}
use cluster_api_provider_ran.Prelude.Tests.{if◌then◌else◌}

abbrev pub Assoc {ℓ} : Type ℓ → Type ℓ
Assoc V = List (String × V)

module _ {ℓ} {V : Type ℓ} where
  -- m[k], with whether the key is there
  unfoldable pub lookup : String → Assoc V → Option V
  lookup k [] = none
  lookup k ((j, v) ∷ m) = if str_eq j k then some v else lookup k m

  -- m[k] = v
  unfoldable pub insert : String → V → Assoc V → Assoc V
  insert k v [] = (k, v) ∷ []
  insert k v ((j, w) ∷ m) = if str_eq j k then (k, v) ∷ m else (j, w) ∷ insert k v m

  -- delete(m, k)
  unfoldable pub delete : String → Assoc V → Assoc V
  delete k [] = []
  delete k ((j, w) ∷ m) = let rest = delete k m in if str_eq j k then rest else (j, w) ∷ rest

  abbrev pub keys : Assoc V → List String
  keys [] = []
  keys ((k, v) ∷ m) = k ∷ keys m

  pub lookup-insert :
      (j k : String) (v : V) (m : Assoc V)
      → lookup j (insert k v m) ≡ (if str_eq k j then some v else lookup j m)
  unfolding lookup insert
  lookup-insert j k v [] = refl
  lookup-insert j k v ((i, w) ∷ m) =
      ground (arith, eq_iff k j, eq_iff i k, eq_iff i j, lookup-insert j k v m)

  pub lookup-delete :
      (j k : String) (m : Assoc V)
      → lookup j (delete k m) ≡ (if str_eq k j then none else lookup j m)
  unfolding lookup delete
  lookup-delete j k [] = ground arith
  lookup-delete j k ((i, w) ∷ m) =
      ground (arith, lookup-delete j k m, eq_iff i k, eq_iff i j, eq_iff k j)

abbrev pub or_zero {ℓ} : {V : Type ℓ} → V → Option V → V
or_zero d none = d
or_zero d (some v) = v

-- m[k] on a map of strings: a missing key gives the empty text
unfoldable pub get : String → Assoc String → String
get k m = or_zero "" (lookup k m)

pub get-insert :
    (j k v : String) (m : Assoc String) → get j (insert k v m) ≡ (if str_eq k j then v else get j m)
unfolding get
get-insert j k v m = ground (arith, lookup-insert j k v m)

pub get-delete :
    (j k : String) (m : Assoc String) → get j (delete k m) ≡ (if str_eq k j then "" else get j m)
unfolding get
get-delete j k m = ground (arith, lookup-delete j k m)

pub ruleset map_laws = (lookup-insert, lookup-delete, get-insert, get-delete)
