-- ===== src/Planner/Args/Setting.antt =====
-- Arguments of the form key=value, as splitArgKeyVal and getArgValue of pkg/planner/planner.go read
-- them.
use Prim.Native.String.append
use Prim.Native.Char.{Char, code}
use cluster_api_provider_ran.Prelude.{
  ◌==◌, ◌&&◌, String, Bool, true, false, ◌≡◌, refl, ap, ◌∙◌, Option, none, some, List, [], ◌∷◌,
  ◌++◌, str_eq, str_eq_ne, if◌then◌else◌, arith, absurd, ◌<>◌,
}
use cluster_api_provider_ran.Planner.Args.{
  secure_port_argument, cert_dir_argument, find_arg, split_two, split_arg_key_val, strip_prefix,
  first_or,
}

abbrev pub or_else : Option String → Option String → Option String
or_else none b = b
or_else (some a) b = some a

pub find_arg-append :
    (xs ys : List String) (key delim : String)
    → find_arg (xs ++ ys) key delim ≡ or_else (find_arg xs key delim) (find_arg ys key delim)
unfolding find_arg
find_arg-append [] ys key delim = refl
find_arg-append (x ∷ xs) ys key delim = ground (arith, find_arg-append xs ys key delim)

split_two-delim : (v : String) → split_two "=" ("=" <> v) ≡ some ("", v)
unfolding split_two strip_prefix first_or
split_two-delim v =
    ap (split_two "=") (append.cons "=" "" v) ∙ ap (λ t. some ("", t)) (append.nil v)

first_or-none :
    (c : Char) (b : Bool) (k t : String) (parts rest : Option (String × String)) (v : String)
    → first_or c (if b then some k else none) parts ≡ none
    → (parts ≡ none → rest ≡ some (k, v))
    → first_or c (if b then some t else none) rest ≡ some (String.◌∷◌ c k, v)
unfolding first_or
first_or-none c true k t parts rest v h r = ground arith
first_or-none c false k t none rest v h r = ap (first_or c none) (r refl)
first_or-none c false k t (some p) rest v h r = ground arith

-- The first delimiter separates the key from the value.
pub split_two-append :
    (k v : String) → split_two "=" k ≡ none → split_two "=" (k <> "=" <> v) ≡ some (k, v)
unfolding split_two strip_prefix first_or
split_two-append String.[] v h = ap (split_two "=") (append.nil ("=" <> v)) ∙ split_two-delim v
split_two-append (String.◌∷◌ c k) v h =
    ap (split_two "=") (append.cons c k ("=" <> v))
    ∙ first_or-none c (61 == code c) k (k <> "=" <> v) (split_two "=" k)
        (split_two "=" (k <> "=" <> v)) v h (split_two-append k v)

abbrev pub setting : String → String → String
setting key value = key <> "=" <> value

pub setting-not_empty : (k v : String) → split_two "=" k ≡ none → str_eq (setting k v) "" ≡ false
unfolding split_two
setting-not_empty k v h =
    str_eq_ne (setting k v) ""
      (λ e. absurd (ground (arith, split_two-append k v h, ap (split_two "=") e)))

pub find_arg-setting :
    (k v key : String) (args : List String)
    → split_two "=" k ≡ none
    → find_arg (setting k v ∷ args) key "="
      ≡ (if str_eq k key then some v else find_arg args key "=")
unfolding find_arg split_arg_key_val
find_arg-setting k v key args h = simp (split_two-append k v h)

pub split_two-cert_dir : split_two "=" cert_dir_argument ≡ none
unfolding split_two strip_prefix first_or
split_two-cert_dir = refl

pub split_two-secure_port : split_two "=" secure_port_argument ≡ none
unfolding split_two strip_prefix first_or
split_two-secure_port = refl

pub find_arg-if :
    (c : Bool) (k v key : String)
    → split_two "=" k ≡ none
    → find_arg (if c then setting k v ∷ [] else []) key "="
      ≡ (if c && str_eq k key then some v else none)
unfolding find_arg
find_arg-if true k v key h = find_arg-setting k v key [] h
find_arg-if false k v key h = refl

pub or_else-none : (o : Option String) → or_else o none ≡ o
or_else-none none = refl
or_else-none (some a) = refl
