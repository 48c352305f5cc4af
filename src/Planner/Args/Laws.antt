-- ===== src/Planner/Args/Laws.antt =====
-- PruneEmpty in pkg/planner/planner.go, key by key.
use cluster_api_provider_ran.Prelude.{
  String, false, ◌≡◌, ◌∙◌, refl, Option, none, some, str_eq, List, [], ◌∷◌, Assoc, lookup, keys,
  delete, member, ◌&&◌, eq_iff, lookup-delete, if◌then◌else◌, arith,
}
use cluster_api_provider_ran.Objects.{Value}
use cluster_api_provider_ran.Planner.Args.{has_empty_value, prune_keys, prune_empty}

lookup-not-member : (k : String) (m : Assoc Value) → member k (keys m) ≡ false → lookup k m ≡ none
unfolding lookup member
lookup-not-member k [] h = refl
lookup-not-member k ((j, v) ∷ m) h = ground (arith, lookup-not-member k m)

prune_keys_lem :
    (k : String) (ks : List String) (m : Assoc Value)
    → lookup k (prune_keys ks m)
      ≡ (if member k ks && has_empty_value (lookup k m) then none else lookup k m)
unfolding prune_keys member has_empty_value
prune_keys_lem k [] m = refl
prune_keys_lem k (j ∷ ks) m = ground (
  arith,
  prune_keys_lem k ks m,
  prune_keys_lem k ks (delete j m),
  lookup-delete k j m,
  eq_iff j k,
)

-- What a configuration keeps, value by value: texts and lists that are not empty, and what is neither
-- a text nor a list nor nil.
abbrev pub kept : Option Value → Option Value
kept none = none
kept (some Value.nil) = none
kept (some (Value.string s)) = if str_eq s "" then none else some (Value.string s)
kept (some (Value.strings [])) = none
kept (some (Value.strings (x ∷ xs))) = some (Value.strings (x ∷ xs))
kept (some (Value.interfaces [])) = none
kept (some (Value.interfaces (x ∷ xs))) = some (Value.interfaces (x ∷ xs))
kept (some (Value.other x)) = some (Value.other x)

kept_lem : (o : Option Value) → (if has_empty_value o then none else o) ≡ kept o
unfolding has_empty_value
kept_lem none = refl
kept_lem (some Value.nil) = refl
kept_lem (some (Value.string s)) = refl
kept_lem (some (Value.strings [])) = refl
kept_lem (some (Value.strings (x ∷ xs))) = refl
kept_lem (some (Value.interfaces [])) = refl
kept_lem (some (Value.interfaces (x ∷ xs))) = refl
kept_lem (some (Value.other x)) = refl

pruned :
    (k : String) (m : Assoc Value)
    → lookup k (prune_empty m) ≡ (if has_empty_value (lookup k m) then none else lookup k m)
unfolding prune_empty has_empty_value
pruned k m = ground (arith, prune_keys_lem k (keys m) m, lookup-not-member k m)

-- PruneEmpty removes the keys whose value is nil, an empty text or an empty slice of texts or of any
-- values, and leaves every other key with its value.
pub prune_empty_lem : (k : String) (m : Assoc Value) → lookup k (prune_empty m) ≡ kept (lookup k m)
prune_empty_lem k m = pruned k m ∙ kept_lem (lookup k m)
