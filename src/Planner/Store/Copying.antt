-- ===== src/Planner/Store/Copying.antt =====
-- pkg/planner/store.go: which labels and annotations `CopyMap` carries into a plan's secret.
use cluster_api_provider_ran.Prelude.{
  String, ◌≡◌, inl, inr, Option, none, some, [], ◌∷◌, arith, Assoc, lookup, lookup-insert, eq_iff,
  if◌then◌else◌, Bool-cases,
}
use cluster_api_provider_ran.Planner.Store.Update.{label_annotation_match, copy_map}

abbrev or_else : Option String → Option String → Option String
or_else none d = d
or_else (some v) d = some v

-- A key with one of the prefixes takes its value from the source, where the source has it; every other
-- key of the destination stays as it is.
pub copy_map_lem :
    (k : String) (destination source : Assoc String)
    → lookup k (copy_map destination source) ≡ (
        if label_annotation_match k
        then or_else (lookup k source) (lookup k destination)
        else lookup k destination)
unfolding copy_map lookup
copy_map_lem k destination [] = ground arith
copy_map_lem k destination ((j, v) ∷ source) =
    let rest = copy_map_lem k destination source in
    let found = lookup-insert k j v (copy_map destination source) in
    elim (Bool-cases (label_annotation_match j)) [
      | inl matches ↦ rw (matches, found, rest) (ground (arith, eq_iff j k))
      | inr differs ↦ rw (differs, rest) (ground (arith, eq_iff j k))
    ]
