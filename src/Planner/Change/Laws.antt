-- ===== src/Planner/Change/Laws.antt =====
-- pkg/planner/planner.go: what a minor change of a plan is.
use cluster_api_provider_ran.Prelude.{
  String, ◌≡◌, refl, sym, ap, ◌∙◌, ◌⊎◌, inl, inr, Bool, true, false, not, ◌&&◌, ◌||◌, none, some,
  List, [], ◌∷◌, arith, Assoc, lookup, delete, lookup-delete, is_some, str_eq, eq_iff, eq_refl,
  if◌then◌else◌, Bool-cases, Option-cases,
}
use cluster_api_provider_ran.Plan.{File, NodePlan}
use cluster_api_provider_ran.Plan.Equal.{list_eq, one_time_instruction_eq, instructions_eq_sound}
use cluster_api_provider_ran.Planner.Drain.{get_restart_stamp, should_drain}
use cluster_api_provider_ran.Planner.Change.{
  files_by_path, drop_unchanged, all_minor, minor_rest, minor_plan_change_detected,
}
use cluster_api_provider_ran.Objects.{Api}

-- An old file with this path and this content.
unfoldable pub has_same : String → String → List File → Bool
has_same path content [] = false
has_same path content (f ∷ fs) =
    str_eq f.path path && str_eq f.content content || has_same path content fs

-- Each old file is minor, or the new plan has a file of its path.
unfoldable pub majors_stay : Assoc File → List File → Bool
majors_stay m [] = true
majors_stay m (f ∷ fs) = (f.minor || is_some (lookup f.path m)) && majors_stay m fs

all_minor_lem :
    (k : String) (g : File) (m : Assoc File)
    → all_minor m ≡ true
    → lookup k m ≡ some g
    → g.minor ≡ true
unfolding all_minor lookup
all_minor_lem k g [] h hk = ground arith
all_minor_lem k g ((j, f) ∷ m) h hk = elim (Bool-cases (str_eq j k)) [
  | inl same ↦ ground arith
  | inr other ↦ ground (arith, all_minor_lem k g m)
]

module _ (f : File) (fs : List File) (m : Assoc File) where
  drop-found :
      (g : File)
      → lookup f.path m ≡ some g
      → drop_unchanged (f ∷ fs) m
        ≡ drop_unchanged fs (if str_eq f.content g.content then delete f.path m else m)
  unfolding drop_unchanged
  drop-found g h = simp (drop_unchanged, h)

  drop-gone :
      lookup f.path m ≡ none
      → drop_unchanged (f ∷ fs) m ≡ (if not f.minor then none else drop_unchanged fs m)
  unfolding drop_unchanged
  drop-gone h = simp (drop_unchanged, h)

majors_stay-delete :
    (k : String) (m : Assoc File) (fs : List File)
    → majors_stay (delete k m) fs ≡ true
    → majors_stay m fs ≡ true
unfolding majors_stay
majors_stay-delete k m [] h = refl
majors_stay-delete k m (f ∷ fs) h =
    ground (arith, majors_stay-delete k m fs, lookup-delete f.path k m)

drop_unchanged-old :
    (olds : List File) (m rest : Assoc File)
    → drop_unchanged olds m ≡ some rest
    → majors_stay m olds ≡ true
unfolding majors_stay
drop_unchanged-old [] m rest h = refl
drop_unchanged-old (f ∷ fs) m rest h = elim (Option-cases (lookup f.path m)) [
  | inl gone ↦ ground (arith, drop-gone f fs m gone, drop_unchanged-old fs m rest)
  | inr (g, found) ↦ ground (
    arith,
    drop-found f fs m g found,
    drop_unchanged-old fs m rest,
    drop_unchanged-old fs (delete f.path m) rest,
    majors_stay-delete f.path m fs,
  )
]

drop_unchanged-new :
    (olds : List File) (m rest : Assoc File) (k : String) (g : File)
    → drop_unchanged olds m ≡ some rest
    → lookup k m ≡ some g
    → (lookup k rest ≡ some g) ⊎ (has_same k g.content olds ≡ true)
unfolding has_same
drop_unchanged-new [] m rest k g h hk = inl (unfold drop_unchanged in ground arith)
drop_unchanged-new (f ∷ fs) m rest k g h hk = elim (Option-cases (lookup f.path m)) [
  | inl gone ↦ ground (arith, drop-gone f fs m gone, drop_unchanged-new fs m rest k g)
  | inr (new, found) ↦ ground (
    arith,
    drop-found f fs m new found,
    drop_unchanged-new fs m rest k g,
    drop_unchanged-new fs (delete f.path m) rest k g,
    lookup-delete k f.path m,
    eq_iff f.path k,
  )
]

module _ (old new : NodePlan) where
  -- What the tests of minorPlanChangeDetected leave.
  minor_parts :
      minor_plan_change_detected old new ≡ true
      → (list_eq one_time_instruction_eq old.instructions new.instructions ≡ true)
        × (minor_rest (drop_unchanged old.files (files_by_path new.files [])) ≡ true)
  unfolding minor_plan_change_detected
  minor_parts h = ground arith

  module _ (h : minor_rest (drop_unchanged old.files (files_by_path new.files [])) ≡ true) where
    left_none : drop_unchanged old.files (files_by_path new.files []) ≡ none → false ≡ true
    unfolding minor_rest
    left_none k = sym (ap minor_rest k) ∙ h

    left_minor :
        (m : Assoc File)
        → drop_unchanged old.files (files_by_path new.files []) ≡ some m
        → all_minor m ≡ true
    unfolding minor_rest
    left_minor m k = let kept = sym (ap minor_rest k) ∙ h in ground arith

  -- A minor change never asks for a drain: the instructions, with their restart stamps, are the same.
  pub minor_change_never_drains :
      {S : Type 0} (api : Api S)
      → minor_plan_change_detected old new ≡ true
      → should_drain api (some old) new ≡ false
  unfolding should_drain get_restart_stamp
  minor_change_never_drains api h =
      let same = instructions_eq_sound old.instructions new.instructions (minor_parts h).0 in
      simp (same, eq_refl)

  -- What a minor change may change: every old file that is not minor still has a file at its path,
  -- and each file of the new plan is minor or has the content of an old file at the same path.
  pub minor_change_spares_major_files :
      (path : String) (f : File)
      → minor_plan_change_detected old new ≡ true
      → lookup path (files_by_path new.files []) ≡ some f
      → (majors_stay (files_by_path new.files []) old.files ≡ true)
        × ((f.minor ≡ true) ⊎ (has_same path f.content old.files ≡ true))
  minor_change_spares_major_files path f h k =
      let news = files_by_path new.files [] in
      elim (Option-cases (drop_unchanged old.files news)) [
        | inl gone ↦ ground (arith, left_none (minor_parts h).1 gone)
        | inr (m, left) ↦ (
          drop_unchanged-old old.files news m left,
          elim (drop_unchanged-new old.files news m path f left k) [
            | inl stays ↦ inl (all_minor_lem path f m (left_minor (minor_parts h).1 m left) stays)
            | inr same ↦ inr same
          ],
        )
      ]
