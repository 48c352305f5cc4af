-- ===== src/Planner/Collect/Laws.antt =====
-- `collect` lists exactly the entries that its filter takes, by ascending machine name.
use mathlib.Core.List.{Perm}
use mathlib.Core.List.Perm
use cluster_api_provider_ran.Prelude.{
  ℕ, ◌+◌, ◌++◌, absurd, String, ◌≡◌, refl, sym, ◌∙◌, Bool, true, ◌||◌, ◌&&◌, List, [], ◌∷◌, arith,
  All, any, Assoc, str_eq, str_le, str_le_total, str_le_trans, Bool-cases, inl, inr, if◌then◌else◌,
}
use cluster_api_provider_ran.Objects.{Machine}
use cluster_api_provider_ran.Planner.Entry.{Plan, PlanEntry, RoleFilter, annotation}
use cluster_api_provider_ran.Planner.Collect.{
  entry_of, included, insert_by_name, sort_by_name, collect, any_with_annotation,
  collect_and_validate_annotation_value,
}

abbrev pub LeName : PlanEntry → PlanEntry → Type 0
LeName x y = str_le x.machine.name y.machine.name ≡ true

-- Each entry's machine name is at most the names after it.
abbrev pub IsSorted : List PlanEntry → Type 0
IsSorted [] = Unit
IsSorted (x ∷ xs) = All (LeName x) xs × IsSorted xs

-- A predicate on the entries is not changed by the order.
module _ (P : PlanEntry → Type 0) where
  pub All-insert_by_name :
      (x : PlanEntry) (ys : List PlanEntry) → P x → All P ys → All P (insert_by_name x ys)
  unfolding insert_by_name
  All-insert_by_name x [] hx hs = (hx, tt)
  All-insert_by_name x (y ∷ ys) hx hs = elim (Bool-cases (str_le x.machine.name y.machine.name)) [
    | inl e ↦ rw e (hx, hs)
    | inr e ↦ rw e (hs.0, All-insert_by_name x ys hx hs.1)
  ]

  pub All-sort_by_name : (xs : List PlanEntry) → All P xs → All P (sort_by_name xs)
  unfolding sort_by_name
  All-sort_by_name [] h = tt
  All-sort_by_name (x ∷ xs) h = All-insert_by_name x (sort_by_name xs) h.0 (All-sort_by_name xs h.1)

All-LeName_trans :
    (x y : PlanEntry) (zs : List PlanEntry) → LeName x y → All (LeName y) zs → All (LeName x) zs
All-LeName_trans x y [] h k = tt
All-LeName_trans x y (z ∷ zs) h k =
    (str_le_trans x.machine.name y.machine.name z.machine.name h k.0, All-LeName_trans x y zs h k.1)

insert_by_name-IsSorted :
    (x : PlanEntry) (ys : List PlanEntry) → IsSorted ys → IsSorted (insert_by_name x ys)
unfolding insert_by_name
insert_by_name-IsSorted x [] h = (tt, tt)
insert_by_name-IsSorted x (y ∷ ys) h = elim (Bool-cases (str_le x.machine.name y.machine.name)) [
  | inl e ↦ rw e ((e, All-LeName_trans x y ys e h.0), h)
  | inr e ↦ rw e (
    All-insert_by_name (LeName y) x ys (str_le_total x.machine.name y.machine.name e) h.0,
    insert_by_name-IsSorted x ys h.1,
  )
]

sort_by_name-IsSorted : (xs : List PlanEntry) → IsSorted (sort_by_name xs)
unfolding sort_by_name
sort_by_name-IsSorted [] = tt
sort_by_name-IsSorted (x ∷ xs) =
    insert_by_name-IsSorted x (sort_by_name xs) (sort_by_name-IsSorted xs)

insert_by_name-perm : (x : PlanEntry) (ys : List PlanEntry) → Perm (insert_by_name x ys) (x ∷ ys)
unfolding insert_by_name
insert_by_name-perm x [] = Perm.refl (x ∷ [])
insert_by_name-perm x (y ∷ ys) = elim (Bool-cases (str_le x.machine.name y.machine.name)) [
  | inl e ↦ rw e (Perm.refl (x ∷ y ∷ ys))
  | inr e ↦ rw e (Perm.trans (Perm.cons y (insert_by_name-perm x ys)) (Perm.swap x y ys))
]

sort_by_name-perm : (xs : List PlanEntry) → Perm (sort_by_name xs) xs
unfolding sort_by_name
sort_by_name-perm [] = Perm.refl []
sort_by_name-perm (x ∷ xs) =
    Perm.trans (insert_by_name-perm x (sort_by_name xs)) (Perm.cons x (sort_by_name-perm xs))

included-All :
    (p : Plan) (f : RoleFilter) (ms : Assoc Machine) → All (λ e. f e ≡ true) (included p f ms)
unfolding included
included-All p f [] = tt
included-All p f ((name, machine) ∷ ms) = elim (Bool-cases (f (entry_of p name machine))) [
  | inl e ↦ rw e (e, included-All p f ms)
  | inr e ↦ rw e (included-All p f ms)
]

-- What collect selects, as a specification: the entries of all machines, less those refused.
abbrev pub entries_of : Plan → Assoc Machine → List PlanEntry
entries_of p [] = []
entries_of p ((name, machine) ∷ ms) = entry_of p name machine ∷ entries_of p ms

abbrev pub select : RoleFilter → List PlanEntry → List PlanEntry
select f [] = []
select f (e ∷ es) = let rest = select f es in if f e then e ∷ rest else rest

included-eq-select :
    (p : Plan) (f : RoleFilter) (ms : Assoc Machine) → included p f ms ≡ select f (entries_of p ms)
unfolding included
included-eq-select p f [] = refl
included-eq-select p f ((name, machine) ∷ ms) = rw (included-eq-select p f ms)

-- Every entry that `collect` returns passes the filter.
pub collect-All : (p : Plan) (f : RoleFilter) → All (λ e. f e ≡ true) (collect p f)
unfolding collect
collect-All p f = All-sort_by_name (λ e. f e ≡ true) _ (included-All p f p.machines)

-- For every plan and filter, `collect` returns the entries of the plan's machines that the filter
-- takes, each as often as the plan holds it, and every machine name is at most the later ones.
pub collect_complete :
    (p : Plan) (f : RoleFilter)
    → IsSorted (collect p f) × Perm (collect p f) (select f (entries_of p p.machines))
unfolding collect
collect_complete p f = (
  sort_by_name-IsSorted (included p f p.machines),
  rw (← included-eq-select p f p.machines) (sort_by_name-perm (included p f p.machines)),
)

any-insert_by_name :
    (q : PlanEntry → Bool) (x : PlanEntry) (ys : List PlanEntry)
    → any q (insert_by_name x ys) ≡ (q x || any q ys)
unfolding insert_by_name
any-insert_by_name q x [] = refl
any-insert_by_name q x (y ∷ ys) = ground (arith, any-insert_by_name q x ys)

any-sort_by_name : (q : PlanEntry → Bool) (xs : List PlanEntry) → any q (sort_by_name xs) ≡ any q xs
unfolding sort_by_name
any-sort_by_name q [] = refl
any-sort_by_name q (x ∷ xs) =
    ground (arith, any-insert_by_name q x (sort_by_name xs), any-sort_by_name q xs)

any-included :
    (q f : RoleFilter) (p : Plan) (ms : Assoc Machine)
    → any q (included p f ms) ≡ any (λ e. f e && q e) (entries_of p ms)
unfolding included
any-included q f p [] = refl
any-included q f p ((name, machine) ∷ ms) = ground (arith, any-included q f p ms)

-- Whether some entry that `collect` returns satisfies a test, read off the plan itself.
pub any-collect :
    (q f : RoleFilter) (p : Plan)
    → any q (collect p f) ≡ any (λ e. f e && q e) (entries_of p p.machines)
unfolding collect
any-collect q f p = any-sort_by_name q (included p f p.machines) ∙ any-included q f p p.machines

any_with_annotation_lem :
    (p : Plan) (f : RoleFilter) (k v : String) (ms : Assoc Machine)
    → any_with_annotation p f k v ms ≡ any (λ e. str_eq (annotation k e) v) (included p f ms)
unfolding any_with_annotation included
any_with_annotation_lem p f k v [] = refl
any_with_annotation_lem p f k v ((name, machine) ∷ ms) =
    ground (arith, any_with_annotation_lem p f k v ms)

-- Although it stops at the first hit, `collectAndValidateAnnotationValue` answers whether some entry
-- that `collect` returns for the same filter has the annotation with that value.
pub collect_and_validate_annotation_value_lem :
    (p : Plan) (f : RoleFilter) (k v : String)
    → collect_and_validate_annotation_value p f k v
      ≡ any (λ e. str_eq (annotation k e) v) (collect p f)
unfolding collect_and_validate_annotation_value collect
collect_and_validate_annotation_value_lem p f k v =
    rw (any_with_annotation_lem p f k v p.machines)
      (sym (any-sort_by_name (λ e. str_eq (annotation k e) v) (included p f p.machines)))

-- What holds of every entry that `collect` returns holds of every entry of the plan that passes.
module _ (P : PlanEntry → Type 0) where
  insert_by_name-All :
      (x : PlanEntry) (ys : List PlanEntry) → All P (insert_by_name x ys) → All P (x ∷ ys)
  unfolding insert_by_name
  insert_by_name-All x [] h = h
  insert_by_name-All x (y ∷ ys) h = elim (Bool-cases (str_le x.machine.name y.machine.name)) [
    | inl e ↦ simp e at h
    | inr e ↦
        let k : All P (y ∷ insert_by_name x ys) = simp e at h in
        let (hx, hs) = insert_by_name-All x ys k.1 in (hx, (k.0, hs))
  ]

  sort_by_name-All : (xs : List PlanEntry) → All P (sort_by_name xs) → All P xs
  unfolding sort_by_name
  sort_by_name-All [] h = tt
  sort_by_name-All (x ∷ xs) h =
      let (hx, hs) = insert_by_name-All x (sort_by_name xs) h in (hx, sort_by_name-All xs hs)

  included-All_entries :
      (p : Plan) (f : RoleFilter) (ms : Assoc Machine)
      → All P (included p f ms)
      → All (λ e. f e ≡ true → P e) (entries_of p ms)
  unfolding included
  included-All_entries p f [] h = tt
  included-All_entries p f ((name, machine) ∷ ms) h =
      let e = entry_of p name machine in
      elim (Bool-cases (f e)) [
        | inl taken ↦
            let k : All P (e ∷ included p f ms) = simp taken at h in
            ((λ _. k.0), included-All_entries p f ms k.1)
        | inr refused ↦ (
          (λ taken. absurd (sym refused ∙ taken)),
          included-All_entries p f ms (simp refused at h),
        )
      ]

  pub collect-All_entries :
      (p : Plan) (f : RoleFilter)
      → All P (collect p f)
      → All (λ e. f e ≡ true → P e) (entries_of p p.machines)
  unfolding collect
  collect-All_entries p f h =
      included-All_entries p f p.machines (sort_by_name-All (included p f p.machines) h)

-- How many of the entries satisfy a test
abbrev pub count : RoleFilter → List PlanEntry → ℕ
count q [] = 0
count q (e ∷ es) = (if q e then 1 else 0) + count q es

pub count-append :
    (q : RoleFilter) (xs ys : List PlanEntry) → count q (xs ++ ys) ≡ count q xs + count q ys
count-append q [] ys = omega arith
count-append q (x ∷ xs) ys = omega (arith, count-append q xs ys)

count-insert_by_name :
    (q : RoleFilter) (x : PlanEntry) (ys : List PlanEntry)
    → count q (insert_by_name x ys) ≡ count q (x ∷ ys)
unfolding insert_by_name
count-insert_by_name q x [] = refl
count-insert_by_name q x (y ∷ ys) = ground (arith, count-insert_by_name q x ys)

count-sort_by_name : (q : RoleFilter) (xs : List PlanEntry) → count q (sort_by_name xs) ≡ count q xs
unfolding sort_by_name
count-sort_by_name q [] = refl
count-sort_by_name q (x ∷ xs) =
    ground (arith, count-insert_by_name q x (sort_by_name xs), count-sort_by_name q xs)

count-included :
    (q f : RoleFilter) (p : Plan) (ms : Assoc Machine)
    → count q (included p f ms) ≡ count (λ e. f e && q e) (entries_of p ms)
unfolding included
count-included q f p [] = refl
count-included q f p ((name, machine) ∷ ms) = ground (arith, count-included q f p ms)

pub count-collect :
    (q f : RoleFilter) (p : Plan)
    → count q (collect p f) ≡ count (λ e. f e && q e) (entries_of p p.machines)
unfolding collect
count-collect q f p =
    count-sort_by_name q (included p f p.machines) ∙ count-included q f p p.machines
