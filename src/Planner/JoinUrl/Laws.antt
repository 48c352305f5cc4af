-- ===== src/Planner/JoinUrl/Laws.antt =====
-- A join URL is always found inside the list of servers, and is valid for the plan.
use native.Mathlib.Nat.{mul-lt-mul_of_pos_right, div-lt_iff_lt-mul, mod-eq_of_lt}
use cluster_api_provider_ran.Prelude.{
  ℕ, zero, suc, ◌*◌, ◌/◌, ◌^◌, ◌<◌, String, ◌≡◌, ◌≢◌, refl, sym, ◌∙◌, ◌⊎◌, inl, inr, Bool, true,
  false, not, ◌&&◌, Option, none, some, List, [], ◌∷◌, arith, length, get_elem?, any, ◌==◌, str_eq,
  eq_iff, eq_refl, Bool-cases, Option-cases, if◌then◌else◌,
}
use cluster_api_provider_ran.Errors.{Result, ok}
use cluster_api_provider_ran.Objects.{Api}
use cluster_api_provider_ran.ControlPlane.{ControlPlane}
use cluster_api_provider_ran.Names
use cluster_api_provider_ran.Planner.Entry.{
  Plan, PlanEntry, annotation, role_and, role_not, is_init_node, is_only_worker,
  is_not_deleting_and_control_plane_or_init_node,
}
use cluster_api_provider_ran.Planner.Collect.{collect, valid_join_url}
use cluster_api_provider_ran.Planner.Collect.Laws.{
  any-collect, entries_of, collect_and_validate_annotation_value_lem,
}
use cluster_api_provider_ran.Planner.JoinUrl.{
  max_uint32, join_candidate, clamp_checksum, scaled_index, url_at, calculate_join_url,
  kept_join_url, or_no_join_url, determine_join_url,
}

clamp_checksum_bound : (ck : ℕ) → ck < 2 ^ 32 → clamp_checksum ck < max_uint32
unfolding clamp_checksum
clamp_checksum_bound ck h = ground arith

-- Below 2^31 servers the product does not wrap.
product_bound : (c n : ℕ) → c < max_uint32 → 0 < n → n < 2 ^ 31 → c * n < 2 ^ 63
product_bound c n hc h0 hn =
    omega (arith, mul-lt-mul_of_pos_right {m = c} {n = max_uint32} {k = n} hc h0)

quotient_bound : (c n : ℕ) → c < max_uint32 → 0 < n → c * n / max_uint32 < n
quotient_bound c n hc hn =
    (div-lt_iff_lt-mul {k = max_uint32} (omega arith)).1
      (omega (arith, mul-lt-mul_of_pos_right {m = c} {n = max_uint32} {k = n} hc hn))

scaled_index_lem :
    (ck count : ℕ)
    → clamp_checksum ck * count < 2 ^ 63
    → scaled_index ck count ≡ some (clamp_checksum ck * count / max_uint32)
unfolding scaled_index
scaled_index_lem ck count h =
    rw (mod-eq_of_lt {n = clamp_checksum ck * count} {m = 2 ^ 64} (omega arith)) (ground arith)

-- The index that a 32-bit checksum gives for `count` servers is in range.
pub scaled_index_bounds :
    (ck count : ℕ)
    → ck < 2 ^ 32
    → 0 < count
    → count < 2 ^ 31
    → (i : ℕ) × (scaled_index ck count ≡ some i) × (i < count)
scaled_index_bounds ck count hck h0 h31 =
    let small = clamp_checksum_bound ck hck in
    let fits = product_bound (clamp_checksum ck) count small h0 h31 in
    (
      clamp_checksum ck * count / max_uint32,
      scaled_index_lem ck count fits,
      quotient_bound (clamp_checksum ck) count small h0,
    )

get_elem?_of_lt {ℓ} :
    {A : Type ℓ} (xs : List A) (i : ℕ) → i < length xs → (x : A) × (get_elem? xs i ≡ some x)
get_elem?_of_lt [] i h = elim h [ ]
get_elem?_of_lt (x ∷ xs) zero h = (x, refl)
get_elem?_of_lt (x ∷ xs) (suc i) h = get_elem?_of_lt xs i (omega arith)

any-get_elem? {ℓ} :
    {A : Type ℓ} (q : A → Bool) (xs : List A) (i : ℕ) (x : A)
    → get_elem? xs i ≡ some x
    → q x ≡ true
    → any q xs ≡ true
any-get_elem? q [] i x h k = cc
any-get_elem? q (y ∷ ys) zero x h k = ground arith
any-get_elem? q (y ∷ ys) (suc i) x h k = ground (arith, any-get_elem? q ys i x h k)

any_mono {ℓ} :
    {A : Type ℓ} (p q : A → Bool) (xs : List A)
    → ((x : A) → p x ≡ true → q x ≡ true)
    → any p xs ≡ true
    → any q xs ≡ true
any_mono p q [] f h = h
any_mono p q (x ∷ xs) f h = ground (arith, f x, any_mono p q xs f)

-- A server that a worker can join carries a valid join URL.
candidate_valid :
    (url : String) (e : PlanEntry)
    → (join_candidate e && str_eq (annotation Names.join_url_annotation e) url) ≡ true
    → (is_not_deleting_and_control_plane_or_init_node e
        && str_eq (annotation Names.join_url_annotation e) url)
      ≡ true
unfolding role_and role_not is_not_deleting_and_control_plane_or_init_node
candidate_valid url e h = ground arith

valid_of_candidate :
    (plan : Plan) (i : ℕ) (e : PlanEntry)
    → get_elem? (collect plan join_candidate) i ≡ some e
    → valid_join_url plan (annotation Names.join_url_annotation e) ≡ true
unfolding valid_join_url
valid_of_candidate plan i e h =
    let url = annotation Names.join_url_annotation e in
    let q = λ (x : PlanEntry). str_eq (annotation Names.join_url_annotation x) url in
    let f = is_not_deleting_and_control_plane_or_init_node in
    collect_and_validate_annotation_value_lem plan f Names.join_url_annotation url
    ∙ any-collect q f plan
    ∙ any_mono (λ x. join_candidate x && q x) (λ x. f x && q x) (entries_of plan plan.machines)
        (candidate_valid url)
        (sym (any-collect q join_candidate plan)
          ∙ any-get_elem? q (collect plan join_candidate) i e h (eq_refl url))

-- What a calculated URL is: the init node's mark, nothing, or valid for the plan.
abbrev IsUsable : Plan → String → Type 0
IsUsable plan url = (url ≡ "-") ⊎ (url ≡ "") ⊎ (valid_join_url plan url ≡ true)

abbrev IsTotal : {A : Type 0} → Option A → Type 0
IsTotal {A} o = (a : A) × (o ≡ some a)

if_some :
    {A : Type 0} (b : Bool) (x y : Option A) → IsTotal x → IsTotal y → IsTotal (if b then x else y)
if_some true x y hx hy = hx
if_some false x y hx hy = hy

or_no_join_url_some :
    (cp : ControlPlane) (e : PlanEntry) (o : Option String)
    → IsTotal o
    → IsTotal (or_no_join_url cp e o)
or_no_join_url_some cp e none (u, h) = cc
or_no_join_url_some cp e (some url) h = (_, refl)

module _ {S : Type 0} (api : Api S) (plan : Plan) where
  abbrev servers : List PlanEntry
  servers = collect plan join_candidate

  url_at_total :
      (ck : ℕ)
      → ck < 2 ^ 32
      → length servers < 2 ^ 31
      → (length servers == 0) ≡ false
      → (i : ℕ) × (e : PlanEntry) × (scaled_index ck (length servers) ≡ some i)
        × (get_elem? servers i ≡ some e)
  url_at_total ck hck few some_server =
      let (i, found, within) = scaled_index_bounds ck (length servers) hck (ground arith) few in
      let (e, at) = get_elem?_of_lt servers i within in (i, e, found, at)

  calculate_join_url_total :
      (e : PlanEntry)
      → api.crc32 e.machine.uid < 2 ^ 32
      → length servers < 2 ^ 31
      → (url : String) × (calculate_join_url api e plan ≡ some url)
  unfolding calculate_join_url
  calculate_join_url_total e hck few = elim (Bool-cases (is_init_node e)) [
    | inl init ↦ ("-", rw init)
    | inr h ↦ elim (Bool-cases (length servers == 0)) [
      | inl z ↦ ("", rw (h, z))
      | inr nz ↦
          let (i, s, found, at) = url_at_total (api.crc32 e.machine.uid) hck few nz in
          (annotation Names.join_url_annotation s, rw (h, nz, found) (ground (arith, at)))
    ]
  ]

  url_at_usable :
      (o : Option ℕ) (url : String) → url_at servers o ≡ some url → valid_join_url plan url ≡ true
  url_at_usable none url h = cc
  url_at_usable (some i) url h = elim (Option-cases (get_elem? servers i)) [
    | inl e ↦ ground arith
    | inr (s, e) ↦ ground (arith, valid_of_candidate plan i s e)
  ]

  calculate_join_url_lem :
      (e : PlanEntry) (url : String) → calculate_join_url api e plan ≡ some url → IsUsable plan url
  unfolding calculate_join_url
  calculate_join_url_lem e url h =
      ground (arith, url_at_usable (scaled_index (api.crc32 e.machine.uid) (length servers)) url)

-- With checksums of 32 bits, and fewer than 2^31 servers to join, determineJoinURL never indexes out
-- of range: it returns a URL or an error for every entry, plan and forced URL.
pub determine_join_url_total :
    {S : Type 0} (api : Api S) (plan : Plan) (cp : ControlPlane) (e : PlanEntry) (forced : String)
    → api.crc32 e.machine.uid < 2 ^ 32
    → length (collect plan join_candidate) < 2 ^ 31
    → (r : Result String) × (determine_join_url api cp e plan forced ≡ some r)
unfolding determine_join_url
determine_join_url_total api plan cp e forced hck few =
    let kept = kept_join_url e plan in
    let calculated =
      or_no_join_url_some cp e (calculate_join_url api e plan)
        (calculate_join_url_total api plan e hck few) in
    if_some (not (is_only_worker e)) (some (ok forced)) _ (ok forced, refl)
      (if_some (not (str_eq forced "")) (some (ok forced)) _ (ok forced, refl)
        (if_some (not (str_eq kept "")) (some (ok kept)) _ (ok kept, refl) calculated))

-- A URL that determineJoinURL returns for a worker, where no URL is forced, is not empty, and it is
-- "-" or the join URL of a control plane or init node of the plan that is not being deleted.
pub determine_join_url_valid :
    {S : Type 0} (api : Api S) (plan : Plan) (cp : ControlPlane) (e : PlanEntry) (url : String)
    → is_only_worker e ≡ true
    → determine_join_url api cp e plan "" ≡ some (ok url)
    → (url ≢ "") × ((url ≡ "-") ⊎ (valid_join_url plan url ≡ true))
unfolding determine_join_url
determine_join_url_valid api plan cp e url w h =
    elim (Option-cases (calculate_join_url api e plan)) [
      | inl c ↦ ground (arith, eq_iff url "")
      | inr (u, c) ↦ ground (arith, eq_iff url "", calculate_join_url_lem api plan e u c)
    ]
