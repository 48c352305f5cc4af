-- ===== src/Plan/Equal.antt =====
-- equality.Semantic.DeepEqual and reflect.DeepEqual on node plans. A nil slice or map is an empty
-- one here, and maps are compared key by key, whatever their order.
use cluster_api_provider_ran.Prelude.{
  String, ◌≡◌, refl, Bool, true, false, ◌&&◌, Option, none, some, List, [], ◌∷◌, ◌++◌, arith, Assoc,
  lookup, keys, all, ◌==◌, str_eq, eq_iff, eq_refl,
}
use cluster_api_provider_ran.Plan.{
  HttpGetAction, Probe, OneTimeInstruction, PeriodicInstruction, File, NodePlan,
}

module _ {A : Type 0} (eq : A → A → Bool) where
  abbrev pub list_eq : List A → List A → Bool
  list_eq [] [] = true
  list_eq [] (y ∷ ys) = false
  list_eq (x ∷ xs) [] = false
  list_eq (x ∷ xs) (y ∷ ys) = eq x y && list_eq xs ys

  abbrev pub option_eq : Option A → Option A → Bool
  option_eq none none = true
  option_eq none (some b) = false
  option_eq (some a) none = false
  option_eq (some a) (some b) = eq a b

  -- Two maps have the same keys with equal values.
  abbrev pub map_eq : Assoc A → Assoc A → Bool
  map_eq m n = all (λ k. option_eq (lookup k m) (lookup k n)) (keys m ++ keys n)

  module _ (eq_sound : (a b : A) → eq a b ≡ true → a ≡ b) where
    pub list_eq_sound : (xs ys : List A) → list_eq xs ys ≡ true → xs ≡ ys
    list_eq_sound [] [] h = refl
    list_eq_sound [] (y ∷ ys) h = cc
    list_eq_sound (x ∷ xs) [] h = cc
    list_eq_sound (x ∷ xs) (y ∷ ys) h = ground (arith, eq_sound x y, list_eq_sound xs ys)

  module _ (eq_self : (a : A) → eq a a ≡ true) where
    pub list_eq_self : (xs : List A) → list_eq xs xs ≡ true
    list_eq_self [] = refl
    list_eq_self (x ∷ xs) = ground (arith, eq_self x, list_eq_self xs)

    pub option_eq_self : (o : Option A) → option_eq o o ≡ true
    option_eq_self none = refl
    option_eq_self (some a) = eq_self a

    all_same :
        (m : Assoc A) (ks : List String) → all (λ k. option_eq (lookup k m) (lookup k m)) ks ≡ true
    all_same m [] = refl
    all_same m (k ∷ ks) = ground (arith, option_eq_self (lookup k m), all_same m ks)

    pub map_eq_self : (m : Assoc A) → map_eq m m ≡ true
    map_eq_self m = all_same m (keys m ++ keys m)

abbrev pub bool_eq : Bool → Bool → Bool
bool_eq true b = b
bool_eq false true = false
bool_eq false false = true

unfoldable pub file_eq : File → File → Bool
file_eq a b =
    str_eq a.content b.content
    && str_eq a.path b.path
    && str_eq a.permissions b.permissions
    && bool_eq a.dynamic b.dynamic
    && bool_eq a.minor b.minor

unfoldable pub one_time_instruction_eq : OneTimeInstruction → OneTimeInstruction → Bool
one_time_instruction_eq a b =
    str_eq a.name b.name
    && str_eq a.image b.image
    && list_eq str_eq a.env b.env
    && list_eq str_eq a.args b.args
    && str_eq a.command b.command
    && bool_eq a.save_output b.save_output

unfoldable pub periodic_instruction_eq : PeriodicInstruction → PeriodicInstruction → Bool
periodic_instruction_eq a b =
    str_eq a.name b.name
    && str_eq a.image b.image
    && list_eq str_eq a.env b.env
    && list_eq str_eq a.args b.args
    && str_eq a.command b.command
    && a.period_seconds == b.period_seconds

unfoldable pub http_get_action_eq : HttpGetAction → HttpGetAction → Bool
http_get_action_eq a b =
    str_eq a.url b.url
    && bool_eq a.insecure b.insecure
    && str_eq a.client_cert b.client_cert
    && str_eq a.client_key b.client_key
    && str_eq a.ca_cert b.ca_cert

unfoldable pub probe_eq : Probe → Probe → Bool
unfolding http_get_action_eq
probe_eq a b =
    str_eq a.name b.name
    && a.initial_delay_seconds == b.initial_delay_seconds
    && a.timeout_seconds == b.timeout_seconds
    && a.success_threshold == b.success_threshold
    && a.failure_threshold == b.failure_threshold
    && http_get_action_eq a.http_get_action b.http_get_action

unfoldable pub node_plan_eq : NodePlan → NodePlan → Bool
unfolding file_eq one_time_instruction_eq periodic_instruction_eq probe_eq
node_plan_eq a b =
    list_eq file_eq a.files b.files
    && list_eq one_time_instruction_eq a.instructions b.instructions
    && list_eq periodic_instruction_eq a.periodic_instructions b.periodic_instructions
    && str_eq a.error b.error
    && map_eq probe_eq a.probes b.probes

pub str_eq_sound : (s t : String) → str_eq s t ≡ true → s ≡ t
str_eq_sound s t = (eq_iff s t).0

bool_eq_sound : (a b : Bool) → bool_eq a b ≡ true → a ≡ b
bool_eq_sound a b h = ground arith

bool_eq_self : (a : Bool) → bool_eq a a ≡ true
bool_eq_self a = ground arith

pub one_time_instruction_eq_sound :
    (a b : OneTimeInstruction) → one_time_instruction_eq a b ≡ true → a ≡ b
unfolding one_time_instruction_eq
one_time_instruction_eq_sound a b h = ground (
  arith,
  eq_iff a.name b.name,
  eq_iff a.image b.image,
  eq_iff a.command b.command,
  list_eq_sound str_eq str_eq_sound a.env b.env,
  list_eq_sound str_eq str_eq_sound a.args b.args,
  bool_eq_sound a.save_output b.save_output,
)

pub instructions_eq_sound :
    (xs ys : List OneTimeInstruction) → list_eq one_time_instruction_eq xs ys ≡ true → xs ≡ ys
instructions_eq_sound = list_eq_sound one_time_instruction_eq one_time_instruction_eq_sound

file_eq_self : (a : File) → file_eq a a ≡ true
unfolding file_eq
file_eq_self a = ground (
  arith,
  eq_refl a.content,
  eq_refl a.path,
  eq_refl a.permissions,
  bool_eq_self a.dynamic,
  bool_eq_self a.minor,
)

one_time_instruction_eq_self : (a : OneTimeInstruction) → one_time_instruction_eq a a ≡ true
unfolding one_time_instruction_eq
one_time_instruction_eq_self a = ground (
  arith,
  eq_refl a.name,
  eq_refl a.image,
  list_eq_self str_eq eq_refl a.env,
  list_eq_self str_eq eq_refl a.args,
  eq_refl a.command,
  bool_eq_self a.save_output,
)

periodic_instruction_eq_self : (a : PeriodicInstruction) → periodic_instruction_eq a a ≡ true
unfolding periodic_instruction_eq
periodic_instruction_eq_self a = ground (
  arith,
  eq_refl a.name,
  eq_refl a.image,
  list_eq_self str_eq eq_refl a.env,
  list_eq_self str_eq eq_refl a.args,
  eq_refl a.command,
)

http_get_action_eq_self : (a : HttpGetAction) → http_get_action_eq a a ≡ true
unfolding http_get_action_eq
http_get_action_eq_self a = ground (
  arith,
  eq_refl a.url,
  eq_refl a.client_cert,
  eq_refl a.client_key,
  eq_refl a.ca_cert,
  bool_eq_self a.insecure,
)

probe_eq_self : (a : Probe) → probe_eq a a ≡ true
unfolding probe_eq
probe_eq_self a = ground (arith, eq_refl a.name, http_get_action_eq_self a.http_get_action)

-- A plan never differs from itself.
pub node_plan_eq_self : (a : NodePlan) → node_plan_eq a a ≡ true
unfolding node_plan_eq
node_plan_eq_self a = ground (
  arith,
  list_eq_self file_eq file_eq_self a.files,
  list_eq_self one_time_instruction_eq one_time_instruction_eq_self a.instructions,
  list_eq_self periodic_instruction_eq periodic_instruction_eq_self a.periodic_instructions,
  eq_refl a.error,
  map_eq_self probe_eq probe_eq_self a.probes,
)
