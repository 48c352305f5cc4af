-- ===== src/Planner/Concurrency.antt =====
-- pkg/planner/planner.go: `calculateConcurrency`, how many nodes of a tier may be unavailable.
use cluster_api_provider_ran.Prelude.{
  ℕ, ◌+◌, String, Bool, false, not, none, some, List, [], ◌∷◌, ℤ, pos, atoi, str_eq, if◌then◌else◌,
}
use cluster_api_provider_ran.Errors.{other, Result, ok, err}
use cluster_api_provider_ran.Objects.{Api}
use cluster_api_provider_ran.Planner.Entry.{RoleFilter}
use cluster_api_provider_ran.Planner.Change.{Reconcilable, is_unavailable}

-- r.entry.Plan != nil && isUnavailable(r)
unfoldable pub counts_as_unavailable : Reconcilable → Bool
counts_as_unavailable r = elim r.entry.plan [ none ↦ false | some node ↦ is_unavailable r node ]

unfoldable pub count_included : RoleFilter → List Reconcilable → ℕ
count_included exclude [] = 0
count_included exclude (r ∷ rs) =
    let rest = count_included exclude rs in if not (exclude r.entry) then rest + 1 else rest

unfoldable pub count_unavailable : List Reconcilable → ℕ
count_unavailable [] = 0
count_unavailable (r ∷ rs) =
    let rest = count_unavailable rs in if counts_as_unavailable r then rest + 1 else rest

module _ {S : Type 0} (api : Api S) where
  -- Without a number: one node for an empty text, else a percentage of the nodes, rounded up.
  unfoldable pub concurrency_of : ℕ → String → Result ℤ
  concurrency_of count max_unavailable = elim (atoi max_unavailable) [
    | some num ↦ ok num
    | none ↦
        if str_eq max_unavailable ""
        then ok (pos 1)
        else elim (api.percent_of count max_unavailable) [
          | none ↦ err (other "concurrency must be a number or a percentage")
          | some num ↦ ok num
        ]
  ]

  -- The concurrency, 0 for no limit, and how many nodes are unavailable already.
  unfoldable pub calculate_concurrency : String → List Reconcilable → RoleFilter → Result (ℤ × ℕ)
  unfolding count_included count_unavailable concurrency_of
  calculate_concurrency max_unavailable rs exclude =
      elim (concurrency_of (count_included exclude rs) max_unavailable) [
        | err e ↦ err e
        | ok num ↦ ok (num, count_unavailable rs)
      ]
