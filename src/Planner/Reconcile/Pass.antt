-- ===== src/Planner/Reconcile/Pass.antt =====
-- pkg/planner/planner.go: the variables of `reconcile`, and its writes to them.
use cluster_api_provider_ran.Prelude.{ℕ, ◌+◌, String, none, some, List, [], ◌∷◌, ◌++◌, insert}
use cluster_api_provider_ran.Errors.{Run, modify}
use cluster_api_provider_ran.Planner.Entry.{Plan, PlanEntry}
use cluster_api_provider_ran.Planner.Messages.{Messages, messages_of}
use cluster_api_provider_ran.Planner.Store.Update.{Target}

-- The machines sorted by what is wrong with them, their messages, and the unavailable count.
pub record Progress : Type 0 where
  pub ready : List String
  pub out_of_sync : List String
  pub non_ready : List String
  pub err_machines : List String
  pub draining : List String
  pub uncordoned : List String
  pub messages : Messages
  pub unavailable : ℕ

-- `plan` is the cluster's plan, whose metadata the entries share.
pub record Pass (S : Type 0) : Type 0 where
  pub progress : Progress
  pub plan : Plan
  pub server : S

-- entry.Metadata is a pointer into the plan: what is written through it shows there.
unfoldable pub write_back : PlanEntry → Plan → Plan
write_back e p = elim e.metadata [
  | none ↦ p
  | some m ↦ record p { metadata = insert e.machine.name m p.metadata }
]

module _ {S : Type 0} where
  -- An operation on one entry, which also answers with the entry that it leaves.
  unfoldable pub with_target :
      {B : Type 0} → PlanEntry → (Target S → B × Target S) → Pass S → (B × PlanEntry) × Pass S
  unfolding write_back
  with_target e m p =
      let (b, t) = m (record { entry = e; server = p.server }) in
      ((b, t.entry), record p { plan = write_back t.entry p.plan; server = t.server })

  abbrev pub on_progress : (Progress → Progress) → Run (Pass S) (Unit {0})
  on_progress f = modify (λ p. record p { progress = f p.progress })

abbrev pub add_ready : String → Progress → Progress
add_ready name g = record g { ready = g.ready ++ name ∷ [] }

abbrev pub add_out_of_sync : String → Progress → Progress
add_out_of_sync name g = record g { out_of_sync = g.out_of_sync ++ name ∷ [] }

abbrev pub add_non_ready : String → Progress → Progress
add_non_ready name g = record g { non_ready = g.non_ready ++ name ∷ [] }

abbrev pub add_err_machine : String → Progress → Progress
add_err_machine name g = record g { err_machines = g.err_machines ++ name ∷ [] }

abbrev pub add_draining : String → Progress → Progress
add_draining name g = record g { draining = g.draining ++ name ∷ [] }

abbrev pub add_uncordoned : String → Progress → Progress
add_uncordoned name g = record g { uncordoned = g.uncordoned ++ name ∷ [] }

-- messages[name] = msgs
abbrev pub set_messages : String → List String → Progress → Progress
set_messages name msgs g = record g { messages = insert name msgs g.messages }

-- messages[name] = append(messages[name], msg)
abbrev pub add_message : String → String → Progress → Progress
add_message name msg g = record g {
  messages = insert name (messages_of name g.messages ++ msg ∷ []) g.messages;
}

-- unavailable++
abbrev pub add_unavailable : Progress → Progress
add_unavailable g = record g { unavailable = g.unavailable + 1 }

abbrev pub no_progress : ℕ → Progress
no_progress unavailable = record {
  ready = [];
  out_of_sync = [];
  non_ready = [];
  err_machines = [];
  draining = [];
  uncordoned = [];
  messages = [];
  unavailable = unavailable;
}

-- What outlives a call of `reconcile`: the cluster's plan and the API server.
pub record World (S : Type 0) : Type 0 where
  pub plan : Plan
  pub server : S
