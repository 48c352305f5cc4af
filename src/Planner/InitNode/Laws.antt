-- ===== src/Planner/InitNode/Laws.antt =====
use mathlib.Core.Path.{subst}
-- pkg/planner/initnode.go: what an election that answers without an error has found.
use cluster_api_provider_ran.Prelude.{
  String, ◌≡◌, refl, sym, ap, ◌∙◌, inl, inr, Bool, true, false, ◌&&◌, ◌||◌, Option, none, some,
  List, [], ◌∷◌, arith, absurd, any, All, if◌then◌else◌, str_eq, eq_iff, Bool-cases,
}
use cluster_api_provider_ran.Errors.{
  Error, other, skip, error_of, pure, continue, is_err_skip, ◌>>=◌, Result, ok, err, Run,
}
use cluster_api_provider_ran.Errors.Laws.{then-raise}
use cluster_api_provider_ran.Objects.{Api}
use cluster_api_provider_ran.ControlPlane.{ControlPlane}
use cluster_api_provider_ran.Names
use cluster_api_provider_ran.Planner.Entry.{
  is_etcd, Plan, PlanEntry, label, annotation, set_label, is_init_node, can_be_init_node,
}
use cluster_api_provider_ran.Planner.Collect.{collect}
use cluster_api_provider_ran.Planner.Collect.Laws.{collect-All, entries_of, any-collect}
use cluster_api_provider_ran.Planner.InitNode.{
  swallow_skip, more_suitable, not_found_because, fixed_machine_id, join_url_of, on_target,
  set_init_node_mark, clear_init_node_mark, clear_marks, mark_first, mark_candidate, after_clearing,
  re_elect, elect, Found, find_marked, find_init_node, after_search, elect_init_node,
  first_with_join_url, UrlAnswer,
}
use cluster_api_provider_ran.Planner.Reconcile.Pass.{World}
use cluster_api_provider_ran.Planner.Store.Update.{
  remove_plan_secret_label, update_plan_secret_labels_and_annotations,
}

module _ {T : Type 0} where
  never_false :
      (p : Result Bool × T) → (continue p.0 (λ rest. pure true) p.1).0 ≡ ok false → false ≡ true
  never_false (ok a, t) k = ground arith
  never_false (err x, t) k = ground arith

  traced_err :
      (b : Bool) (x : Error) (n : Run T Bool) (t : T)
      → (continue
          (if b then ok true else err x)
          (λ cleared. n >>= λ rest. pure (cleared || rest))
          t).0
        ≡ ok false
      → false ≡ true
  traced_err true x n t k = never_false (n t) k
  traced_err false x n t k = ground arith

  traced :
      (n : Run T Bool) (p : Result (Unit {0}) × T)
      → (p.0 ≡ ok tt → false ≡ true)
      → (continue
          (elim p.0 [ ok _ ↦ ok false | err x ↦ if is_err_skip x then ok true else err x ])
          (λ cleared. n >>= λ rest. pure (cleared || rest))
          p.1).0
        ≡ ok false
      → false ≡ true
  traced n (ok _, u) h k = h refl
  traced n (err x, u) h k = traced_err (is_err_skip x) x n u k

  -- An error that is swallowed leaves its trace in the answer.
  swallow_skip-traced :
      (m : Run T (Unit {0})) (n : Run T Bool) (t : T)
      → ((m t).0 ≡ ok tt → false ≡ true)
      → ((swallow_skip m >>= λ cleared. n >>= λ rest. pure (cleared || rest)) t).0 ≡ ok false
      → false ≡ true
  unfolding swallow_skip
  swallow_skip-traced m n t h k = traced n (m t) h k

true_text : (s : String) → str_eq s "true" ≡ true → str_eq s "" ≡ false
true_text s h = ap (λ t. str_eq t "") ((eq_iff s "true").0 h)

error_of-none : (r : Result (Unit {0})) → error_of r ≡ none → r ≡ ok tt
error_of-none (ok _) h = refl
error_of-none (err x) h = ground arith

abbrev passes : (PlanEntry → Bool) → Option PlanEntry → Bool
passes q none = false
passes q (some e) = q e

abbrev is_marked : PlanEntry → Bool
is_marked e = str_eq (label Names.init_node_label e) "true"

abbrev blank : PlanEntry → Bool
blank e = str_eq (annotation Names.join_url_annotation e) ""

any_head :
    (q : PlanEntry → Bool) (e : PlanEntry) (es : List PlanEntry)
    → any q (e ∷ es) ≡ false
    → q e ≡ false
any_head q e es h = ground arith

any_tail :
    (q : PlanEntry → Bool) (e : PlanEntry) (es : List PlanEntry)
    → any q (e ∷ es) ≡ false
    → any q es ≡ false
any_tail q e es h = ground arith

first_with_join_url-any :
    (q : PlanEntry → Bool) (es : List PlanEntry) (e : PlanEntry)
    → any q es ≡ false
    → first_with_join_url es ≡ some e
    → q e ≡ false
unfolding first_with_join_url
first_with_join_url-any q [] e h k = ground arith
first_with_join_url-any q (d ∷ es) e h k = elim (Bool-cases (blank d)) [
  | inl empty ↦ first_with_join_url-any q es e (any_tail q d es h) (simp empty at k)
  | inr filled ↦ sym (ap (passes q) (simp filled at k)) ∙ any_head q d es h
]

module _ {S : Type 0} (api : Api S) where
  -- A node without the mark is never marked silently.
  set_init_node_mark-err :
      (e : PlanEntry) (w : World S)
      → is_marked e ≡ false
      → (set_init_node_mark api e w).0 ≡ ok tt
      → false ≡ true
  unfolding set_init_node_mark
  set_init_node_mark-err e w h k =
      then-raise
        (on_target (set_label Names.init_node_label "true" e)
          (update_plan_secret_labels_and_annotations api))
        skip tt w (simp h at k)

  clear_init_node_mark-err :
      (e : PlanEntry) (w : World S)
      → str_eq (label Names.init_node_label e) "" ≡ false
      → (clear_init_node_mark api e w).0 ≡ ok tt
      → false ≡ true
  unfolding clear_init_node_mark
  clear_init_node_mark-err e w h k =
      then-raise (on_target e (remove_plan_secret_label api Names.init_node_label)) skip tt w
        (simp h at k)

  marked_label :
      (e : PlanEntry) → is_init_node e ≡ true → str_eq (label Names.init_node_label e) "" ≡ false
  unfolding is_init_node
  marked_label e h = true_text (label Names.init_node_label e) (ground arith)

  -- Clearing marks that are there is never silent.
  clear_marks-marked :
      (e : PlanEntry) (es : List PlanEntry) (w : World S)
      → is_init_node e ≡ true
      → (clear_marks api (λ _. false) (e ∷ es) w).0 ≡ ok false
      → false ≡ true
  unfolding clear_marks
  clear_marks-marked e es w h k =
      swallow_skip-traced (clear_init_node_mark api e) (clear_marks api (λ _. false) es) w
        (clear_init_node_mark-err e w (marked_label e h)) k

  mark_first-err :
      (fallback : PlanEntry) (first : Option PlanEntry) (w : World S)
      → is_marked fallback ≡ false
      → ((e : PlanEntry) → first ≡ some e → is_marked e ≡ false)
      → (mark_first api fallback first w).0.1 ≡ none
      → false ≡ true
  unfolding mark_first
  mark_first-err fallback none w hf hs k = set_init_node_mark-err fallback w hf (error_of-none _ k)
  mark_first-err fallback (some e) w hf hs k =
      set_init_node_mark-err e w (hs e refl) (error_of-none _ k)

  -- Where no candidate is marked, electing one is never silent.
  mark_candidate-err :
      (es : List PlanEntry) (w : World S)
      → any is_marked es ≡ false
      → (mark_candidate api es w).0.1 ≡ none
      → false ≡ true
  unfolding mark_candidate
  mark_candidate-err [] w h k = ground arith
  mark_candidate-err (e ∷ es) w h k =
      mark_first-err e (first_with_join_url (e ∷ es)) w (any_head is_marked e es h)
        (λ d first. first_with_join_url-any is_marked (e ∷ es) d h first) k

  any_mono :
      (q r : PlanEntry → Bool) (es : List PlanEntry)
      → ((e : PlanEntry) → q e ≡ true → r e ≡ true)
      → any r es ≡ false
      → any q es ≡ false
  any_mono q r [] h k = refl
  any_mono q r (e ∷ es) h k = ground (arith, h e, any_mono q r es h)

  init_if_marked :
      (e : PlanEntry)
      → can_be_init_node api e && is_marked e ≡ true
      → is_init_node e && is_marked e ≡ true
  unfolding can_be_init_node is_etcd is_init_node
  init_if_marked e h = ground arith

  -- Where no node is the init node, no candidate has the mark.
  candidates_unmarked :
      (p : Plan)
      → collect p is_init_node ≡ []
      → any is_marked (collect p (can_be_init_node api)) ≡ false
  candidates_unmarked p h =
      any-collect is_marked (can_be_init_node api) p
      ∙ any_mono (λ e. can_be_init_node api e && is_marked e) (λ e. is_init_node e && is_marked e)
          (entries_of p p.machines) (λ e. init_if_marked e)
          (sym (any-collect is_marked is_init_node p) ∙ ap (any is_marked) h)

  after_clearing-err :
      (p : Result Bool × World S)
      → (p.0 ≡ ok false → false ≡ true)
      → (after_clearing api p).0.1 ≡ none
      → false ≡ true
  unfolding after_clearing
  after_clearing-err (err x, w) h k = ground arith
  after_clearing-err (ok true, w) h k = ground arith
  after_clearing-err (ok false, w) h k = h refl

  re_elect_over :
      (es : List PlanEntry) (w : World S)
      → collect w.plan is_init_node ≡ es
      → (after_clearing api (clear_marks api (λ _. false) es w)).0.1 ≡ none
      → false ≡ true
  re_elect_over [] w h k =
      mark_candidate-err (collect w.plan (can_be_init_node api)) w (candidates_unmarked w.plan h)
        (unfold clear_marks after_clearing in k)
  re_elect_over (e ∷ es) w h k =
      let marked = subst (All (λ d. is_init_node d ≡ true)) h (collect-All w.plan is_init_node) in
      after_clearing-err (clear_marks api (λ _. false) (e ∷ es) w)
        (clear_marks-marked e es w marked.0) k

  -- The election is never silent, since whatever it writes makes the caller wait.
  elect-err :
      (cp : ControlPlane) (allow : Bool) (marked : List PlanEntry) (w : World S)
      → (elect api cp allow marked w).0.1 ≡ none
      → false ≡ true
  unfolding elect re_elect
  elect-err cp true marked w k = re_elect_over _ w refl k
  elect-err cp false [] w k = re_elect_over _ w refl k
  elect-err cp false (e ∷ es) w k = ground arith

  after_search-err :
      (cp : ControlPlane) (allow : Bool) (f : Found) (message : String) (w : World S)
      → str_eq (fixed_machine_id cp) "" ≡ true
      → f.error ≡ some (other message)
      → (after_search api cp allow f w).0.1 ≡ none
      → false ≡ true
  unfolding after_search is_err_skip
  after_search-err cp allow f message w h e k =
      elect-err cp allow (collect w.plan is_init_node) w (elim (Bool-cases f.found) [
        | inl found ↦ simp (found, e, h) at k
        | inr missing ↦ simp (missing, e, h) at k
      ])

  -- The node that is marked, and the answer for it.
  abbrev pub IsElected : World S → String → World S → Type 0
  IsElected w url w' =
      (e : PlanEntry) × (collect w.plan is_init_node ≡ e ∷ [])
      × (can_be_init_node api e ≡ true)
      × (url ≡ annotation Names.join_url_annotation e)
      × (w' ≡ w)

  module _ (cp : ControlPlane) (allow : Bool) (w : World S)
      (not_fixed : str_eq (fixed_machine_id cp) "" ≡ true) where
    search_fails :
        (f : Found) (message url : String) (w' : World S)
        → f.error ≡ some (other message)
        → after_search api cp allow f w ≡ ((url, none), w')
        → IsElected w url w'
    search_fails f message url w' e k =
        absurd (after_search-err cp allow f message w not_fixed e (ap (λ r. r.0.1) k))

    search_done :
        (e : PlanEntry) (url url' : String) (w' : World S)
        → collect w.plan is_init_node ≡ e ∷ []
        → can_be_init_node api e ≡ true
        → url' ≡ annotation Names.join_url_annotation e
        → ◌≡◌ {A = UrlAnswer × World S} ((url', none), w) ((url, none), w')
        → IsElected w url w'
    search_done e url url' w' h fit same k =
        (e, h, fit, sym (ap (λ r. r.0.0) k) ∙ same, sym (ap (λ r. r.1) k))

    search_blank :
        (e : PlanEntry) (first : Option PlanEntry) (url : String) (w' : World S)
        → collect w.plan is_init_node ≡ e ∷ []
        → can_be_init_node api e ≡ true
        → join_url_of e ≡ ""
        → after_search api cp allow
            (record { found = true; join_url = ""; entry = some e; error = more_suitable first })
            w
          ≡ ((url, none), w')
        → IsElected w url w'
    search_blank e none url w' h fit same k =
        search_done e url "" w' h fit (sym same) (unfold after_search in k)
    search_blank e (some d) url w' h fit same k = search_fails _ _ url w' refl k

    search_one :
        (e : PlanEntry) (url : String) (w' : World S)
        → collect w.plan is_init_node ≡ e ∷ []
        → after_search api cp allow (find_marked api w.plan (e ∷ [])) w ≡ ((url, none), w')
        → IsElected w url w'
    unfolding find_marked
    search_one e url w' h k = elim (Bool-cases (can_be_init_node api e)) [
      | inr unfit ↦
          search_fails (not_found_because (other "init node not found")) _ url w' refl
            (simp unfit at k)
      | inl fit ↦ elim (Bool-cases (str_eq (join_url_of e) "")) [
        | inl empty ↦
            search_blank e _ url w' h fit ((eq_iff (join_url_of e) "").0 empty)
              (simp (fit, empty) at k)
        | inr filled ↦
            search_done e url (join_url_of e) w' h fit refl
              (unfold after_search in (simp (fit, filled) at k))
      ]
    ]

    search_over :
        (es : List PlanEntry) (url : String) (w' : World S)
        → collect w.plan is_init_node ≡ es
        → after_search api cp allow (find_marked api w.plan es) w ≡ ((url, none), w')
        → IsElected w url w'
    search_over [] url w' h k = unfold find_marked in search_fails _ _ url w' refl k
    search_over (e ∷ []) url w' h k = search_one e url w' h k
    search_over (e ∷ d ∷ es) url w' h k = unfold find_marked in search_fails _ _ url w' refl k

  search_marked :
      (cp : ControlPlane) (w : World S)
      → str_eq (fixed_machine_id cp) "" ≡ true
      → find_init_node api cp w ≡ (find_marked api w.plan (collect w.plan is_init_node), w)
  unfolding find_init_node
  search_marked cp w h = simp h

  -- In a cluster without a fixed init node, an election that answers without an error has written
  -- nothing and found a single init node: a machine that can be one, with the answer as its join URL.
  -- Every other outcome is an error there, with which the caller waits for the caches or fails.
  pub elect_init_node_silent :
      (cp : ControlPlane) (allow : Bool) (url : String) (w w' : World S)
      → str_eq (fixed_machine_id cp) "" ≡ true
      → elect_init_node api cp allow w ≡ ((url, none), w')
      → IsElected w url w'
  unfolding elect_init_node
  elect_init_node_silent cp allow url w w' h k =
      let searched = ap (λ r. after_search api cp allow r.0 r.1) (search_marked cp w h) in
      search_over cp allow w h (collect w.plan is_init_node) url w' refl (sym searched ∙ k)
