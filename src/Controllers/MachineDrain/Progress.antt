-- ===== src/Controllers/MachineDrain/Progress.antt =====
-- machinedrain.go and pkg/planner/drain.go together: where the calls succeed, the controller does
-- what the planner waits for.
use cluster_api_provider_ran.Prelude.{
  String, Bool, true, false, not, ◌&&◌, ◌≡◌, refl, sym, ap, ◌∙◌, none, List, [], ◌∷◌, Assoc, str_eq,
  get, get-insert, get-delete, arith, or_zero, delete, eq_refl,
}
use cluster_api_provider_ran.Errors.{ok, run_if}
use cluster_api_provider_ran.Objects.{Machine, KubeSecret, DrainHook, DrainOptions, Api}
use cluster_api_provider_ran.Names
use cluster_api_provider_ran.Planner.Entry.{PlanEntry, annotation}
use cluster_api_provider_ran.Planner.Store.Update.{Target}
use cluster_api_provider_ran.Planner.Drain.{
  drain_with, undrain, drain_error_or, check_for_drain_error,
}
use mathlib.Core.Path.{subst}
use cluster_api_provider_ran.Controllers.MachineDrain.{
  NodeApi, held, secret_annotation, with_secret_annotation, check_hook_annotations,
  retry_on_conflict, change_if, has_node, perform_drain, drain_node, delete_hooks,
  clean_annotations, clean_secret_annotations_if_check_true, un_drain, un_drain_decoded,
  release_node, after_uncordon, after_drain, after_cordon, drain_decoded, drain, act, on_machine,
}
use cluster_api_provider_ran.Controllers.MachineDrain.Made.{
  Reliable, Made, AnswerMade, AnnotatedAs, retry-Made, answer-Made, deferred-Made,
  update_annotation-Made, HaveAnswered, HaveAnswered-check, after_hooks-next,
}

with_self : (k v : String) (x : KubeSecret) → secret_annotation k (with_secret_annotation k v x) ≡ v
with_self k v x = simp (get-insert, eq_refl)

with_other :
    (k v j : String) (x : KubeSecret)
    → str_eq k j ≡ false
    → secret_annotation j (with_secret_annotation k v x) ≡ secret_annotation j x
with_other k v j x h = simp (get-insert, h)

no_error :
    (e : PlanEntry) (step : String)
    → annotation Names.drain_error_annotation e ≡ ""
    → check_for_drain_error e step ≡ none
unfolding check_for_drain_error
no_error e step h = simp (h)

planner_drained :
    {P : Type 0} (api : Api P) (d : String) (t : Target P)
    → annotation Names.drain_annotation t.entry ≡ d
    → annotation Names.drain_done_annotation t.entry ≡ d
    → annotation Names.drain_error_annotation t.entry ≡ ""
    → drain_with api d t ≡ ((true, none), t)
unfolding drain_with drain_error_or
planner_drained api d t hw hd he = simp (hw, hd, eq_refl, no_error t.entry "draining" he)

planner_released :
    {P : Type 0} (api : Api P) (t : Target P)
    → annotation Names.drain_annotation t.entry ≡ ""
    → annotation Names.uncordon_annotation t.entry ≡ ""
    → annotation Names.drain_error_annotation t.entry ≡ ""
    → undrain api t ≡ ((true, none), t)
unfolding undrain drain_error_or
planner_released api t hw hu he = simp (hw, hu, no_error t.entry "undraining" he)

module _ {S K : Type 0} (api : Api S) (nodes : NodeApi S K) (machine : Machine)
    (options : DrainOptions) (server : Reliable api nodes machine options) where
  module _ (d : String) (x : KubeSecret)
      (decodes : nodes.unmarshal_drain_options d ≡ ok options) where
    run_if-drains :
        (b : Bool) (s : S)
        → (u : S) × (run_if b (perform_drain api nodes machine options) s ≡ (ok tt, u))
          × (server.stored u ≡ server.stored s)
    run_if-drains true s = server.drain_ok s
    run_if-drains false s = (s, refl, refl)

    drain-Made :
        (s : S)
        → server.stored s ≡ x
        → HaveAnswered api nodes machine options server Names.pre_drain_annotation d
            options.pre_drain_hooks x
        → str_eq (secret_annotation Names.drain_done_annotation x) d ≡ false
        → AnswerMade api nodes machine options server
            (with_secret_annotation Names.drain_done_annotation d x)
            (drain api nodes x machine d s)
    unfolding drain drain_decoded after_cordon drain_node after_drain
    drain-Made s hs ha hd =
        let done = with_secret_annotation Names.drain_done_annotation d x in
        let (u, cordons, keeps) = server.cordon_ok s in
        let (v, drains, still) = run_if-drains options.enabled u in
        subst
          (λ r.
            AnswerMade api nodes machine options server done
              (drain_decoded api nodes x machine d r s))
          (sym decodes)
          (subst
            (λ r.
              AnswerMade api nodes machine options server done
                (after_cordon api nodes x machine d options r))
            (sym cordons)
            (subst (AnswerMade api nodes machine options server done)
              (sym (
                after_hooks-next api nodes machine options server Names.pre_drain_annotation d
                  options.pre_drain_hooks x (drain_node api nodes x machine d options) u ha))
              (subst
                (λ r.
                  AnswerMade api nodes machine options server done
                    (after_drain api nodes x d options r))
                (sym drains)
                (update_annotation-Made api nodes machine options server x
                  Names.drain_done_annotation d (check_hook_annotations d options.pre_drain_hooks) v
                  (still ∙ keeps ∙ hs)
                  (HaveAnswered-check api nodes machine options server Names.pre_drain_annotation d
                    options.pre_drain_hooks x ha)
                  hd))))

  -- What a planner's entry with the stored annotations says
  abbrev pub ReadsFrom : PlanEntry → S → Type 0
  ReadsFrom e s = (k : String) → annotation k e ≡ secret_annotation k (server.stored s)

  reads_error :
      (x : KubeSecret) (e : PlanEntry) (s : S)
      → AnnotatedAs api nodes machine options server x (server.stored s)
      → ReadsFrom e s
      → annotation Names.drain_error_annotation e ≡ ""
  unfolding get
  reads_error x e s (clear, rest) reads = reads Names.drain_error_annotation ∙ ap (or_zero "") clear

  reads_written :
      (x : KubeSecret) (e : PlanEntry) (s : S) (k : String)
      → AnnotatedAs api nodes machine options server x (server.stored s)
      → ReadsFrom e s
      → str_eq Names.drain_error_annotation k ≡ false
      → annotation k e ≡ secret_annotation k x
  reads_written x e s k (clear, rest) reads hk = reads k ∙ rest k hk

  drains-AnnotatedAs :
      (x : KubeSecret) (s : S)
      → let d = secret_annotation Names.drain_annotation x in
        server.stored s ≡ x
        → str_eq d "" ≡ false
        → nodes.unmarshal_drain_options d ≡ ok options
        → HaveAnswered api nodes machine options server Names.pre_drain_annotation d
            options.pre_drain_hooks x
        → str_eq (secret_annotation Names.drain_done_annotation x) d ≡ false
        → AnnotatedAs api nodes machine options server
            (with_secret_annotation Names.drain_done_annotation d x)
            (server.stored (on_machine api nodes x machine s).1)
  unfolding on_machine act
  drains-AnnotatedAs x s hs hd decodes ha hn =
      let d = secret_annotation Names.drain_annotation x in
      let done = with_secret_annotation Names.drain_done_annotation d x in
      let acted : act api nodes x machine s ≡ drain api nodes x machine d s = simp (hd, hn) in
      deferred-Made api nodes machine options server x done (act api nodes x machine s) (
        subst (AnswerMade api nodes machine options server done) (sym acted)
          (drain-Made d x decodes s hs ha hn))

  -- Draining completes: the calls succeed, the pre-drain hooks, if any, were asked and have answered,
  -- and the stored secret asks for a drain with options that decode and does not say that it is done.
  -- Then after one run of the controller, where the planner's entry has the stored annotations, the
  -- planner's drain with these options answers that the node is drained, and writes nothing.
  pub drain_completes :
      {P : Type 0} (planner_api : Api P) (x : KubeSecret) (s : S) (t : Target P)
      → let d = secret_annotation Names.drain_annotation x in
        server.stored s ≡ x
        → str_eq d "" ≡ false
        → nodes.unmarshal_drain_options d ≡ ok options
        → HaveAnswered api nodes machine options server Names.pre_drain_annotation d
            options.pre_drain_hooks x
        → str_eq (secret_annotation Names.drain_done_annotation x) d ≡ false
        → ReadsFrom t.entry (on_machine api nodes x machine s).1
        → drain_with planner_api d t ≡ ((true, none), t)
  drain_completes planner_api x s t hs hd decodes ha hn reads =
      let d = secret_annotation Names.drain_annotation x in
      let done = with_secret_annotation Names.drain_done_annotation d x in
      let after = (on_machine api nodes x machine s).1 in
      let written = drains-AnnotatedAs x s hs hd decodes ha hn in
      planner_drained planner_api d t
        (reads_written done t.entry after Names.drain_annotation written reads refl
          ∙ with_other Names.drain_done_annotation d Names.drain_annotation x refl)
        (reads_written done t.entry after Names.drain_done_annotation written reads refl
          ∙ with_self Names.drain_done_annotation d x)
        (reads_error done t.entry after written reads)

delete-empty : (k j : String) (m : Assoc String) → get j m ≡ "" → get j (delete k m) ≡ ""
delete-empty k j m h = ground (arith, get-delete j k m, h)

delete_hooks-empty :
    (hooks : List DrainHook) (k : String) (m : Assoc String)
    → get k m ≡ ""
    → get k (delete_hooks hooks m) ≡ ""
unfolding delete_hooks
delete_hooks-empty [] k m h = h
delete_hooks-empty (hook ∷ hooks) k m h =
    delete_hooks-empty hooks k (delete hook.hook_annotation m)
      (delete-empty hook.hook_annotation k m h)

clean-drain :
    (options : DrainOptions) (x : KubeSecret)
    → secret_annotation Names.drain_annotation (clean_annotations options x) ≡ ""
unfolding clean_annotations
clean-drain options x =
    delete_hooks-empty options.post_drain_hooks Names.drain_annotation _
      (delete_hooks-empty options.pre_drain_hooks Names.drain_annotation _ (simp (get-delete)))

clean-uncordon :
    (options : DrainOptions) (x : KubeSecret)
    → secret_annotation Names.uncordon_annotation (clean_annotations options x) ≡ ""
unfolding clean_annotations
clean-uncordon options x =
    delete_hooks-empty options.post_drain_hooks Names.uncordon_annotation _
      (delete_hooks-empty options.pre_drain_hooks Names.uncordon_annotation _ (simp (get-delete)))

module _ {S K : Type 0} (api : Api S) (nodes : NodeApi S K) (machine : Machine)
    (options : DrainOptions) (server : Reliable api nodes machine options) where
  clean-Made :
      (x : KubeSecret) (check : KubeSecret → Bool) (s : S)
      → server.stored s ≡ x
      → check x ≡ true
      → AnswerMade api nodes machine options server
          (clean_annotations options x)
          (clean_secret_annotations_if_check_true api nodes x options check s)
  unfolding clean_secret_annotations_if_check_true
  clean-Made x check s hs hc =
      answer-Made api nodes machine options server (clean_annotations options x) _ (
        subst
          (λ y. Made api nodes machine options server (clean_annotations options y) (
            retry_on_conflict api nodes 4 (change_if api nodes check (clean_annotations options))
              (held x s)))
          hs
          (retry-Made api nodes machine options server 4 check (clean_annotations options)
            (held x s) (rw hs hc)))

  un_drain-Made :
      (d : String) (x : KubeSecret) (s : S)
      → nodes.unmarshal_drain_options d ≡ ok options
      → server.stored s ≡ x
      → has_node machine ≡ true
      → HaveAnswered api nodes machine options server Names.post_drain_annotation d
          options.post_drain_hooks x
      → AnswerMade api nodes machine options server
          (clean_annotations options x)
          (un_drain api nodes x machine d s)
  unfolding un_drain un_drain_decoded release_node after_uncordon
  un_drain-Made d x s decodes hs hn ha =
      let clean = AnswerMade api nodes machine options server (clean_annotations options x) in
      let (u, uncordons, keeps) = server.uncordon_ok s in
      rw hn (
        subst (λ r. clean (un_drain_decoded api nodes x machine d r s)) (sym decodes)
          (subst clean
            (sym (
              after_hooks-next api nodes machine options server Names.post_drain_annotation d
                options.post_drain_hooks x (release_node api nodes x machine d options) s ha))
            (subst (λ r. clean (after_uncordon api nodes x d options r)) (sym uncordons)
              (clean-Made x (check_hook_annotations d options.post_drain_hooks) u (keeps ∙ hs) (
                HaveAnswered-check api nodes machine options server Names.post_drain_annotation d
                  options.post_drain_hooks x ha)))))

  releases-AnnotatedAs :
      (x : KubeSecret) (s : S)
      → let d = secret_annotation Names.drain_annotation x in
        server.stored s ≡ x
        → not (str_eq d "") && not (str_eq (secret_annotation Names.drain_done_annotation x) d)
          ≡ false
        → str_eq (secret_annotation Names.uncordon_annotation x) "" ≡ false
        → nodes.unmarshal_drain_options d ≡ ok options
        → has_node machine ≡ true
        → HaveAnswered api nodes machine options server Names.post_drain_annotation d
            options.post_drain_hooks x
        → AnnotatedAs api nodes machine options server
            (clean_annotations options x)
            (server.stored (on_machine api nodes x machine s).1)
  unfolding on_machine act
  releases-AnnotatedAs x s hs hd hu decodes hn ha =
      let d = secret_annotation Names.drain_annotation x in
      let acted : act api nodes x machine s ≡ un_drain api nodes x machine d s = simp (hd, hu) in
      deferred-Made api nodes machine options server x (clean_annotations options x)
        (act api nodes x machine s)
        (subst (AnswerMade api nodes machine options server (clean_annotations options x))
          (sym acted) (un_drain-Made d x s decodes hs hn ha))

  -- Releasing completes: the calls succeed, the node exists, the post-drain hooks, if any, were asked
  -- and have answered, and the stored secret asks for an uncordon and for no drain that is still to
  -- be done, with options that decode. Then after one run of the controller, where the planner's entry
  -- has the stored annotations, the planner's undrain answers that the node is released, and writes
  -- nothing.
  pub release_completes :
      {P : Type 0} (planner_api : Api P) (x : KubeSecret) (s : S) (t : Target P)
      → let d = secret_annotation Names.drain_annotation x in
        server.stored s ≡ x
        → not (str_eq d "") && not (str_eq (secret_annotation Names.drain_done_annotation x) d)
          ≡ false
        → str_eq (secret_annotation Names.uncordon_annotation x) "" ≡ false
        → nodes.unmarshal_drain_options d ≡ ok options
        → has_node machine ≡ true
        → HaveAnswered api nodes machine options server Names.post_drain_annotation d
            options.post_drain_hooks x
        → ReadsFrom api nodes machine options server t.entry (on_machine api nodes x machine s).1
        → undrain planner_api t ≡ ((true, none), t)
  release_completes planner_api x s t hs hd hu decodes hn ha reads =
      let clean = clean_annotations options x in
      let after = (on_machine api nodes x machine s).1 in
      let written = releases-AnnotatedAs x s hs hd hu decodes hn ha in
      planner_released planner_api t
        (reads_written api nodes machine options server clean t.entry after Names.drain_annotation
            written reads refl
          ∙ clean-drain options x)
        (reads_written api nodes machine options server clean t.entry after
            Names.uncordon_annotation written reads refl
          ∙ clean-uncordon options x)
        (reads_error api nodes machine options server clean t.entry after written reads)
