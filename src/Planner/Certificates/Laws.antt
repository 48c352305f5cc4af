-- ===== src/Planner/Certificates/Laws.antt =====
-- pkg/planner/certificaterotation.go: which nodes a rotation reaches, and when it counts as done.
use mathlib.Core.Path.{subst}
use cluster_api_provider_ran.Prelude.{
  String, ◌≡◌, refl, sym, ap, ◌∙◌, inl, inr, Bool, true, false, not, ◌&&◌, ◌||◌, Option, none, some,
  List, [], ◌∷◌, ◌++◌, All, absurd, arith, ℤ, pos, int_eq, str_eq, ◌<>◌, ◌+◌, Bool-cases, is_some,
  or_zero,
}
use cluster_api_provider_ran.Errors.{Error, Result, ok, err, Run, lift, continue}
use cluster_api_provider_ran.Errors.Laws.{ok-bind, ok-then, then-raise}
use cluster_api_provider_ran.Plan.{NodePlan}
use cluster_api_provider_ran.Objects.{Api}
use cluster_api_provider_ran.ControlPlane.{RotateCertificates, Status, ControlPlane}
use cluster_api_provider_ran.Planner.Entry.{
  Plan, PlanEntry, RoleFilter, role_and, is_etcd, is_control_plane, is_only_etcd,
  is_only_control_plane, is_only_worker, any_role, no_role,
}
use cluster_api_provider_ran.Planner.Collect.{collect}
use cluster_api_provider_ran.Planner.Collect.Laws.{
  entries_of, count, count-append, count-collect, collect-All_entries,
}
use cluster_api_provider_ran.Planner.CapiCluster.{ClusterApi, pause_capi_cluster}
use cluster_api_provider_ran.Planner.Desired.{ConfigPlan}
use cluster_api_provider_ran.Planner.InitNode.{on_target, find_init_node}
use cluster_api_provider_ran.Planner.FullReconcile.{Round}
use cluster_api_provider_ran.Planner.Reconcile.Pass.{World}
use cluster_api_provider_ran.Planner.Store.Assign.{assign_and_check_plan}
use cluster_api_provider_ran.Planner.Store.Assigned.{IsApplied, assign_and_check_plan_ok}
use cluster_api_provider_ran.Planner.EtcdRestore.Stop.{on_server}
use cluster_api_provider_ran.Planner.Certificates.Plans.{rotate_certificates_plan}
use cluster_api_provider_ran.Planner.Certificates.{
  collect_ordered_certificate_rotation_entries, should_rotate, should_rotate_entry, pause_on_error,
  rotate_entry, rotate_each, unpaused, finish_rotation, rotate_all, rotate_with, rotate_for,
  rotate_certificates,
}

one_group :
    (q : RoleFilter) (es : List PlanEntry)
    → count (λ e. is_only_etcd e && q e) es
        + count (λ e. role_and is_control_plane is_etcd e && q e) es
        + count (λ e. is_only_control_plane e && q e) es
        + count (λ e. is_only_worker e && q e) es
      ≡ count (λ e. any_role e && q e) es
unfolding is_only_etcd role_and is_only_control_plane is_only_worker any_role no_role
one_group q [] = refl
one_group q (e ∷ es) = ground (arith, one_group q es)

-- A rotation collects every machine of the plan that has a role exactly once, and no other machine:
-- whatever test is made, as many of the collected entries satisfy it as of the entries of the plan's
-- machines with a role.
pub rotation_groups :
    (q : RoleFilter) (p : Plan)
    → count q (collect_ordered_certificate_rotation_entries p)
      ≡ count (λ e. any_role e && q e) (entries_of p p.machines)
unfolding collect_ordered_certificate_rotation_entries
rotation_groups q p =
    let c1 = collect p is_only_etcd in
    let c2 = collect p (role_and is_control_plane is_etcd) in
    let c3 = collect p is_only_control_plane in
    let c4 = collect p is_only_worker in
    rw
      (
        count-append q (c1 ++ c2 ++ c3) c4,
        count-append q (c1 ++ c2) c3,
        count-append q c1 c2,
        count-collect q is_only_etcd p,
        count-collect q (role_and is_control_plane is_etcd) p,
        count-collect q is_only_control_plane p,
        count-collect q is_only_worker p,
      )
      (one_group q (entries_of p p.machines))

append-All :
    (P : PlanEntry → Type 0) (xs ys : List PlanEntry) → All P (xs ++ ys) → All P xs × All P ys
append-All P [] ys h = (tt, h)
append-All P (x ∷ xs) ys (hx, hs) = let (h, k) = append-All P xs ys hs in ((hx, h), k)

one_of :
    (P : PlanEntry → Type 0) (e : PlanEntry)
    → (is_only_etcd e ≡ true → P e)
    → (role_and is_control_plane is_etcd e ≡ true → P e)
    → (is_only_control_plane e ≡ true → P e)
    → (is_only_worker e ≡ true → P e)
    → any_role e ≡ true
    → P e
unfolding is_only_etcd role_and is_only_control_plane is_only_worker any_role no_role
one_of P e a b c w h = elim (Bool-cases (is_etcd e)) [
  | inl etcd ↦ elim (Bool-cases (is_control_plane e)) [
    | inl cp ↦ b (ground arith)
    | inr no_cp ↦ a (ground arith)
  ]
  | inr no_etcd ↦ elim (Bool-cases (is_control_plane e)) [
    | inl cp ↦ c (ground arith)
    | inr no_cp ↦ w (ground arith)
  ]
]

-- Each of the four groups, for an entry with a role
each_group :
    (P : PlanEntry → Type 0) (es : List PlanEntry)
    → All (λ e. is_only_etcd e ≡ true → P e) es
    → All (λ e. role_and is_control_plane is_etcd e ≡ true → P e) es
    → All (λ e. is_only_control_plane e ≡ true → P e) es
    → All (λ e. is_only_worker e ≡ true → P e) es
    → All (λ e. any_role e ≡ true → P e) es
each_group P [] h1 h2 h3 h4 = tt
each_group P (e ∷ es) (a, h1) (b, h2) (c, h3) (w, h4) =
    (one_of P e a b c w, each_group P es h1 h2 h3 h4)

-- What holds of every node that is collected holds of every machine of the plan with a role.
collected-All :
    (P : PlanEntry → Type 0) (p : Plan)
    → All P (collect_ordered_certificate_rotation_entries p)
    → All (λ e. any_role e ≡ true → P e) (entries_of p p.machines)
unfolding collect_ordered_certificate_rotation_entries
collected-All P p h =
    let c1 = collect p is_only_etcd in
    let c2 = collect p (role_and is_control_plane is_etcd) in
    let c3 = collect p is_only_control_plane in
    let c4 = collect p is_only_worker in
    let (k3, h4) = append-All P (c1 ++ c2 ++ c3) c4 h in
    let (k2, h3) = append-All P (c1 ++ c2) c3 k3 in
    let (h1, h2) = append-All P c1 c2 k2 in
    each_group P (entries_of p p.machines) (collect-All_entries P p is_only_etcd h1)
      (collect-All_entries P p (role_and is_control_plane is_etcd) h2)
      (collect-All_entries P p is_only_control_plane h3) (collect-All_entries P p is_only_worker h4)

abbrev generation_of : Status → ℤ
generation_of s = s.certificate_rotation_generation

abbrev is_done : RotateCertificates → Status → Bool
is_done rotation s = int_eq (generation_of s) rotation.generation

module _ {S : Type 0} (api : Api S) (clusters : ClusterApi S) (cp : ControlPlane)
    (config_plan : ConfigPlan) where
  -- A node that the rotation concerns has applied the plan that rotates its certificates.
  abbrev pub IsRotated : RotateCertificates → String → PlanEntry → Type 0
  IsRotated rotation join_server e =
      should_rotate_entry rotation e ≡ true
      → (p : NodePlan) × (joined : String) × (rotate_certificates_plan api cp config_plan rotation e
            join_server
          ≡ ok (p, joined))
        × IsApplied p e.plan

  pause_on_error_ok :
      (r : Result (Unit {0}) × World S) (u : World S)
      → pause_on_error api clusters cp config_plan r ≡ (ok tt, u)
      → r.0 ≡ ok tt
  unfolding pause_on_error
  pause_on_error_ok (ok _, w) u h = refl
  pause_on_error_ok (err e, w) u h =
      absurd (then-raise (on_server (pause_capi_cluster clusters cp true)) e tt w (ap (λ r. r.0) h))

  abbrev assigns : PlanEntry → NodePlan × String → Run (World S) (Unit {0})
  assigns e planned w = pause_on_error api clusters cp config_plan (
      on_target e
        (assign_and_check_plan api ("[" <> e.machine.name <> "] certificate rotation") planned.0
          planned.1 (pos 0) (pos 0))
        w)

  rotate_entry_ok :
      (rotation : RotateCertificates) (join_server : String) (e : PlanEntry) (w u : World S)
      → rotate_entry api clusters cp config_plan rotation join_server e w ≡ (ok tt, u)
      → (p : NodePlan) × (joined : String) × (rotate_certificates_plan api cp config_plan rotation e
            join_server
          ≡ ok (p, joined))
        × IsApplied p e.plan
  unfolding rotate_entry on_target
  rotate_entry_ok rotation join_server e w u h =
      let ((p, joined), v, rendered, assigned) =
        ok-bind (assigns e) tt u
          (lift (rotate_certificates_plan api cp config_plan rotation e join_server)) w h in
      let (applied, _) =
        assign_and_check_plan_ok api ("[" <> e.machine.name <> "] certificate rotation") p joined
          (pos 0) (pos 0) (record { entry = e; server = v.server })
          (pause_on_error_ok
            (on_target e
              (assign_and_check_plan api ("[" <> e.machine.name <> "] certificate rotation") p
                joined (pos 0) (pos 0))
              v)
            u assigned) in
      (p, joined, ap (λ r. r.0) rendered, applied)

  rotate_each_ok :
      (rotation : RotateCertificates) (join_server : String) (es : List PlanEntry) (w u : World S)
      → rotate_each api clusters cp config_plan rotation join_server es w ≡ (ok tt, u)
      → All (IsRotated rotation join_server) es
  unfolding rotate_each
  rotate_each_ok rotation join_server [] w u h = tt
  rotate_each_ok rotation join_server (e ∷ es) w u h =
      elim (Bool-cases (should_rotate_entry rotation e)) [
        | inl concerned ↦
            let (_, v, first, rest) =
              ok-then (rotate_entry api clusters cp config_plan rotation join_server e)
                (rotate_each api clusters cp config_plan rotation join_server es) tt w u
                (simp concerned at h) in
            (
              (λ _. rotate_entry_ok rotation join_server e w v first),
              rotate_each_ok rotation join_server es v u rest,
            )
        | inr left_out ↦ (
          (λ concerned. absurd (sym left_out ∙ concerned)),
          rotate_each_ok rotation join_server es w u (simp left_out at h),
        )
      ]

  unpaused_done :
      (rotation : RotateCertificates) (r : Result (Unit {0}) × S) (t : Round S)
      → is_done rotation t.status ≡ false
      → is_done rotation (unpaused api clusters cp config_plan rotation r t).1.status ≡ true
      → r ≡ (ok tt, r.1)
  unfolding unpaused
  unpaused_done rotation (err e, s) t h k = absurd (sym h ∙ k)
  unpaused_done rotation (ok _, s) t h k = refl

  finished_after :
      (rotation : RotateCertificates) (r : Result (Unit {0}) × World S) (t : Round S)
      → is_done rotation t.status ≡ false
      → is_done rotation
          (continue r.0
            (λ _. finish_rotation api clusters cp config_plan rotation)
            (record t { world = r.1 })).1.status
        ≡ true
      → (r ≡ (ok tt, r.1))
        × (pause_capi_cluster clusters cp false r.1.server
            ≡ (ok tt, (pause_capi_cluster clusters cp false r.1.server).1))
  unfolding finish_rotation
  finished_after rotation (err e, w) t h k = absurd (sym h ∙ k)
  finished_after rotation (ok _, w) t h k =
      (refl, unpaused_done rotation (pause_capi_cluster clusters cp false w.server) _ h k)

  -- What a rotation that counts as done has established: each machine of the plan with a role that the
  -- rotation concerns has applied its plan, and in the world that rotating the nodes has left, the
  -- cluster was unpaused.
  abbrev pub IsCompleted : RotateCertificates → String → World S → Type 0
  IsCompleted rotation join_server w =
      All (λ e. any_role e ≡ true → IsRotated rotation join_server e)
        (entries_of w.plan w.plan.machines)
      × (rotated : World S) × (s : S) × (rotate_each api clusters cp config_plan rotation
            join_server (collect_ordered_certificate_rotation_entries w.plan) w
          ≡ (ok tt, rotated))
      × (pause_capi_cluster clusters cp false rotated.server ≡ (ok tt, s))

  rotate_all_done :
      (rotation : RotateCertificates) (join_server : String) (t : Round S)
      → is_done rotation t.status ≡ false
      → is_done rotation (rotate_all api clusters cp config_plan rotation join_server t).1.status
        ≡ true
      → IsCompleted rotation join_server t.world
  unfolding rotate_all
  rotate_all_done rotation join_server t h k =
      let nodes = collect_ordered_certificate_rotation_entries t.world.plan in
      let r = rotate_each api clusters cp config_plan rotation join_server nodes t.world in
      let (done, unpause) = finished_after rotation r t h k in
      (
        collected-All (IsRotated rotation join_server) t.world.plan
            (rotate_each_ok rotation join_server nodes t.world r.1 done),
        r.1,
        _,
        done,
        unpause,
      )

  rotate_with_done :
      (rotation : RotateCertificates) (error : Option Error) (found : Bool) (join_server : String)
      (t : Round S)
      → is_done rotation t.status ≡ false
      → is_done rotation
          (rotate_with api clusters cp config_plan rotation error found join_server t).1.status
        ≡ true
      → IsCompleted rotation join_server t.world
  unfolding rotate_with
  rotate_with_done rotation (some e) found join_server t h k = absurd (sym h ∙ k)
  rotate_with_done rotation none found join_server t h k =
      elim (Bool-cases (not found || str_eq join_server "")) [
        | inl skipped ↦ absurd (sym h ∙ (simp skipped at k))
        | inr goes ↦ rotate_all_done rotation join_server t h (simp goes at k)
      ]

  -- A rotation that was asked for
  abbrev DoneFor : Option RotateCertificates → Round S → RotateCertificates → Type 0
  DoneFor asked t rotation =
      is_done rotation t.status ≡ false
      → is_done rotation (rotate_for api clusters cp config_plan asked t).1.status ≡ true
      → (should_rotate cp ≡ true)
        × IsCompleted rotation (find_init_node api cp t.world).0.join_url
            (find_init_node api cp t.world).1

  rotate_some_done : (r : RotateCertificates) (t : Round S) → DoneFor (some r) t r
  unfolding rotate_for
  rotate_some_done r t h k = elim (Bool-cases (should_rotate cp)) [
    | inr idle ↦ absurd (sym h ∙ (simp idle at k))
    | inl due ↦ (
      due,
      let (f, w) = find_init_node api cp t.world in
          rotate_with_done r f.error f.found f.join_url (record t { world = w }) h (simp due at k),
    )
  ]

  rotate_for_done :
      (asked : Option RotateCertificates) (rotation : RotateCertificates) (t : Round S)
      → asked ≡ some rotation
      → DoneFor asked t rotation
  rotate_for_done none rotation t a = absurd (ap is_some a)
  rotate_for_done (some r) rotation t a =
      subst (DoneFor (some r) t) (ap (or_zero r) a) (rotate_some_done r t)

  -- A rotation counts as done, which is what its generation in the status says, only if it was due,
  -- every machine of the plan with a role that it concerns has applied the plan that rotates its
  -- certificates, and the cluster was unpaused once all of them had.
  pub rotate_certificates_done :
      (rotation : RotateCertificates) (t : Round S)
      → cp.rotate_certificates ≡ some rotation
      → is_done rotation t.status ≡ false
      → is_done rotation (rotate_certificates api clusters cp config_plan t).1.status ≡ true
      → (should_rotate cp ≡ true)
        × IsCompleted rotation
            (find_init_node api cp t.world).0.join_url
            (find_init_node api cp t.world).1
  unfolding rotate_certificates
  rotate_certificates_done rotation t a h k =
      rotate_for_done cp.rotate_certificates rotation t a h k
