-- ===== src/Planner/Store/Threshold.antt =====
-- pkg/planner/store.go: the failure threshold, from the call of `UpdatePlan` to `Node.Failed`.
use cluster_api_provider_ran.Prelude.{
  String, ◌≡◌, refl, sym, ap, ◌∙◌, inl, inr, Bool, true, false, not, ◌&&◌, ◌||◌, some, arith, Assoc,
  insert, get, map_laws, ℤ, pos, minus_one, atoi, ◌<ℤ◌, int_eq, itoa, str_eq, eq_refl,
  if◌then◌else◌, Bool-cases,
}
use cluster_api_provider_ran.Prelude.Int.Laws.{InRange, atoi-itoa, itoa-nonempty}
use cluster_api_provider_ran.Errors.{ok}
use cluster_api_provider_ran.Objects.{KubeSecret, Api}
use cluster_api_provider_ran.Planner.Store.Decode.{
  int_of, plan_hash, reached_threshold, plan_failed,
}
use cluster_api_provider_ran.Planner.Store.Update.{is_limit, plan_contents, put_limit}

-- Whether a plan with this threshold has failed after so many failures: 0 and what is below -1 count
-- as 1.
abbrev pub fails_at : ℤ → ℤ → Bool
fails_at failure_threshold count =
    pos 0 <ℤ count
    && not (int_eq failure_threshold minus_one)
    && (not (count <ℤ failure_threshold) || not (pos 0 <ℤ failure_threshold))

-- What the node's agent records after a run of the plan failed.
abbrev pub reported : String → ℤ → Assoc String → Assoc String
reported hash count contents =
    insert "failure-count" (itoa count) (insert "failed-checksum" hash contents)

pub get-put_limit :
    (j k : String) (n : ℤ) (m : Assoc String)
    → get j (put_limit k n m)
      ≡ (if str_eq k j then (if is_limit n then itoa n else "") else get j m)
unfolding put_limit
get-put_limit j k n m = elim (Bool-cases (is_limit n)) [
  | inl limit ↦ simp (limit, map_laws)
  | inr free ↦ simp (free, map_laws)
]

module _ (hash data_ : String) (max_failures failure_threshold count : ℤ)
    (contents : Assoc String) where
  -- The data of the secret once the agent has reported `count` failures of the plan just written.
  abbrev pub after_failures : Assoc String
  after_failures = reported hash count (plan_contents data_ max_failures failure_threshold contents)

  after_failures-plan : get "plan" after_failures ≡ data_
  unfolding plan_contents
  after_failures-plan = simp (map_laws, get-put_limit)

  after_failures-count : get "failure-count" after_failures ≡ itoa count
  after_failures-count = simp map_laws

  after_failures-checksum : get "failed-checksum" after_failures ≡ hash
  after_failures-checksum = simp map_laws

  after_failures-threshold :
      get "failure-threshold" after_failures
      ≡ (if is_limit failure_threshold then itoa failure_threshold else "")
  unfolding plan_contents
  after_failures-threshold = simp (map_laws, get-put_limit)

int_of_lem : (s : String) (z : ℤ) → atoi s ≡ some z → int_of s ≡ ok z
int_of_lem s z h = rw (int_of, h) refl

int_of-itoa : (z : ℤ) → InRange z → int_of (itoa z) ≡ ok z
int_of-itoa z h = int_of_lem (itoa z) z (atoi-itoa z h)

module _ {S : Type 0} (api : Api S) where
  reached_threshold_lem :
      (count threshold : ℤ) (raw : String)
      → str_eq raw "" ≡ false
      → int_of raw ≡ ok threshold
      → reached_threshold api count raw
        ≡ ok (not (count <ℤ threshold || int_eq threshold minus_one))
  unfolding reached_threshold
  reached_threshold_lem count threshold raw h k = simp (h, k)

  none_set : (count : ℤ) → reached_threshold api count "" ≡ ok true
  unfolding reached_threshold
  none_set count = refl

  reached_threshold-itoa :
      (count threshold : ℤ)
      → InRange threshold
      → reached_threshold api count (if is_limit threshold then itoa threshold else "")
        ≡ ok (
            not (int_eq threshold minus_one)
            && (not (count <ℤ threshold) || not (pos 0 <ℤ threshold)))
  reached_threshold-itoa count threshold h =
      let set =
        reached_threshold_lem count threshold (itoa threshold) (itoa-nonempty threshold h)
          (int_of-itoa threshold h) in
      let unset = none_set count in ground arith

  plan_failed-fields :
      (s : KubeSecret) (count : ℤ) (threshold : String)
      → InRange count
      → get "failure-count" s.contents ≡ itoa count
      → get "failed-checksum" s.contents ≡ plan_hash api (get "plan" s.contents)
      → get "failure-threshold" s.contents ≡ threshold
      → plan_failed api s
        ≡ (if pos 0 <ℤ count then reached_threshold api count threshold else ok false)
  unfolding plan_failed
  plan_failed-fields s count threshold h hc hk ht =
      simp (hc, hk, ht, itoa-nonempty count h, int_of-itoa count h, eq_refl)

  -- A node's plan is reported as failed exactly when the failures that its agent counted reach the
  -- threshold that the plan was written with: at least one failure, no fewer than the threshold, and
  -- never with the threshold -1.
  pub plan_failed-after_failures :
      (s : KubeSecret) (data_ : String) (max_failures failure_threshold count : ℤ)
      (contents : Assoc String)
      → InRange failure_threshold
      → InRange count
      → plan_failed api (record s {
        contents =
            after_failures
              (plan_hash api data_)
              data_
              max_failures
              failure_threshold
              count
              contents;
      })
        ≡ ok (fails_at failure_threshold count)
  plan_failed-after_failures s data_ max_failures failure_threshold count contents ht hc =
      let hash = plan_hash api data_ in
      let written = after_failures hash data_ max_failures failure_threshold count contents in
      let plan = after_failures-plan hash data_ max_failures failure_threshold count contents in
      let failed =
        plan_failed-fields (record s { contents = written }) count
          (if is_limit failure_threshold then itoa failure_threshold else "") hc
          (after_failures-count hash data_ max_failures failure_threshold count contents)
          (after_failures-checksum hash data_ max_failures failure_threshold count contents
            ∙ ap (plan_hash api) (sym plan))
          (after_failures-threshold hash data_ max_failures failure_threshold count contents) in
      rw (failed, reached_threshold-itoa count failure_threshold ht) (ground arith)
