-- ===== src/Runs/Closed.antt =====
-- `runAgent` of internal/sandbox/agent.go: what is mounted in a sandbox that can reach every host.
use demesne.Base.{
  ◌⊎◌, ap, ◌∙◌, ◌>>=◌, ◌≡◌, refl, All, Bool-cases, inl, inr, Option, none, some, List, ◌++◌, Str,
  str_eq, str_eq_iff, Result, err, ok, bind_inversion, require, arith,
}
use demesne.Egress.{
  Action, allow, deny, NetworkPolicy, egress_open, hosts_of, not_a_mode, deny_but,
  build_network_policy,
}
use demesne.Launch.{launch_sandbox}
use demesne.Prepare.{wrap_err}
use demesne.Prepare.Policy.{wrapped_ok}
use demesne.Spawns.{AgentSpec}
use demesne.Layout.Isolation.{
  AsksNothing, OutOf, build_layout-OutOf, own_mounts, build_layout-own_mounts,
}
use demesne.Runs.Calls.{run_agent-All}
use demesne.Runs.{
  RunHost, RunError, policy_refused, not_launched, create_under, under, RunCall, created,
  create_sandbox, run_agent,
}

-- A policy with which a sandbox can reach every host.
abbrev pub IsOpen : NetworkPolicy → Type 0
IsOpen p = p.default_action ≡ allow

denied-IsOpen :
    (mode : Str) (listed : Option (List Str)) (hosts : List Str) (p : NetworkPolicy)
    → (require listed (not_a_mode mode) >>= (λ l. ok (deny_but (l ++ hosts)))) ≡ ok p
    → ¬ IsOpen p
denied-IsOpen mode none hosts p e o = cc e
denied-IsOpen mode (some l) hosts p e o =
    let denied : deny ≡ p.default_action = cc e in let wrong : deny ≡ allow = denied ∙ o in cc wrong

-- Only the mode open gives one.
pub policy-IsOpen :
    (mode : Str) (hosts : List Str) (p : NetworkPolicy)
    → build_network_policy mode hosts ≡ ok p
    → IsOpen p
    → mode ≡ egress_open
unfolding build_network_policy
policy-IsOpen mode hosts p e o = elim (Bool-cases (str_eq mode egress_open)) [
  | inl t ↦ (str_eq_iff mode egress_open).0 t
  | inr f ↦ absurd (denied-IsOpen mode (hosts_of mode) hosts p (ground (arith, e, f)) o)
]

decided : {A : Type 0} (a : Action) → (a ≡ allow → A) → (¬ (a ≡ allow)) ⊎ A
decided allow f = inr (f refl)
decided deny f = inl (λ same. cc same)

launched-same :
    (q p : NetworkPolicy) (sb : Str) (r : Result RunError Str)
    → (r >>= under q) ≡ ok (p, sb)
    → q ≡ p
launched-same q p sb (err e) h = absurd (cc h)
launched-same q p sb (ok b) h = cc h

module _ (h : RunHost) where
  under-same : (q p : NetworkPolicy) (sb : Str) → create_under h q ≡ ok (p, sb) → q ≡ p
  under-same q p sb e = elim (Bool-cases h.write_context) [
    | inr f ↦ absurd (ground (arith, e, f))
    | inl t ↦ elim (Bool-cases h.write_agent_config) [
      | inr f ↦ absurd (ground (arith, e, t, f))
      | inl u ↦
          launched-same q p sb (wrap_err not_launched (launch_sandbox h.create h.is_done).1)
            (ground (arith, e, t, u))
    ]
  ]

  created-IsOpen :
      (spec : AgentSpec) (p : NetworkPolicy) (sb : Str)
      → create_sandbox h spec ≡ ok (p, sb)
      → IsOpen p
      → spec.egress ≡ egress_open
  created-IsOpen spec p sb e o =
      let built = build_network_policy spec.egress h.egress_hosts in
      let (q, made, rest) = bind_inversion (wrap_err policy_refused built) (create_under h) e in
      policy-IsOpen spec.egress h.egress_hosts p
        (wrapped_ok policy_refused built p (made ∙ ap ok (under-same q p sb rest))) o

  -- A sandbox that can reach every host has no mounts but the control files, the workspace and the
  -- output of its own run: the first two are directories of its job, and Own says which the last is.
  abbrev pub IsPrivate : (Str → Type 0) → RunCall → Type 0
  IsPrivate Own (created sb mounts p) =
      (¬ IsOpen p) ⊎ ((out : Str) × Own out × (mounts ≡ own_mounts h.layout h.job out))
  IsPrivate Own c = Unit

  -- An agent whose spec asks for no inputs where it asks for open egress is never given both.
  pub run_agent-IsPrivate :
      (Own : Str → Type 0) (spec : AgentSpec)
      → ((out : Str) → OutOf h.layout h.job spec.spawned out → Own out)
      → (spec.egress ≡ egress_open → AsksNothing spec)
      → All (IsPrivate Own) (run_agent h spec).calls
  run_agent-IsPrivate Own spec own guarded =
      run_agent-All h spec (IsPrivate Own) (λ sb. tt, λ sb i p. tt, λ sb d. tt, λ sb d. tt, λ j. tt)
        (λ p sb l made laid. decided p.default_action (λ o. (
          l.out_host,
          own l.out_host (build_layout-OutOf h.layout h.job spec l laid),
          build_layout-own_mounts h.layout h.job spec l (guarded (created-IsOpen spec p sb made o))
              laid,
        )))
        (λ r l there laid. tt)
