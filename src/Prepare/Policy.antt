-- ===== src/Prepare/Policy.antt =====
-- `prepareSandbox` of internal/sandbox/runner.go: the policy of the sandbox is that of the mode.
use demesne.Base.{
  ◌≡◌, refl, sym, ◌∙◌, ap, inl, inr, Bool-cases, ltb_ℤ, pos, List, Str, Result, err, ok, ◌>>=◌,
  bind_inversion, arith,
}
use demesne.Children.{SpawnContext, Volume}
use demesne.Egress.{build_network_policy, resolve_image}
use demesne.Launch.{launch_sandbox}
use demesne.Prepare.{
  PrepOptions, PrepareError, image_refused, policy_refused, not_launched, HostAnswers, Prepared,
  Envelope, MountPlan, wrap_err, recorded, envelope, prepared_with, root_mounts, child_mounts,
  launch_with, prepare_root, launch_child, in_envelope, prepare_child,
}

pub wrapped_ok :
    {E F : Type 0} {A : Type 0} (f : E → F) (r : Result E A) (a : A)
    → wrap_err f r ≡ ok a
    → r ≡ ok a
wrapped_ok f (err e) a h = absurd (cc h)
wrapped_ok f (ok b) a h = cc h

with-policy :
    (e : Envelope) (m : MountPlan) (p : Prepared) (r : Result PrepareError Str)
    → (r >>= prepared_with e m) ≡ ok p
    → p.policy ≡ e.1
with-policy e m p (err f) same = absurd (cc same)
with-policy (uri, q) (mounts, out) p (ok sb) same = cc same

module _ (h : HostAnswers) (o : PrepOptions) where
  -- The policy that the options ask for.
  abbrev pub Asked : Prepared → Type 0
  Asked p = build_network_policy o.mode h.egress_hosts ≡ ok p.policy

  envelope-policy :
      (e : Envelope) → envelope h o ≡ ok e → build_network_policy o.mode h.egress_hosts ≡ ok e.1
  envelope-policy e same =
      let built = wrap_err policy_refused (build_network_policy o.mode h.egress_hosts) in
      let (uri, found, rest) =
        bind_inversion (wrap_err image_refused (resolve_image h.ensure_image o.image))
          (λ u. built >>= (λ p. ok (u, p))) same in
      let (p, made, paired) = bind_inversion built (λ q. ok (uri, q)) rest in
      wrapped_ok policy_refused (build_network_policy o.mode h.egress_hosts) e.1
        (made ∙ ap ok (cc paired))

  launched-policy :
      (e : Envelope) (m : MountPlan) (p : Prepared) → launch_with h o e m ≡ ok p → p.policy ≡ e.1
  launched-policy e m p same = elim (Bool-cases (ltb_ℤ (pos 0) o.timeout_seconds)) [
    | inl t ↦
        with-policy e m p (wrap_err not_launched (launch_sandbox h.create h.is_done).1)
          (ground (arith, same, t))
    | inr f ↦ absurd (ground (arith, same, f))
  ]

  launched-Asked :
      (e : Envelope) (m : MountPlan) (p : Prepared)
      → envelope h o ≡ ok e
      → launch_with h o e m ≡ ok p
      → Asked p
  launched-Asked e m p made same = envelope-policy e made ∙ ap ok (sym (launched-policy e m p same))

  -- A root sandbox has the policy that its options ask for.
  pub root-Asked :
      (allowed : List Str) (output_root job : Str) (p : Prepared)
      → prepare_root h allowed output_root job o ≡ ok p
      → Asked p
  unfolding prepare_root
  root-Asked allowed output_root job p same =
      let plan = root_mounts h allowed output_root job o in
      let (e, made, rest) = bind_inversion (envelope h o) (λ e. plan >>= launch_with h o e) same in
      let (m, planned, launched) = bind_inversion plan (launch_with h o e) rest in
      launched-Asked e m p made launched

  recorded_ok :
      (name : Str) (ctx : SpawnContext) (r : Result PrepareError Prepared) (p : Prepared)
      → (recorded name ctx r).1 ≡ ok p
      → r ≡ ok p
  recorded_ok name ctx (err e) p same = same
  recorded_ok name ctx (ok q) p same = same

  mounted-Asked :
      (e : Envelope) (name : Str) (plan : SpawnContext × Result PrepareError MountPlan)
      (p : Prepared)
      → envelope h o ≡ ok e
      → (launch_child h o e name plan).1 ≡ ok p
      → Asked p
  mounted-Asked e name (ctx, err f) p made same = absurd (cc same)
  mounted-Asked e name (ctx, ok m) p made same =
      launched-Asked e m p made (recorded_ok name ctx (launch_with h o e m) p same)

  enveloped-Asked :
      (inherited : List Volume) (name : Str) (ctx : SpawnContext) (r : Result PrepareError Envelope)
      (p : Prepared)
      → envelope h o ≡ r
      → (in_envelope h o inherited name ctx r).1 ≡ ok p
      → Asked p
  enveloped-Asked inherited name ctx (err f) p made same = absurd (cc same)
  enveloped-Asked inherited name ctx (ok e) p made same =
      mounted-Asked e name (child_mounts h inherited name ctx) p made same

  -- A child's sandbox has the policy that its options ask for.
  pub child-Asked :
      (inherited : List Volume) (name : Str) (ctx : SpawnContext) (p : Prepared)
      → (prepare_child h o inherited name ctx).1 ≡ ok p
      → Asked p
  unfolding prepare_child
  child-Asked inherited name ctx p same =
      enveloped-Asked inherited name ctx (envelope h o) p refl same
