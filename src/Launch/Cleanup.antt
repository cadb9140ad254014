-- ===== src/Launch/Cleanup.antt =====
-- `launchSandbox` of internal/sandbox/runner.go: what is left of failed attempts, and how many
-- there are.
use demesne.Base.{
  ℕ, zero, suc, ◌+◌, ◌-◌, ◌≤◌, ◌≡◌, ◌≢◌, refl, sym, ◌∙◌, subst, inl, inr, Bool, false, not,
  Bool-cases, Option, none, some, List, [], ◌∷◌, ◌++◌, if◌then◌else◌, ◌==◌, Str, str_eq,
  str_eq_refl, filter_by, Result, err, ok, arith,
}
use demesne.Launch.{
  is_transient, container_id, max_attempts, backoff, LaunchError, unexpected_exit, LaunchCall,
  called, removed, waited, remove_found, after_calls, retry, on_outcome, attempts, launch_sandbox,
}

abbrev pub found : Option Str → List Str
found none = []
found (some id) = id ∷ []

-- The partial container that a failed creation leaves: a transient failure names it.
abbrev pub partial : Result Str Str → List Str
partial (ok sb) = []
partial (err text) = if is_transient text then found (container_id text) else []

-- What is left of `live` and of the partial containers of these calls, once docker was called for
-- those that it was called for.
pub left_over : List Str → List LaunchCall → List Str
left_over live [] = live
left_over live (called r ∷ calls) = left_over (partial r ++ live) calls
left_over live (removed id ∷ calls) = left_over (filter_by (λ l. not (str_eq l id)) live) calls
left_over live (waited t ∷ calls) = left_over live calls

abbrev pub calls_of_create : List LaunchCall → ℕ
calls_of_create [] = 0
calls_of_create (called r ∷ calls) = suc (calls_of_create calls)
calls_of_create (removed id ∷ calls) = calls_of_create calls
calls_of_create (waited t ∷ calls) = calls_of_create calls

found-removed :
    (o : Option Str) (calls : List LaunchCall)
    → left_over (found o ++ []) (remove_found o ++ calls) ≡ left_over [] calls
unfolding left_over filter_by
found-removed none calls = refl
found-removed (some id) calls = rw (str_eq_refl id) refl

found-removed_last : (o : Option Str) → left_over (found o ++ []) (remove_found o) ≡ []
unfolding left_over filter_by
found-removed_last none = refl
found-removed_last (some id) = rw (str_eq_refl id) refl

calls-remove_found :
    (o : Option Str) (calls : List LaunchCall)
    → (calls_of_create (remove_found o) ≡ 0)
      × (calls_of_create (remove_found o ++ calls) ≡ calls_of_create calls)
calls-remove_found none calls = (refl, refl)
calls-remove_found (some id) calls = (refl, refl)

-- At most so many calls of the SDK, and an answer of the loop itself.
abbrev pub Answers : ℕ → List LaunchCall × Result LaunchError Str → Type 0
Answers n out = (calls_of_create out.0 ≤ n) × (out.1 ≢ err unexpected_exit)

module _ (create : ℕ → Result Str Str) (is_done : ℕ → Bool) where
  -- A transient failure leaves nothing, where the attempts after it do not.
  retry-clean :
      (attempt : ℕ) (text : Str) (rest : List LaunchCall × Result LaunchError Str)
      → left_over [] rest.0 ≡ []
      → left_over (found (container_id text) ++ []) (retry create is_done attempt text rest).0 ≡ []
  unfolding left_over
  retry-clean attempt text (more, r) h = elim (Bool-cases (attempt == max_attempts - 1)) [
    | inl l ↦ rw l (found-removed_last (container_id text))
    | inr l ↦ elim (Bool-cases (is_done attempt)) [
      | inl d ↦ rw (l, d) (found-removed_last (container_id text))
      | inr d ↦ rw (l, d) (found-removed (container_id text) (waited (backoff attempt) ∷ more) ∙ h)
    ]
  ]

  outcome-clean :
      (attempt : ℕ) (r : Result Str Str) (rest : List LaunchCall × Result LaunchError Str)
      → left_over [] rest.0 ≡ []
      → left_over [] (called r ∷ (on_outcome create is_done attempt r rest).0) ≡ []
  unfolding left_over
  outcome-clean attempt (ok sb) rest h = refl
  outcome-clean attempt (err text) rest h = elim (Bool-cases (is_transient text)) [
    | inr t ↦ rw (t, left_over, partial) refl
    | inl t ↦ rw (t, left_over) (retry-clean attempt text rest h)
  ]

  attempts-clean : (left attempt : ℕ) → left_over [] (attempts create is_done left attempt).0 ≡ []
  unfolding attempts left_over
  attempts-clean zero attempt = refl
  attempts-clean (suc left) attempt =
      outcome-clean attempt (create attempt) (attempts create is_done left (suc attempt))
        (attempts-clean left (suc attempt))

  -- Whatever the attempts lead to and whenever the context ends, docker was called for every partial
  -- container that a transient failure named, that of the last attempt included.
  pub launch-clean : left_over [] (launch_sandbox create is_done).0 ≡ []
  unfolding launch_sandbox
  launch-clean = attempts-clean max_attempts 0

  retry-Answers :
      (n attempt : ℕ) (text : Str) (rest : List LaunchCall × Result LaunchError Str)
      → ((attempt == max_attempts - 1) ≡ false → Answers n rest)
      → Answers n (retry create is_done attempt text rest)
  retry-Answers n attempt text (more, r) h =
      let (none_called, same) =
        calls-remove_found (container_id text) (waited (backoff attempt) ∷ more) in
      elim (Bool-cases (attempt == max_attempts - 1)) [
        | inl l ↦ rw l (ground (arith, none_called), λ e. cc e)
        | inr l ↦ elim (Bool-cases (is_done attempt)) [
          | inl d ↦ rw (l, d) (ground (arith, none_called), λ e. cc e)
          | inr d ↦ rw (l, d) (subst (λ k. k ≤ n) (sym same) (h l).0, (h l).1)
        ]
      ]

  outcome-Answers :
      (n attempt : ℕ) (r : Result Str Str) (rest : List LaunchCall × Result LaunchError Str)
      → ((attempt == max_attempts - 1) ≡ false → Answers n rest)
      → Answers (suc n) (after_calls (called r ∷ []) (on_outcome create is_done attempt r rest))
  outcome-Answers n attempt (ok sb) rest h = (omega arith, λ e. cc e)
  outcome-Answers n attempt (err text) rest h = elim (Bool-cases (is_transient text)) [
    | inr t ↦ rw t (omega arith, λ e. cc e)
    | inl t ↦
        let (few, answer) = retry-Answers n attempt text rest h in rw t (omega (arith, few), answer)
  ]

  attempts-Answers :
      (left attempt : ℕ)
      → suc left + attempt ≡ max_attempts
      → Answers (suc left) (attempts create is_done (suc left) attempt)
  unfolding attempts
  attempts-Answers zero attempt e =
      outcome-Answers zero attempt (create attempt) (attempts create is_done zero (suc attempt))
        (λ f. absurd (ground (arith, e, f)))
  attempts-Answers (suc left) attempt e =
      outcome-Answers (suc left) attempt (create attempt)
        (attempts create is_done (suc left) (suc attempt))
        (λ f. attempts-Answers left (suc attempt) (omega (arith, e)))

  -- The loop answers after at most three calls of the SDK, and never runs out of its rounds.
  pub launch-Answers : Answers 3 (launch_sandbox create is_done)
  unfolding launch_sandbox
  launch-Answers = attempts-Answers 2 0 refl
