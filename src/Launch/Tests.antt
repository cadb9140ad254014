-- ===== src/Launch/Tests.antt =====
-- `launchSandbox` of internal/sandbox/runner.go: runs on small outcomes.
use demesne.Base.{
  ℕ, ◌≡◌, refl, false, Bool, some, [], ◌∷◌, ◌==◌, if◌then◌else◌, Str, codes, has_prefix, Result,
  err, ok,
}
use demesne.Launch.{
  is_transient, contains, container_id, create_failed, called, removed, waited, attempts,
  launch_sandbox,
}
use demesne.Launch.Cleanup.{left_over, Answers, launch-clean, launch-Answers}

abbrev race : Str
race =
    codes
      "DOCKER::SANDBOX_EXECD_DISTRIBUTION_FAILED passing bulk input to subprocess /containers/0123abcd/archive?path=%2F"

abbrev refused : Str
refused = codes "no such image"

abbrev never : ℕ → Bool
never attempt = false

abbrev once : ℕ → Result Str Str
once attempt = if attempt == 0 then err race else ok (codes "sb")

abbrev always : ℕ → Result Str Str
always attempt = err race

abbrev wrong : ℕ → Result Str Str
wrong attempt = err refused

found_id : container_id race ≡ some (codes "0123abcd")
unfolding container_id has_prefix
found_id = refl

second_attempt : launch_sandbox once never ≡ (
  called (err race) ∷ removed (codes "0123abcd") ∷ waited 500 ∷ called (ok (codes "sb")) ∷ [],
  ok (codes "sb"),
)
unfolding launch_sandbox attempts is_transient contains container_id has_prefix
second_attempt = refl

not_again : launch_sandbox wrong never ≡ (called (err refused) ∷ [], err (create_failed refused))
unfolding launch_sandbox attempts is_transient contains has_prefix
not_again = refl

launch-clean_example : left_over [] (launch_sandbox always never).0 ≡ []
launch-clean_example = launch-clean always never

launch-Answers_example : Answers 3 (launch_sandbox always never)
launch-Answers_example = launch-Answers always never
