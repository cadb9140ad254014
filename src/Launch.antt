-- ===== src/Launch.antt =====
-- `launchSandbox` of internal/sandbox/runner.go: the creation of a sandbox, tried again where the
-- runtime lost a race, and the partial containers that such a failure leaves.
pub mod Cleanup
mod Tests
use demesne.Base.{
  ℕ, zero, suc, ◌-◌, Bool, true, false, not, ◌&&◌, ◌||◌, Option, none, some, List, [], ◌∷◌, ◌++◌,
  length, drop, if◌then◌else◌, ltb, leb, ◌==◌, Str, codes, has_prefix, is_empty, Result, err, ok,
}

-- `strings.Contains(s, sub)`
unfoldable pub contains : Str → Str → Bool
contains [] sub = is_empty sub
contains (c ∷ s) sub = let later = contains s sub in has_prefix (c ∷ s) sub || later

abbrev pub transient_code : Str
transient_code = codes "DOCKER::SANDBOX_EXECD_DISTRIBUTION_FAILED"

abbrev pub transient_message : Str
transient_message = codes "passing bulk input to subprocess"

unfoldable pub is_transient : Str → Bool
is_transient text = contains text transient_code && contains text transient_message

abbrev pub is_hex : ℕ → Bool
is_hex c = leb 48 c && leb c 57 || leb 97 c && leb c 102

abbrev pub hex_run : Str → Str
hex_run [] = []
hex_run (c ∷ s) = let rest = hex_run s in if is_hex c then c ∷ rest else []

-- What `([0-9a-f]{8,64})/archive` matches at the start of a text: a slash is no hexadecimal digit,
-- so that the group is all of the digits.
abbrev pub id_at : Str → Option Str
id_at s =
    let id = hex_run s in
    if leb 8 (length id) && leb (length id) 64 && has_prefix (drop (length id) s) (codes "/archive")
    then some id
    else none

abbrev pub id_after : Str → Option Str
id_after s = if has_prefix s (codes "/containers/") then id_at (drop 12 s) else none

-- The leftmost match of the regular expression, `none` for "".
unfoldable pub container_id : Str → Option Str
container_id [] = none
container_id (c ∷ s) =
    let later = container_id s in elim (id_after (c ∷ s)) [ some id ↦ some id | none ↦ later ]

abbrev pub max_attempts : ℕ
max_attempts = 3

-- createSandboxBackoffs, in milliseconds.
abbrev pub backoff : ℕ → ℕ
backoff attempt = if attempt == 0 then 500 else 1500

pub data LaunchError : Type 0 where
  create_failed : Str → LaunchError
  gave_up : ℕ → Str → LaunchError
  cancelled : LaunchError
  unexpected_exit : LaunchError

-- The calls in their order: of the SDK with its outcome, of docker, and of the timer.
pub data LaunchCall : Type 0 where
  called : Result Str Str → LaunchCall
  removed : Str → LaunchCall
  waited : ℕ → LaunchCall

abbrev pub remove_found : Option Str → List LaunchCall
remove_found none = []
remove_found (some id) = removed id ∷ []

abbrev pub clean_up : Str → List LaunchCall
clean_up text = remove_found (container_id text)

abbrev pub after_calls :
    List LaunchCall
    → List LaunchCall × Result LaunchError Str
    → List LaunchCall × Result LaunchError Str
after_calls calls (more, r) = (calls ++ more, r)

-- `create` is the outcome of the SDK's call on each attempt, the new sandbox's id or the error's text;
-- `is_done` is whether the context ends before the timer that follows the attempt.
module _ (create : ℕ → Result Str Str) (is_done : ℕ → Bool) where
  abbrev pub retry :
      ℕ → Str → List LaunchCall × Result LaunchError Str → List LaunchCall × Result LaunchError Str
  retry attempt text rest =
      if attempt == max_attempts - 1
      then (clean_up text, err (gave_up max_attempts text))
      else if is_done attempt
      then (clean_up text, err cancelled)
      else after_calls (clean_up text) (after_calls (waited (backoff attempt) ∷ []) rest)

  abbrev pub on_outcome :
      ℕ
      → Result Str Str
      → List LaunchCall × Result LaunchError Str
      → List LaunchCall × Result LaunchError Str
  on_outcome attempt (ok sb) rest = ([], ok sb)
  on_outcome attempt (err text) rest =
      if not (is_transient text) then ([], err (create_failed text)) else retry attempt text rest

  -- The loop from `attempt` on, with that many rounds left.
  unfoldable pub attempts : ℕ → ℕ → List LaunchCall × Result LaunchError Str
  attempts zero attempt = ([], err unexpected_exit)
  attempts (suc left) attempt =
      let rest = attempts left (suc attempt) in
      after_calls (called (create attempt) ∷ []) (on_outcome attempt (create attempt) rest)

  unfoldable pub launch_sandbox : List LaunchCall × Result LaunchError Str
  launch_sandbox = attempts max_attempts 0
