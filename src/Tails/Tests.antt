-- ===== src/Tails/Tests.antt =====
-- Tails of concrete outputs.
use demesne.Base.{◌≡◌, refl, ◌∷◌, ◌++◌, codes}
use demesne.Tails.{
  stderr_result_limit, stdout_result_limit, stderr_truncation_marker, stdout_truncation_marker,
  tail_within, tail_stderr, tail_stdout,
}
use demesne.Tails.Suffix.{Shown, tails_cut}

-- The cut falls inside a character of three bytes.
cut_in_character :
    tail_within 4 (codes "..") (codes "ab" ++ 226 ∷ 130 ∷ 172 ∷ codes "cd") ≡ codes "..cd"
cut_in_character = refl

tails_cut_example :
    Shown stderr_result_limit stderr_truncation_marker
      (codes "warning")
      (tail_stderr (codes "warning"))
    × Shown stdout_result_limit stdout_truncation_marker
        (codes "warning")
        (tail_stdout (codes "warning"))
tails_cut_example = tails_cut (codes "warning")
