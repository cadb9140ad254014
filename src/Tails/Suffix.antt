-- ===== src/Tails/Suffix.antt =====
-- internal/sandbox/stderr.go and internal/sandbox/jobs_io.go: what of an output is surfaced.
use demesne.Base.{
  All, ℕ, zero, suc, ◌-◌, ◌≤◌, ◌<◌, ◌≡◌, refl, sym, ◌∙◌, ap, ◌⊎◌, inl, inr, Bool, true, false,
  Bool-cases, Option, none, some, [], ◌∷◌, ◌++◌, append_assoc, length, take, drop, length-drop,
  take-append-drop, if◌then◌else◌, ◌==◌, ltb, leb, Str, index_byte, arith,
}
use demesne.Tails.{
  stderr_result_limit, stdout_result_limit, stderr_truncation_marker, stdout_truncation_marker,
  is_continuation, skip_continuation, tail_within, tail_stderr, tail_stdout, view, drop_line,
  tail_file,
}

abbrev pub starts_character : Str → Bool
starts_character [] = true
starts_character (c ∷ s) = if is_continuation c then false else true

skip_continuation_lem :
    (s : Str)
    → (skipped : Str) × (s ≡ skipped ++ skip_continuation s)
      × All (λ c. is_continuation c ≡ true) skipped
      × (starts_character (skip_continuation s) ≡ true)
skip_continuation_lem [] = ([], refl, tt, refl)
skip_continuation_lem (c ∷ s) = elim (Bool-cases (is_continuation c)) [
  | inl e ↦
      let (skipped, whole, all, starts) = skip_continuation_lem s in
      rw (e, skip_continuation) (c ∷ skipped, ap (λ x. c ∷ x) whole, (e, all), starts)
  | inr e ↦ rw (e, skip_continuation) ([], refl, tt, rw e refl)
]

-- A text that is cut to its last bytes: the marker, then the last `limit` bytes without the
-- continuation bytes that they begin with, so that what is shown begins with a whole character.
pub CutTo : ℕ → Str → Str → Str → Type 0
CutTo limit marker b shown =
    (before skipped rest : Str) × (b ≡ before ++ (skipped ++ rest))
    × (length (skipped ++ rest) ≡ limit)
    × All (λ c. is_continuation c ≡ true) skipped
    × (starts_character rest ≡ true)
    × (shown ≡ marker ++ rest)

cut_lem :
    (limit : ℕ) (marker b : Str)
    → leb (length b) limit ≡ false
    → CutTo limit marker b (tail_within limit marker b)
unfolding CutTo
cut_lem limit marker b h =
    let n = length b - limit in
    let (skipped, whole, all, starts) = skip_continuation_lem (drop n b) in
    (
      take n b,
      skipped,
      skip_continuation (drop n b),
      sym (take-append-drop n b) ∙ ap (λ x. take n b ++ x) whole,
      ap length (sym whole) ∙ ground (arith, length-drop n b),
      all,
      starts,
      rw (h, tail_within) refl,
    )

abbrev pub Shown : ℕ → Str → Str → Str → Type 0
Shown limit marker b shown =
    (shown ≡ b) × (length b ≤ limit) ⊎ (limit < length b) × CutTo limit marker b shown

shown_lem : (limit : ℕ) (marker b : Str) → Shown limit marker b (tail_within limit marker b)
shown_lem limit marker b = elim (Bool-cases (leb (length b) limit)) [
  | inl e ↦ inl (rw (e, tail_within) refl, ground arith)
  | inr e ↦ inr (ground arith, cut_lem limit marker b e)
]

-- An output within its limit, 16384 bytes for stderr and 32768 for stdout, is surfaced as it is; a
-- longer one is its marker and its last bytes up to the limit, less the continuation bytes at the cut.
pub tails_cut :
    (b : Str)
    → Shown stderr_result_limit stderr_truncation_marker b (tail_stderr b)
      × Shown stdout_result_limit stdout_truncation_marker b (tail_stdout b)
unfolding tail_stderr tail_stdout
tails_cut b = (
  shown_lem stderr_result_limit stderr_truncation_marker b,
  shown_lem stdout_result_limit stdout_truncation_marker b,
)

at_index :
    (s : Str) (i : ℕ) → index_byte 10 s ≡ some i → s ≡ (take i s ++ 10 ∷ []) ++ drop (suc i) s
unfolding index_byte
at_index [] i h = absurd (cc h)
at_index (c ∷ s) zero h = ground arith
at_index (c ∷ s) (suc i) h = ground (arith, at_index s i)

-- The tail of a file whose size exceeds the limit.
pub TailOf : ℕ → Str → Str → Type 0
TailOf start contents shown =
    ((line : Str) × (contents ≡ (take start contents ++ (line ++ 10 ∷ [])) ++ shown))
    ⊎ ((index_byte 10 (drop start contents) ≡ none) × (contents ≡ take start contents ++ shown))

drop_line_lem :
    (start : ℕ) (contents : Str) (o : Option ℕ)
    → index_byte 10 (drop start contents) ≡ o
    → TailOf start contents (drop_line o (drop start contents))
unfolding TailOf
drop_line_lem start contents none h = inr (h, sym (take-append-drop start contents))
drop_line_lem start contents (some i) h =
    let s = drop start contents in
    inl (
      take i s,
      sym (take-append-drop start contents)
          ∙ ap (λ x. take start contents ++ x) (at_index s i h)
          ∙ sym (append_assoc (take start contents) (take i s ++ 10 ∷ []) (drop (suc i) s)),
    )

-- Of a file larger than the limit at the time of Stat the part from `size - limit` on is shown, behind
-- its first line end; without a line end in it, it is shown whole, although its first line is cut.
pub tail_file_larger :
    (size max_bytes : ℕ) (contents : Str)
    → max_bytes < size
    → (shown : Str) × (tail_file (view size contents) max_bytes ≡ some shown)
      × TailOf (size - max_bytes) contents shown
unfolding tail_file
tail_file_larger size max_bytes contents h =
    let s = drop (size - max_bytes) contents in
    (
      drop_line (index_byte 10 s) s,
      by_size,
      drop_line_lem (size - max_bytes) contents (index_byte 10 s) refl,
    )
  where
    by_size :
        (if size == 0
          then some []
          else if ltb 0 (size - max_bytes)
          then some (
              drop_line
                (index_byte 10 (drop (size - max_bytes) contents))
                (drop (size - max_bytes) contents))
          else some (drop (size - max_bytes) contents))
        ≡ some (
            drop_line
              (index_byte 10 (drop (size - max_bytes) contents))
              (drop (size - max_bytes) contents))
    by_size =
        let e : (size == 0) ≡ false = ground arith in
        let k : ltb 0 (size - max_bytes) ≡ true = ground arith in rw (e, k) refl
