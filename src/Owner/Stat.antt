-- ===== src/Owner/Stat.antt =====
-- internal/sandbox/owner.go, `parseStarttimeFromStat`: the command name cannot mislead it.
use demesne.Base.{
  ℕ, ◌≡◌, refl, Bool, false, none, some, [], ◌∷◌, ◌++◌, ◌==◌, Str, is_empty, index_byte, trim_right,
  trim_space, fields, Result, arith,
}
use demesne.Owner.{no_paren, after_last_paren, starttime_field, parse_starttime_from_stat}

after_last_paren_absent : (s : Str) → index_byte 41 s ≡ none → after_last_paren s ≡ none
unfolding index_byte
after_last_paren_absent [] h = refl
after_last_paren_absent (c ∷ s) h = ground (arith, after_last_paren_absent s)

after_last_paren-append :
    (pre s : Str) → index_byte 41 s ≡ none → after_last_paren (pre ++ 41 ∷ s) ≡ some s
unfolding index_byte
after_last_paren-append [] s h = ground (arith, after_last_paren_absent s)
after_last_paren-append (c ∷ pre) s h = ground (arith, after_last_paren-append pre s)

is_empty-append : (pre s : Str) → is_empty s ≡ false → is_empty (pre ++ s) ≡ false
is_empty-append [] s h = h
is_empty-append (c ∷ pre) s h = refl

index_byte-trim_right :
    (s : Str) → index_byte 41 s ≡ none → index_byte 41 (trim_right (λ c. c == 10) s) ≡ none
unfolding index_byte trim_right
index_byte-trim_right [] h = refl
index_byte-trim_right (c ∷ s) h = ground (arith, index_byte-trim_right s)

trim_right-append :
    (pre s : Str)
    → trim_right (λ c. c == 10) (pre ++ 41 ∷ s) ≡ pre ++ 41 ∷ trim_right (λ c. c == 10) s
unfolding trim_right
trim_right-append [] s = ground arith
trim_right-append (c ∷ pre) s =
    ground
      (arith, trim_right-append pre s, is_empty-append pre (41 ∷ trim_right (λ c. c == 10) s) refl)

-- Whatever stands before the last ')' of the file, other parentheses, spaces and line ends included,
-- the start time is the twentieth field behind it; and without a ')' there is an error.
pub stat_ignores_name :
    (pre s none_here : Str)
    → index_byte 41 s ≡ none
    → index_byte 41 none_here ≡ none
    → (parse_starttime_from_stat (pre ++ 41 ∷ s)
        ≡ starttime_field (fields (trim_space (trim_right (λ c. c == 10) s))))
      × (parse_starttime_from_stat none_here ≡ Result.err no_paren)
unfolding parse_starttime_from_stat
stat_ignores_name pre s t h k =
    let line_end : ℕ → Bool = λ c. c == 10 in
    (
      rw (trim_right-append pre s) (
          rw (after_last_paren-append pre (trim_right line_end s) (index_byte-trim_right s h))
            refl),
      rw (after_last_paren_absent (trim_right line_end t) (index_byte-trim_right t k)) refl,
    )
