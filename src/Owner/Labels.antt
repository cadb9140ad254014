-- ===== src/Owner/Labels.antt =====
-- internal/sandbox/owner.go, `ComputeOwner`, and internal/sandbox/reaper.go, `classifyOwner`: who a
-- label names.
use demesne.Base.{
  ℕ, ◌≡◌, refl, sym, ◌∙◌, ap, ◌^◌, ◌<◌, ◌⊎◌, inl, inr, Bool, true, false, not, Bool-cases, Option,
  none, some, List, [], ◌∷◌, ◌++◌, if◌then◌else◌, ◌==◌, Str, str_eq, str_eq_refl, is_empty,
  index_byte, split_on, split_on-part, split_on-last, parse_uint, decimal, parse_uint-decimal,
  parse_uint_bound, ==_iff, length, ltb, trim_right, fields, index_byte-decimal, Result, err, ok,
  ◌>>=◌, require, bind_inversion, pos, trim_space, arith,
}
use demesne.Owner.{
  StatError, no_paren, bad_starttime, after_last_paren, nth_field, starttime_field,
  parse_starttime_from_stat, no_starttime, owner_label, read_starttime_ticks, compute_owner,
  verdict_keep, verdict_reap, classify_parts, classify_split, classify_owner, process_alive,
}

split_on-owner_label :
    (boot : Str) (pid st : ℕ)
    → index_byte 95 boot ≡ none
    → split_on 95 [] (owner_label boot pid st) ≡ boot ∷ decimal pid ∷ decimal st ∷ []
split_on-owner_label boot pid st h =
    split_on-part 95 [] boot (decimal pid ++ 95 ∷ decimal st) h
    ∙ ap (λ x. boot ∷ x)
        (split_on-part 95 [] (decimal pid) (decimal st) (index_byte-decimal pid)
          ∙ ap (λ x. decimal pid ∷ x) (split_on-last 95 [] (decimal st) (index_byte-decimal st)))

-- A label of 64-bit numbers under a boot id without an underscore is read back as it was written: it
-- is kept where the boot is the current one and the process alive, reaped otherwise, never skipped.
pub classify_own_label :
    (boot current : Str) (pid st : ℕ) (alive : ℕ → ℕ → Bool)
    → is_empty boot ≡ false
    → index_byte 95 boot ≡ none
    → pid < 2 ^ 64
    → st < 2 ^ 64
    → classify_owner (owner_label boot pid st) current alive ≡ (
        if str_eq boot current
        then (if alive pid st then verdict_keep else verdict_reap)
        else verdict_reap)
unfolding classify_owner
classify_own_label [] current pid st alive e h p q = absurd (ground arith)
classify_own_label (c ∷ boot) current pid st alive e h p q =
    rw (split_on-owner_label (c ∷ boot) pid st h)
      (rw (parse_uint-decimal pid p) (rw (parse_uint-decimal st q) (ground arith)))

-- A label with its parts read, whose owner is confirmed dead.
pub ConfirmedDead : Str → Str → (ℕ → ℕ → Bool) → Type 0
ConfirmedDead label current alive =
    (boot p s : Str) × (pid st : ℕ) × (split_on 95 [] label ≡ boot ∷ p ∷ s ∷ [])
    × (parse_uint p ≡ some pid)
    × (parse_uint s ≡ some st)
    × (is_empty boot ≡ false)
    × ((str_eq boot current ≡ false) ⊎ (alive pid st ≡ false))

dead_or_rebooted :
    (boot current : Str) (b : Bool)
    → (if not (str_eq boot current) then verdict_reap else if b then verdict_keep else verdict_reap)
      ≡ verdict_reap
    → (str_eq boot current ≡ false) ⊎ (b ≡ false)
dead_or_rebooted boot current true h = inl (ground arith)
dead_or_rebooted boot current false h = inr refl

reap-parts :
    (label boot p s current : Str) (alive : ℕ → ℕ → Bool) (m n : Option ℕ)
    → split_on 95 [] label ≡ boot ∷ p ∷ s ∷ []
    → is_empty boot ≡ false
    → parse_uint p ≡ m
    → parse_uint s ≡ n
    → classify_parts boot m n current alive ≡ verdict_reap
    → ConfirmedDead label current alive
unfolding ConfirmedDead
reap-parts label boot p s current alive none n e h k l r = absurd (cc r)
reap-parts label boot p s current alive (some pid) none e h k l r = absurd (cc r)
reap-parts label boot p s current alive (some pid) (some st) e h k l r =
    (boot, p, s, pid, st, e, k, l, h, dead_or_rebooted boot current (alive pid st) r)

reap-split :
    (label current : Str) (alive : ℕ → ℕ → Bool) (ws : List Str)
    → split_on 95 [] label ≡ ws
    → classify_split ws current alive ≡ verdict_reap
    → ConfirmedDead label current alive
reap-split label current alive [] e h = absurd (cc h)
reap-split label current alive (boot ∷ []) e h = absurd (cc h)
reap-split label current alive (boot ∷ p ∷ []) e h = absurd (cc h)
reap-split label current alive (boot ∷ p ∷ s ∷ w ∷ ws) e h = absurd (cc h)
reap-split label current alive ([] ∷ p ∷ s ∷ []) e h = absurd (cc h)
reap-split label current alive ((c ∷ boot) ∷ p ∷ s ∷ []) e h =
    reap-parts label (c ∷ boot) p s current alive (parse_uint p) (parse_uint s) e refl refl refl h

-- A sandbox is reaped only where its label has just the three parts, of which the first is not empty
-- and the others are 64-bit numbers, and the boot is not the current one or the process not alive.
pub reap_only_dead :
    (label current : Str) (alive : ℕ → ℕ → Bool)
    → classify_owner label current alive ≡ verdict_reap
    → ConfirmedDead label current alive
unfolding classify_owner
reap_only_dead [] current alive h = absurd (cc h)
reap_only_dead (c ∷ label) current alive h =
    reap-split (c ∷ label) current alive (split_on 95 [] (c ∷ label)) refl h

require_inversion : {E A : Type 0} (o : Option A) (e : E) (a : A) → require o e ≡ ok a → o ≡ some a
require_inversion none e a h = absurd (cc h)
require_inversion (some b) e a h = cc h

starttime_field_bound : (ws : List Str) (n : ℕ) → starttime_field ws ≡ ok n → n < 2 ^ 64
starttime_field_bound ws n h = elim (Bool-cases (ltb (length ws) 20)) [
  | inl e ↦ absurd (cc (e, h))
  | inr e ↦
      let w = nth_field 19 ws in
      parse_uint_bound n w (require_inversion (parse_uint w) bad_starttime n (cc (e, h)))
]

parse_starttime_bound : (s : Str) (n : ℕ) → parse_starttime_from_stat s ≡ ok n → n < 2 ^ 64
unfolding parse_starttime_from_stat
parse_starttime_bound s n h =
    let (rest, _, k) =
      bind_inversion (require (after_last_paren (trim_right (λ c. c == 10) s)) no_paren)
        (λ rest. starttime_field (fields (trim_space rest))) h in
    starttime_field_bound (fields (trim_space rest)) n k

starttime_bound :
    (stat : ℕ → Option Str) (pid st : ℕ) → read_starttime_ticks stat pid ≡ some st → st < 2 ^ 64
starttime_bound stat pid st h = of_file (stat pid) h
  where
    of_file :
        (o : Option Str)
        → ◌≡◌ {A = Option ℕ}
            (elim o [
              | none ↦ none
              | some s ↦ elim (parse_starttime_from_stat s) [ err e ↦ none | ok n ↦ some n ]
            ])
            (some st)
        → st < 2 ^ 64
    of_file none k = absurd (cc k)
    of_file (some s) k = of_result (parse_starttime_from_stat s) refl k
      where
        of_result :
            (r : Result StatError ℕ)
            → parse_starttime_from_stat s ≡ r
            → ◌≡◌ {A = Option ℕ} (elim r [ err e ↦ none | ok n ↦ some n ]) (some st)
            → st < 2 ^ 64
        of_result (err e) q l = absurd (cc l)
        of_result (ok n) q l = parse_starttime_bound s st (q ∙ cc l)

same_start_alive :
    (stat : ℕ → Option Str) (pid st : ℕ)
    → read_starttime_ticks stat pid ≡ some st
    → process_alive stat pid st ≡ true
unfolding process_alive
same_start_alive stat pid st h =
    ap (λ (o : Option ℕ). elim o as (λ _. Bool) [ none ↦ false | some got ↦ got == st ]) h
    ∙ (==_iff st st).1 refl

-- The label that a running instance computes for itself is kept by the reaper of another instance on
-- the same boot, which reads the same start time for its pid.
pub live_owner_kept :
    (b : Str) (stat : ℕ → Option Str) (pid : ℕ) (label : Str)
    → is_empty (trim_space b) ≡ false
    → index_byte 95 (trim_space b) ≡ none
    → pid < 2 ^ 64
    → compute_owner (some b) stat (pos pid) ≡ ok label
    → classify_owner label (trim_space b) (process_alive stat) ≡ verdict_keep
unfolding compute_owner
live_owner_kept b stat pid label e h p c = of_start (read_starttime_ticks stat pid) refl c
  where
    of_start :
        (o : Option ℕ)
        → read_starttime_ticks stat pid ≡ o
        → (require o no_starttime >>= (λ st. ok (owner_label (trim_space b) pid st))) ≡ ok label
        → classify_owner label (trim_space b) (process_alive stat) ≡ verdict_keep
    of_start none k c = absurd (cc c)
    of_start (some st) k c =
        let l =
          classify_own_label (trim_space b) (trim_space b) pid st (process_alive stat) e h p
            (starttime_bound stat pid st k) in
        ap (λ x. classify_owner x (trim_space b) (process_alive stat)) (sym (cc c))
        ∙ l
        ∙ rw (str_eq_refl (trim_space b)) (rw (same_start_alive stat pid st k) refl)
