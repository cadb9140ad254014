-- ===== src/Sse/Chunks.antt =====
-- internal/proxies/proxycommon/usage.go and interceptor.go: the lines do not depend on how the body
-- arrives in chunks.
use mathlib.Core.List.{flatten}
use demesne.Base.{
  ℕ, zero, suc, ◌<◌, ◌≡◌, refl, sym, ◌∙◌, ap, inl, inr, Bool, true, false, not, Option, none, some,
  List, [], ◌∷◌, ◌++◌, length, take, drop, ◌==◌, if◌then◌else◌, Str, index_byte, trim_right,
  is_empty, arith, append_assoc, append-nil, Bool-cases,
}
use demesne.Sse.{
  is_line_end, scan_sse_lines, SseInterceptor, new_sse_interceptor, scan, read, read_all, close,
}

-- The reference: one pass over the bytes, `cur` being the line so far.
pub split_lines : Str → Str → List Str × Str
split_lines cur [] = ([], cur)
split_lines cur (c ∷ s) = elim (c == 10) [
  | true ↦
      let (lines, left) = split_lines [] s in (trim_right is_line_end (cur ++ c ∷ []) ∷ lines, left)
  | false ↦ split_lines (cur ++ c ∷ []) s
]

split_lines-append :
    (cur s t : Str)
    → split_lines cur (s ++ t) ≡ (
      (split_lines cur s).0 ++ (split_lines (split_lines cur s).1 t).0,
      (split_lines (split_lines cur s).1 t).1,
    )
unfolding split_lines
split_lines-append cur [] t = refl
split_lines-append cur (c ∷ s) t = elim (Bool-cases (c == 10)) [
  | inl e ↦ rw (e, split_lines) (cc (split_lines-append [] s t))
  | inr e ↦ rw (e, split_lines) (split_lines-append (cur ++ c ∷ []) s t)
]

-- Without a line end the pass only collects.
split_lines-none :
    (cur buf : Str) → index_byte 10 buf ≡ none → split_lines cur buf ≡ ([], cur ++ buf)
unfolding split_lines index_byte
split_lines-none cur [] h = rw append-nil
split_lines-none cur (c ∷ s) h = elim (Bool-cases (c == 10)) [
  | inl e ↦ absurd (ground arith)
  | inr e ↦
      rw (e, split_lines)
        (split_lines-none (cur ++ c ∷ []) s (ground arith)
          ∙ ap (λ (x : Str). ([], x)) (append_assoc cur (c ∷ []) s))
]

split_lines-some :
    (cur buf : Str) (i : ℕ)
    → index_byte 10 buf ≡ some i
    → split_lines cur buf ≡ (
      trim_right is_line_end (cur ++ take (suc i) buf) ∷ (split_lines [] (drop (suc i) buf)).0,
      (split_lines [] (drop (suc i) buf)).1,
    )
unfolding split_lines index_byte
split_lines-some cur [] i h = absurd (cc)
split_lines-some cur (c ∷ s) zero h = elim (Bool-cases (c == 10)) [
  | inl e ↦ rw (e, split_lines)
  | inr e ↦ absurd (ground arith)
]
split_lines-some cur (c ∷ s) (suc i) h = elim (Bool-cases (c == 10)) [
  | inl e ↦ absurd (ground arith)
  | inr e ↦
      rw (e, split_lines)
        (split_lines-some (cur ++ c ∷ []) s i (ground arith)
          ∙ ap
              (λ (x : Str). (
                trim_right is_line_end x ∷ (split_lines [] (drop (suc i) s)).0,
                (split_lines [] (drop (suc i) s)).1,
              ))
              (append_assoc cur (c ∷ []) (take (suc i) s)))
]

index_byte_lt : (b : ℕ) (s : Str) (i : ℕ) → index_byte b s ≡ some i → i < length s
unfolding index_byte
index_byte_lt b [] i h = absurd (cc)
index_byte_lt b (c ∷ s) zero h = omega arith
index_byte_lt b (c ∷ s) (suc i) h = ground (arith, index_byte_lt b s i)

length-drop-suc : (i : ℕ) (s : Str) → i < length s → length (drop (suc i) s) < length s
length-drop-suc i [] h = absurd (omega arith)
length-drop-suc zero (c ∷ s) h = omega arith
length-drop-suc (suc i) (c ∷ s) h = omega (arith, length-drop-suc i s)

-- The lines still owed at the end of the body.
abbrev pub last_line : Bool → Str → List Str
last_line true [] = []
last_line true (c ∷ s) = (c ∷ s) ∷ []
last_line false s = []

abbrev pub kept : Bool → Str → Str
kept true s = []
kept false s = s

unfinished :
    (eof : Bool) (buf : Str)
    → ◌≡◌ {A = List Str × Str}
        (if not eof then ([], buf) else if is_empty buf then ([], []) else (buf ∷ [], []))
        (last_line eof buf, kept eof buf)
unfinished true [] = refl
unfinished true (c ∷ s) = refl
unfinished false buf = refl

-- With one unit of fuel more than there are bytes, the loop hands over the lines of the one-pass
-- reference, and at the end of the body the unfinished line too.
pub scan_sse_lines-eq :
    (f : ℕ) (buf : Str) (eof : Bool)
    → length buf < f
    → scan_sse_lines f buf eof ≡ (
      (split_lines [] buf).0 ++ last_line eof (split_lines [] buf).1,
      kept eof (split_lines [] buf).1,
    )
unfolding scan_sse_lines
scan_sse_lines-eq zero buf eof h = absurd (omega arith)
scan_sse_lines-eq (suc f) buf eof h =
    of_index (index_byte 10 buf) refl (λ i lt. scan_sse_lines-eq f (drop (suc i) buf) eof lt)
  where
    of_index :
        (o : Option ℕ)
        → index_byte 10 buf ≡ o
        → ((i : ℕ)
            → length (drop (suc i) buf) < f
            → scan_sse_lines f (drop (suc i) buf) eof ≡ (
              (split_lines [] (drop (suc i) buf)).0
                  ++ last_line eof (split_lines [] (drop (suc i) buf)).1,
              kept eof (split_lines [] (drop (suc i) buf)).1,
            ))
        → scan_sse_lines (suc f) buf eof ≡ (
          (split_lines [] buf).0 ++ last_line eof (split_lines [] buf).1,
          kept eof (split_lines [] buf).1,
        )
    of_index none e ih =
        rw (e, scan_sse_lines) (rw (split_lines-none [] buf e) (unfinished eof buf))
    of_index (some i) e ih =
        rw (e, scan_sse_lines)
          (rw (split_lines-some [] buf i e)
            (cc (ih i (omega (arith, length-drop-suc i buf (index_byte_lt 10 buf i e))))))

-- One scan, whatever the buffer holds.
scan_lem :
    (eof : Bool) (s : SseInterceptor)
    → scan eof s ≡ record s {
      buf = kept eof (split_lines [] s.buf).1;
      handled = s.handled ++ ((split_lines [] s.buf).0 ++ last_line eof (split_lines [] s.buf).1);
    }
unfolding scan
scan_lem eof s = cc (scan_sse_lines-eq (suc (length s.buf)) s.buf eof (omega arith))

index_byte-concat :
    (c : ℕ) (s : Str)
    → index_byte 10 s ≡ none
    → (c == 10) ≡ false
    → index_byte 10 (s ++ c ∷ []) ≡ none
unfolding index_byte
index_byte-concat c [] h e = ground arith
index_byte-concat c (d ∷ s) h e = ground (arith, index_byte-concat c s)

-- What is left over holds no line end.
split_lines_left :
    (cur s : Str) → index_byte 10 cur ≡ none → index_byte 10 (split_lines cur s).1 ≡ none
unfolding split_lines index_byte
split_lines_left cur [] h = h
split_lines_left cur (c ∷ s) h = elim (Bool-cases (c == 10)) [
  | inl e ↦ rw (e, split_lines) (split_lines_left [] s refl)
  | inr e ↦ rw (e, split_lines) (split_lines_left (cur ++ c ∷ []) s (index_byte-concat c cur h e))
]

-- Scanning what was left over together with the next bytes is going on with the one pass.
split_lines_resume :
    (s p : Str) → split_lines [] ((split_lines [] s).1 ++ p) ≡ split_lines (split_lines [] s).1 p
unfolding index_byte
split_lines_resume s p =
    let left = (split_lines [] s).1 in
    split_lines-append [] left p ∙ rw (split_lines-none [] left (split_lines_left [] s refl)) refl

-- What an interceptor that read these bytes holds.
abbrev pub fed : Str → SseInterceptor
fed s = record new_sse_interceptor { buf = (split_lines [] s).1; handled = (split_lines [] s).0 }

pub read-fed : (s p : Str) → read p false (fed s) ≡ fed (s ++ p)
unfolding read
read-fed s [] = ap fed (sym (append-nil s))
read-fed s (c ∷ p) = cc (
  scan_lem false (record (fed s) { buf = (split_lines [] s).1 ++ c ∷ p }),
  split_lines_resume s (c ∷ p),
  split_lines-append [] s (c ∷ p),
  append-nil (split_lines [] ((split_lines [] s).1 ++ c ∷ p)).0,
)

pub read_all-fed : (ps : List Str) (s : Str) → read_all ps (fed s) ≡ fed (s ++ flatten ps)
unfolding read_all flatten
read_all-fed [] s = ap fed (sym (append-nil s))
read_all-fed (p ∷ ps) s =
    ap (read_all ps) (read-fed s p)
    ∙ read_all-fed ps (s ++ p)
    ∙ ap fed (append_assoc s p (flatten ps))

read_last_fed :
    (s : Str)
    → read [] true (fed s) ≡ record (fed s) {
      buf = [];
      handled = (split_lines [] s).0 ++ last_line true (split_lines [] s).1;
    }
unfolding read index_byte
read_last_fed s =
    scan_lem true (fed s)
    ∙ cc (split_lines-none [] (split_lines [] s).1 (split_lines_left [] s refl))

read_with_eof : (p : Str) (s : SseInterceptor) → read p true s ≡ read [] true (read p false s)
unfolding read
read_with_eof [] s = refl
read_with_eof (c ∷ p) s = refl

read_body :
    (ps : List Str) (p : Str)
    → read p true (read_all ps new_sse_interceptor) ≡ read [] true (fed (flatten ps ++ p))
unfolding split_lines
read_body ps p =
    read_with_eof p (read_all ps new_sse_interceptor)
    ∙ ap (λ s. read [] true (read p false s)) (read_all-fed ps [])
    ∙ ap (read [] true) (read-fed (flatten ps) p)

-- However the body is cut into reads, and whether or not the read that meets its end brings bytes
-- too, exactly the lines of a single pass over the whole body are handed over, in order, the
-- unfinished last one included; nothing stays in the buffer; and closing, once or again, calls the
-- final handler exactly once.
pub chunk_independence :
    (ps : List Str) (p : Str)
    → let s = read p true (read_all ps new_sse_interceptor) in
      let lines = split_lines [] (flatten ps ++ p) in
      (s.handled ≡ lines.0 ++ last_line true lines.1)
      × (s.buf ≡ [])
      × ((close s).closes ≡ 1)
      × (close (close s) ≡ close s)
unfolding close
chunk_independence ps p =
    rw (read_body ps p) (rw (read_last_fed (flatten ps ++ p)) (refl, refl, refl, refl))

-- The lines of a whole body.
abbrev pub body_lines : Str → List Str
body_lines body = (split_lines [] body).0 ++ last_line true (split_lines [] body).1

pub handled_lines :
    (ps : List Str) (p : Str)
    → (read p true (read_all ps new_sse_interceptor)).handled ≡ body_lines (flatten ps ++ p)
handled_lines ps p = (chunk_independence ps p).0
