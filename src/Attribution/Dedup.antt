-- ===== src/Attribution/Dedup.antt =====
-- internal/sandbox/attribution.go: which transcript line stands for a request's message.
use mathlib.Core.List.{Memᴰ}
use demesne.Base.{
  ℕ, ◌≡◌, ◌≢◌, refl, sym, ◌∙◌, ap, subst, inl, inr, Bool-cases, Bool, true, false, Option, none,
  some, List, [], ◌∷◌, if◌then◌else◌, Str, Map, lookup, insert, lookup-insert, is_empty, split_on,
  All, All-imp, arith,
}
use demesne.Attribution.{
  above64, TranscriptLine, DedupKey, DedupVal, key_Eq, key_iff, qualifies, key_of, exceeds,
  merge_line, max_line, scanned, merge_lines, parse_all,
}

-- A line that counts, put before those so far.
abbrev pub candidate_onto : Option TranscriptLine → List TranscriptLine → List TranscriptLine
candidate_onto none cs = cs
candidate_onto (some l) cs = if qualifies l then l ∷ cs else cs

module _ (unmarshal : Str → Option TranscriptLine) where
  abbrev pub candidates_in : List Str → List TranscriptLine → List TranscriptLine
  candidates_in [] cs = cs
  candidates_in (l ∷ ls) cs =
      if is_empty l then candidates_in ls cs else candidates_in ls (candidate_onto (unmarshal l) cs)

  -- The lines of all files that count: complete assistant lines with a request id.
  abbrev pub candidates : List (Option Str) → List TranscriptLine → List TranscriptLine
  candidates [] cs = cs
  candidates (none ∷ fs) cs = candidates fs cs
  candidates (some text ∷ fs) cs =
      candidates fs (candidates_in (scanned max_line (split_on 10 [] text)) cs)

-- What is kept for a key is a line of that key which no other line of that key exceeds, and nothing
-- is kept only where there is no line of that key.
abbrev pub Best : DedupKey → List TranscriptLine → Option DedupVal → Type 0
Best k cs none = All (λ c. key_of c ≢ k) cs
Best k cs (some v) =
    (l : TranscriptLine) × Memᴰ l cs
    × (key_of l ≡ k)
    × (v ≡ (l.attribution, l.output_tokens))
    × All (λ c. key_of c ≡ k → above64 c.output_tokens v.1 ≡ false) cs

above64_irrefl : (n : ℕ) → above64 n n ≡ false
above64_irrefl n = ground arith

above64_mono : (a b c : ℕ) → above64 b a ≡ true → above64 c a ≡ false → above64 c b ≡ false
above64_mono a b c h k = ground arith

kept :
    (k : DedupKey) (l : TranscriptLine) (cs : List TranscriptLine) (o : Option DedupVal)
    → key_of l ≡ k
    → exceeds l o ≡ true
    → Best k cs o
    → Best k (l ∷ cs) (some (l.attribution, l.output_tokens))
kept k l cs none e x b = (
  l,
  Memᴰ.head refl,
  e,
  refl,
  ((λ _. above64_irrefl l.output_tokens), All-imp (λ c n e'. absurd (n e')) cs b),
)
kept k l cs (some v) e x (m, mem, em, ev, all) = (
  l,
  Memᴰ.head refl,
  e,
  refl,
  (
    (λ _. above64_irrefl l.output_tokens),
    All-imp (λ c n e'. above64_mono v.1 l.output_tokens c.output_tokens x (n e')) cs all,
  ),
)

passed :
    (k : DedupKey) (l : TranscriptLine) (cs : List TranscriptLine) (o : Option DedupVal)
    → (key_of l ≡ k → exceeds l o ≡ false)
    → Best k cs o
    → Best k (l ∷ cs) o
passed k l cs none x b = ((λ e. absurd (ground (arith, x e))), b)
passed k l cs (some v) x (m, mem, em, ev, all) = (m, Memᴰ.tail mem, em, ev, (x, all))

step :
    (k : DedupKey) (o : Option TranscriptLine) (cs : List TranscriptLine)
    (seen : Map DedupKey DedupVal)
    → ((j : DedupKey) → Best j cs (lookup j seen))
    → Best k (candidate_onto o cs) (lookup k (merge_line o seen))
step k none cs seen b = b k
step k (some l) cs seen b =
    let v : DedupVal = (l.attribution, l.output_tokens) in
    let at : (b : Bool)
        → key_Eq.same (key_of l) k ≡ b
        → lookup k (insert (key_of l) v seen) ≡ (if b then some v else lookup k seen) =
      λ b e. lookup-insert (key_of l) k v seen ∙ ap (λ t. if t then some v else lookup k seen) e in
    elim (Bool-cases (qualifies l)) [
      | inr q ↦ rw q (b k)
      | inl q ↦ elim (Bool-cases (exceeds l (lookup (key_of l) seen))) [
        | inr x ↦
            rw (q, x)
              (passed k l cs (lookup k seen) (λ e. ap (λ j. exceeds l (lookup j seen)) (sym e) ∙ x)
                (b k))
        | inl x ↦ elim (Bool-cases (key_Eq.same (key_of l) k)) [
          | inl e ↦
              let same = (key_iff (key_of l) k).0 e in
              rw (q, x)
                (subst (Best k (l ∷ cs)) (sym (at true e)) (
                  kept k l cs (lookup k seen) same
                    (subst (λ j. exceeds l (lookup j seen) ≡ true) same x) (b k)))
          | inr e ↦
              rw (q, x)
                (subst (Best k (l ∷ cs)) (sym (at false e)) (
                  passed k l cs (lookup k seen)
                    (λ e'. absurd (ground (arith, (key_iff (key_of l) k).1 e', e))) (b k)))
        ]
      ]
    ]

module _ (unmarshal : Str → Option TranscriptLine) where
  merge_lines-Best :
      (ls : List Str) (cs : List TranscriptLine) (seen : Map DedupKey DedupVal)
      → ((j : DedupKey) → Best j cs (lookup j seen))
      → (k : DedupKey)
      → Best k (candidates_in unmarshal ls cs) (lookup k (merge_lines unmarshal ls seen))
  unfolding merge_lines
  merge_lines-Best [] cs seen b k = b k
  merge_lines-Best (l ∷ ls) cs seen b k = elim (Bool-cases (is_empty l)) [
    | inl e ↦ rw (e, merge_lines) (merge_lines-Best ls cs seen b k)
    | inr e ↦
        rw (e, merge_lines)
          (merge_lines-Best ls (candidate_onto (unmarshal l) cs) (merge_line (unmarshal l) seen)
            (λ j. step j (unmarshal l) cs seen b) k)
  ]

  parse_all-Best :
      (fs : List (Option Str)) (cs : List TranscriptLine) (seen : Map DedupKey DedupVal)
      → ((j : DedupKey) → Best j cs (lookup j seen))
      → (k : DedupKey)
      → Best k (candidates unmarshal fs cs) (lookup k (parse_all unmarshal fs seen))
  unfolding parse_all
  parse_all-Best [] cs seen b k = b k
  parse_all-Best (none ∷ fs) cs seen b k = parse_all-Best fs cs seen b k
  parse_all-Best (some text ∷ fs) cs seen b k =
      let ls = scanned max_line (split_on 10 [] text) in
      parse_all-Best fs (candidates_in unmarshal ls cs) (merge_lines unmarshal ls seen)
        (merge_lines-Best ls cs seen b) k

  -- After all transcripts, what is kept for a request and message id is one of the complete assistant
  -- lines with these ids, none of which has more output tokens; nothing is kept just where there is no
  -- such line. The lines of a transcript are those that the scanner yields: a line of 4 MiB or more
  -- ends them, so that it and what follows it do not count.
  pub transcripts_best :
      (fs : List (Option Str)) (k : DedupKey)
      → Best k (candidates unmarshal fs []) (lookup k (parse_all unmarshal fs []))
  unfolding lookup
  transcripts_best fs k = parse_all-Best fs [] [] (λ j. tt) k
