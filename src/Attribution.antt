-- ===== src/Attribution.antt =====
-- internal/sandbox/attribution.go: which subagent a request belongs to, distilled from the transcripts
-- to attribution.jsonl, and the summary that joins it with usage.jsonl.
pub mod Dedup
pub mod Summary
mod Tests
use demesne.Base.{
  ℕ, ◌+◌, ◌^◌, ◌≡◌, ◌↔◌, Bool, true, false, not, ◌&&◌, ◌||◌, Option, none, some, List, [], ◌∷◌,
  ◌++◌, map, if◌then◌else◌, ◌==◌, Str, codes, str_eq, str_eq_iff, Eq, Map, lookup, insert, str_Eq,
  is_empty, is_some, ltb, leb, str_le, sort_by, filter_by, join, split_on, length, take, trim_right,
  arith,
}
use demesne.Tracker.{add64, TokenBreakdown, UsageLine, get_or}
use demesne.Pricing.{Floats}

-- `a > b` on int64, as words.
abbrev pub above64 : ℕ → ℕ → Bool
above64 a b = if ltb a (2 ^ 63) then ltb b a || leb (2 ^ 63) b else leb (2 ^ 63) b && ltb b a

pub record AttributionRecord : Type 0 where
  pub request_id : Str
  pub attribution_agent : Str
  pub attribution_skill : Str
  pub attribution_plugin : Str

-- `attribution` holds the request id and the three attribution fields of the line; `output_tokens` is
-- an int64, as a word.
pub record TranscriptLine : Type 0 where
  pub line_type : Str
  pub attribution : AttributionRecord
  pub message_id : Str
  pub stop_reason : Option Str
  pub output_tokens : ℕ

-- The request id and the message id.
abbrev pub DedupKey : Type 0
DedupKey = Str × Str

pub key_iff : (j k : DedupKey) → ((str_eq j.0 k.0 && str_eq j.1 k.1) ≡ true) ↔ (j ≡ k)
key_iff j k = ground (arith, str_eq_iff j.0 k.0, str_eq_iff j.1 k.1)

instance abbrev pub key_Eq : Eq DedupKey
key_Eq = record { same = λ j k. str_eq j.0 k.0 && str_eq j.1 k.1; same_iff = key_iff }

-- `rec` and `outputTokens`.
abbrev pub DedupVal : Type 0
DedupVal = AttributionRecord × ℕ

abbrev pub subagent_main : Str
subagent_main = codes "(main)"

abbrev pub qualifies : TranscriptLine → Bool
qualifies l =
    str_eq l.line_type (codes "assistant")
    && not (is_empty l.attribution.request_id)
    && is_some l.stop_reason

abbrev pub key_of : TranscriptLine → DedupKey
key_of l = (l.attribution.request_id, l.message_id)

-- Whether the line replaces what is there.
abbrev pub exceeds : TranscriptLine → Option DedupVal → Bool
exceeds l none = true
exceeds l (some old) = above64 l.output_tokens old.1

-- One decoded line, `none` for one that is passed over as malformed.
abbrev pub merge_line : Option TranscriptLine → Map DedupKey DedupVal → Map DedupKey DedupVal
merge_line none seen = seen
merge_line (some l) seen =
    if qualifies l && exceeds l (lookup (key_of l) seen)
    then insert (key_of l) (l.attribution, l.output_tokens) seen
    else seen

-- The buffer of the scanner.
abbrev pub max_line : ℕ
max_line = 4194304

-- bufio.ScanLines: without a line's carriage return, and up to the first line that does not fit. A
-- last line that is empty is kept here; the caller passes over empty lines.
abbrev pub drop_cr : Str → Str
drop_cr [] = []
drop_cr (c ∷ []) = if c == 13 then [] else c ∷ []
drop_cr (c ∷ d ∷ s) = c ∷ drop_cr (d ∷ s)

abbrev pub scanned : ℕ → List Str → List Str
scanned limit [] = []
scanned limit (l ∷ ls) =
    let rest = scanned limit ls in if ltb (length l) limit then drop_cr l ∷ rest else []

-- What json.Unmarshal makes of a transcript line, and of a line of attribution.jsonl.
module _ (unmarshal : Str → Option TranscriptLine) where
  pub merge_lines : List Str → Map DedupKey DedupVal → Map DedupKey DedupVal
  merge_lines [] seen = seen
  merge_lines (l ∷ ls) seen =
      if is_empty l then merge_lines ls seen else merge_lines ls (merge_line (unmarshal l) seen)

  -- `none` for a file that cannot be opened.
  abbrev pub parse_transcript_jsonl : Option Str → Map DedupKey DedupVal → Map DedupKey DedupVal
  parse_transcript_jsonl none seen = seen
  parse_transcript_jsonl (some text) seen =
      merge_lines (scanned max_line (split_on 10 [] text)) seen

  pub parse_all : List (Option Str) → Map DedupKey DedupVal → Map DedupKey DedupVal
  parse_all [] seen = seen
  parse_all (f ∷ fs) seen = parse_all fs (parse_transcript_jsonl f seen)

  abbrev pub key_le : DedupKey → DedupKey → Bool
  key_le j k = if str_eq j.0 k.0 then str_le j.1 k.1 else str_le j.0 k.0

  abbrev pub records : List DedupKey → Map DedupKey DedupVal → List AttributionRecord
  records [] seen = []
  records (k ∷ ks) seen = elim (lookup k seen) [
    | none ↦ records ks seen
    | some v ↦ v.0 ∷ records ks seen
  ]

  -- `files` are the *.jsonl files of the walk, `none` where the directory is absent or the walk failed;
  -- `created` is whether attribution.jsonl could be opened. The result is what is encoded to it, `none`
  -- where it is not written.
  pub distill_attribution : Option (List (Option Str)) → Bool → Option (List AttributionRecord)
  distill_attribution none created = none
  distill_attribution (some files) created =
      let seen = parse_all files [] in
      let keys = sort_by key_le (map (λ e. e.0) seen) in
      if is_empty seen || not created then none else some (records keys seen)

module _ (unmarshal : Str → Option AttributionRecord) where
  abbrev pub add_record :
      Option AttributionRecord → Map Str AttributionRecord → Map Str AttributionRecord
  add_record none attrib = attrib
  add_record (some r) attrib =
      if is_empty r.request_id then attrib else insert r.request_id r attrib

  pub add_records : List Str → Map Str AttributionRecord → Map Str AttributionRecord
  add_records [] attrib = attrib
  add_records (l ∷ ls) attrib =
      if is_empty l then add_records ls attrib else add_records ls (add_record (unmarshal l) attrib)

  -- `none` for a file that is missing or cannot be read. A nil map is an empty one.
  pub read_attribution_map : Option Str → Map Str AttributionRecord
  read_attribution_map none = []
  read_attribution_map (some text) = add_records (split_on 10 [] text) []

-- The bucket of a request in the summary.
abbrev pub agent_of : Option AttributionRecord → Str
agent_of none = subagent_main
agent_of (some r) = if is_empty r.attribution_agent then subagent_main else r.attribution_agent

abbrev pub all_tokens : TokenBreakdown → ℕ
all_tokens t = add64 (add64 (add64 t.input t.output) t.cache_creation) t.cache_read

module _ (unmarshal : Str → Option UsageLine) (attrib : Map Str AttributionRecord) where
  abbrev pub add_usage : Option UsageLine → Map Str ℕ → Map Str ℕ
  add_usage none by_agent = by_agent
  add_usage (some l) by_agent =
      let name = agent_of (lookup l.request_id attrib) in
      insert name (add64 (get_or 0 (lookup name by_agent)) (all_tokens l.tokens)) by_agent

  abbrev pub collect_onto : List Str → Map Str ℕ → Map Str ℕ
  collect_onto [] by_agent = by_agent
  collect_onto (l ∷ ls) by_agent =
      if is_empty l
      then collect_onto ls by_agent
      else collect_onto ls (add_usage (unmarshal l) by_agent)

  pub collect_tokens_by_agent : List Str → Map Str ℕ
  collect_tokens_by_agent ls = collect_onto ls []

-- More tokens first, then by name.
abbrev pub agent_le : Str × ℕ → Str × ℕ → Bool
agent_le i j = if i.1 == j.1 then str_le i.0 j.0 else above64 i.1 j.1

abbrev pub is_named : Str × ℕ → Bool
is_named e = not (str_eq e.0 subagent_main)

-- From `byAgent`, in the order in which the map is iterated.
pub top_subagents : Map Str ℕ → Str
top_subagents by_agent =
    let named = filter_by is_named by_agent in
    let shown = take 3 (sort_by agent_le named) in
    if is_empty named
    then []
    else codes "top subagents by tokens: " ++ join (codes ", ") (map (λ e. e.0) shown)

module _ (unmarshal_usage : Str → Option UsageLine)
    (unmarshal_record : Str → Option AttributionRecord) where
  -- The contents of usage.jsonl and attribution.jsonl.
  pub summarise_subagents : Option Str → Option Str → Str
  summarise_subagents none attribution = []
  summarise_subagents (some usage) attribution = top_subagents (
      collect_tokens_by_agent unmarshal_usage (read_attribution_map unmarshal_record attribution)
        (split_on 10 [] usage))

  abbrev pub sum_field : (TokenBreakdown → ℕ) → ℕ → Map Str TokenBreakdown → ℕ
  sum_field field acc [] = acc
  sum_field field acc ((m, t) ∷ totals) = sum_field field (add64 acc (field t)) totals

  -- `percent` is fmt.Sprintf with "cache-read %.0f%% of input-side tokens".
  pub build_usage_summary :
      {F : Type 0} → Floats F → (F → Str) → Map Str TokenBreakdown → Option Str → Option Str → Str
  build_usage_summary f percent per_model usage attribution =
      let read = sum_field (λ t. t.cache_read) 0 per_model in
      let side =
        add64
          (add64 (sum_field (λ t. t.input) 0 per_model)
            (sum_field (λ t. t.cache_creation) 0 per_model))
          read in
      let pct = f.mul_float (f.div_float (f.of_int64 read) (f.of_int64 side)) (f.of_int64 100) in
      let sub = summarise_subagents usage attribution in
      if is_empty per_model || side == 0
      then []
      else if is_empty sub
      then percent pct
      else percent pct ++ (codes "; " ++ sub)
