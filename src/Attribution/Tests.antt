-- ===== src/Attribution/Tests.antt =====
-- Attribution on concrete transcripts. A line is its request, its message, its tokens and the first
-- byte of its agent.
use demesne.Base.{
  ℕ, ◌≡◌, refl, true, Option, none, some, List, [], ◌∷◌, ◌++◌, Str, codes, Map, lookup, split_on,
  str_eq, join, sort_by, insert_by, filter_by, str_le, insert,
}
use demesne.Tracker.{UsageLine}
use demesne.Attribution.{
  AttributionRecord, TranscriptLine, key_Eq, parse_all, merge_lines, distill_attribution,
  top_subagents, collect_tokens_by_agent,
}
use demesne.Attribution.Dedup.{Best, candidates, transcripts_best}
use demesne.Attribution.Summary.{sum_buckets, sum_of_lines, buckets_exact}

abbrev transcript : Str → Option TranscriptLine
transcript (r ∷ m ∷ n ∷ agent) = some (record {
  line_type = codes "assistant";
  attribution = record {
    request_id = r ∷ [];
    attribution_agent = agent;
    attribution_skill = [];
    attribution_plugin = [];
  };
  message_id = m ∷ [];
  stop_reason = some (codes "end_turn");
  output_tokens = n;
})
transcript _ = none

-- Two versions of one message and one of another.
abbrev lines : Str
lines =
    codes "rm"
    ++ 20 ∷ codes "a"
    ++ 10 ∷ codes "rm"
    ++ 30 ∷ codes "b"
    ++ 10 ∷ codes "rn"
    ++ 25 ∷ codes "c"

abbrev files : List (Option Str)
files = some lines ∷ none ∷ []

transcripts_best_example :
    Best
      (codes "r", codes "m")
      (candidates transcript files [])
      (lookup (codes "r", codes "m") (parse_all transcript files []))
transcripts_best_example = transcripts_best transcript files (codes "r", codes "m")

abbrev rec_of : Str → AttributionRecord
rec_of agent = record {
  request_id = codes "r";
  attribution_agent = agent;
  attribution_skill = [];
  attribution_plugin = [];
}

-- One record for each message, so two for the request.
distilled :
    distill_attribution transcript (some files) true
    ≡ some (rec_of (codes "b") ∷ rec_of (codes "c") ∷ [])
unfolding distill_attribution parse_all merge_lines lookup insert split_on sort_by insert_by str_le
    str_eq
distilled = refl

abbrev usage : Str → Option UsageLine
usage (r ∷ i ∷ []) = some (record {
  request_id = r ∷ [];
  ts = [];
  model = codes "m";
  tokens = record { input = i; output = 1; cache_creation = 0; cache_read = 0 };
})
usage _ = none

abbrev attribution : Map Str AttributionRecord
attribution = (codes "r", rec_of (codes "b")) ∷ []

abbrev usage_lines : List Str
usage_lines = (114 ∷ 5 ∷ []) ∷ (115 ∷ 7 ∷ []) ∷ [] ∷ (114 ∷ 1 ∷ []) ∷ codes "bad" ∷ []

buckets_exact_example :
    sum_buckets (collect_tokens_by_agent usage attribution usage_lines)
    ≡ sum_of_lines usage usage_lines
buckets_exact_example = buckets_exact usage attribution usage_lines

abbrev shares : Map Str ℕ
shares = (codes "(main)", 9) ∷ (codes "b", 4) ∷ (codes "a", 4) ∷ []

abbrev shares_again : Map Str ℕ
shares_again = (codes "b", 4) ∷ (codes "(main)", 9) ∷ (codes "a", 4) ∷ []

summary : top_subagents shares ≡ codes "top subagents by tokens: a, b"
unfolding top_subagents filter_by sort_by insert_by join str_eq str_le
summary = refl
