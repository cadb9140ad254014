-- ===== src/Anthropic.antt =====
-- internal/proxies/anthropic/usage.go and pricing.go: how a response of the Anthropic API is counted.
pub mod Streams
pub mod Responses
mod Tests
use demesne.Base.{
  ℕ, Bool, true, false, Option, none, some, List, [], ◌∷◌, if◌then◌else◌, Str, codes, str_eq,
  is_empty, has_prefix, drop, trim_space,
}
use demesne.Tracker.{
  add64, is_positive, TokenBreakdown, Vendor, Event, used, parse_error, no_usage_block,
}
use demesne.Sse.{
  read, read_all, new_sse_interceptor, read_json, read_all_json, new_json_interceptor, close_json,
}
use demesne.Pricing.{lookup_pricing, anthropic_catalog, AnthropicPricing, Floats, tokens_cost, plus}

-- Each count is an int64, as a word.
pub record TokenCounts : Type 0 where
  pub input_tokens : ℕ
  pub output_tokens : ℕ
  pub cache_creation_input_tokens : ℕ
  pub cache_read_input_tokens : ℕ

abbrev pub zero_counts : TokenCounts
zero_counts = record {
  input_tokens = 0;
  output_tokens = 0;
  cache_creation_input_tokens = 0;
  cache_read_input_tokens = 0;
}

abbrev pub combine_counts : TokenCounts → TokenCounts → TokenCounts
combine_counts total more = record {
  input_tokens = add64 total.input_tokens more.input_tokens;
  output_tokens = add64 total.output_tokens more.output_tokens;
  cache_creation_input_tokens =
      add64 total.cache_creation_input_tokens more.cache_creation_input_tokens;
  cache_read_input_tokens = add64 total.cache_read_input_tokens more.cache_read_input_tokens;
}

abbrev pub normalize_tokens : TokenCounts → TokenBreakdown
normalize_tokens tc = record {
  input = tc.input_tokens;
  output = tc.output_tokens;
  cache_creation = tc.cache_creation_input_tokens;
  cache_read = tc.cache_read_input_tokens;
}

pub record ModelReport (F : Type 0) : Type 0 where
  pub counts : TokenCounts
  pub cost_usd : F

module _ {F : Type 0} (f : Floats F) where
  pub cost_usd : Str → TokenCounts → F
  cost_usd id t = elim (lookup_pricing anthropic_catalog id) [
    | none ↦ f.of_int64 0
    | some p ↦
        plus f
          (plus f
            (plus f (tokens_cost f t.input_tokens p.input_per_mtok)
              (tokens_cost f t.output_tokens p.output_per_mtok))
            (tokens_cost f t.cache_creation_input_tokens p.cache_write_per_mtok))
          (tokens_cost f t.cache_read_input_tokens p.cache_read_per_mtok)
  ]

  abbrev pub model_report : Str → TokenCounts → ModelReport F
  model_report id t = record { counts = t; cost_usd = cost_usd id t }

  abbrev pub vendor : Vendor TokenCounts F (ModelReport F)
  vendor = record {
    none_used = zero_counts;
    combine = combine_counts;
    cost = cost_usd;
    report = model_report;
    tokens = normalize_tokens;
    no_cost = f.of_int64 0;
    add_cost = plus f;
  }

pub record Message : Type 0 where
  pub message_model : Str
  pub message_usage : Option TokenCounts

pub record SseEvent : Type 0 where
  pub kind : Str
  pub message : Option Message
  pub event_usage : Option TokenCounts

pub record SseState : Type 0 where
  pub model_id : Str
  pub counts : TokenCounts
  pub saw_start : Bool

abbrev pub new_sse_state : SseState
new_sse_state = record { model_id = []; counts = zero_counts; saw_start = false }

abbrev pub with_model : Str → SseState → SseState
with_model [] s = s
with_model (c ∷ m) s = record s { model_id = c ∷ m }

abbrev pub with_counts : Option TokenCounts → SseState → SseState
with_counts none s = s
with_counts (some u) s = record s { counts = u; saw_start = true }

pub apply_start : SseEvent → SseState → SseState
apply_start ev s = elim ev.message [
  | none ↦ s
  | some m ↦ with_counts m.message_usage (with_model m.message_model s)
]

-- `if new > 0 { old = new }`
abbrev pub if_positive : ℕ → ℕ → ℕ
if_positive new old = if is_positive new then new else old

abbrev pub supersede : TokenCounts → TokenCounts → TokenCounts
supersede u old = record {
  input_tokens = if_positive u.input_tokens old.input_tokens;
  output_tokens = u.output_tokens;
  cache_creation_input_tokens =
      if_positive u.cache_creation_input_tokens old.cache_creation_input_tokens;
  cache_read_input_tokens = if_positive u.cache_read_input_tokens old.cache_read_input_tokens;
}

pub apply_delta : SseEvent → SseState → SseState
apply_delta ev s = elim ev.event_usage [
  | none ↦ s
  | some u ↦ record s { counts = supersede u s.counts }
]

pub apply_event : SseEvent → SseState → SseState
apply_event ev s =
    if str_eq ev.kind (codes "message_start")
    then apply_start ev s
    else if str_eq ev.kind (codes "message_delta")
    then apply_delta ev s
    else s

-- The payload of a line that is decoded, `none` for a line that is passed over.
pub payload_of : Str → Option Str
payload_of line =
    let payload = trim_space (drop 5 line) in
    if has_prefix line (codes "data:")
    then (if is_empty payload
        then none
        else if str_eq payload (codes "[DONE]")
        then none
        else some payload)
    else none

pub record Body : Type 0 where
  pub body_model : Str
  pub body_usage : Option TokenCounts

-- `unmarshal_event` and `unmarshal_body` are json.Unmarshal into the two types, `none` for an error.
module _ (unmarshal_event : Str → Option SseEvent) (unmarshal_body : Str → Option Body) where
  abbrev pub decoded : Option Str → Option SseEvent
  decoded none = none
  decoded (some payload) = unmarshal_event payload

  abbrev pub apply_decoded : Option SseEvent → SseState → SseState
  apply_decoded none s = s
  apply_decoded (some ev) s = apply_event ev s

  abbrev pub handle_line : Str → SseState → SseState
  handle_line line s = apply_decoded (decoded (payload_of line)) s

  pub handle_lines : List Str → SseState → SseState
  handle_lines [] s = s
  handle_lines (l ∷ ls) s = handle_lines ls (handle_line l s)

  pub on_json_body : Str → Str → Event TokenCounts
  on_json_body rid bytes = elim (unmarshal_body bytes) [
    | none ↦ parse_error
    | some b ↦ elim b.body_usage [ none ↦ no_usage_block | some u ↦ used b.body_model u rid ]
  ]

-- What `flush` records with the tracker.
pub flush : Str → SseState → Event TokenCounts
flush rid s = if s.saw_start then used s.model_id s.counts rid else no_usage_block

-- The calls of the tracker by one response, read to its end in these chunks and closed once.
module _ (unmarshal_event : Str → Option SseEvent) (unmarshal_body : Str → Option Body) where
  abbrev pub on_json_bodies : Str → List Str → List (Event TokenCounts)
  on_json_bodies rid [] = []
  on_json_bodies rid (b ∷ bs) =
      on_json_body unmarshal_event unmarshal_body rid b ∷ on_json_bodies rid bs

  pub wrap_response_body : Str → Str → List Str → Str → List (Event TokenCounts)
  wrap_response_body content_type rid chunks last =
      let stream = read last true (read_all chunks new_sse_interceptor) in
      let body = read_json last (read_all_json chunks new_json_interceptor) in
      if has_prefix content_type (codes "text/event-stream")
      then flush rid (handle_lines unmarshal_event unmarshal_body stream.handled new_sse_state) ∷ []
      else on_json_bodies rid (close_json body).calls
