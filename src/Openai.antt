-- ===== src/Openai.antt =====
-- internal/proxies/openai/usage.go and pricing.go: how a response of the OpenAI API is counted.
pub mod Streams
pub mod Responses
mod Tests
use demesne.Base.{
  ℕ, Bool, true, false, not, ◌&&◌, Option, none, some, is_some, List, [], ◌∷◌, if◌then◌else◌, Str,
  codes, str_eq, is_empty, has_prefix, drop, trim_space, ◌+◌, ◌-◌, ◌%◌, ◌^◌,
}
use demesne.Tracker.{add64, TokenBreakdown, Vendor, Event, used, parse_error, no_usage_block}
use demesne.Sse.{
  read, read_all, new_sse_interceptor, read_json, read_all_json, new_json_interceptor, close_json,
}
use demesne.Pricing.{lookup_pricing, openai_catalog, OpenaiPricing, Floats, tokens_cost, plus}
use demesne.Anthropic.{payload_of}

-- Each count is an int64, as a word; the two detail structs have one field each.
pub record Counts : Type 0 where
  pub input_tokens : ℕ
  pub output_tokens : ℕ
  pub total_tokens : ℕ
  pub cached_tokens : ℕ
  pub reasoning_tokens : ℕ

abbrev pub zero_counts : Counts
zero_counts = record {
  input_tokens = 0;
  output_tokens = 0;
  total_tokens = 0;
  cached_tokens = 0;
  reasoning_tokens = 0;
}

abbrev pub combine : Counts → Counts → Counts
combine total more = record {
  input_tokens = add64 total.input_tokens more.input_tokens;
  output_tokens = add64 total.output_tokens more.output_tokens;
  total_tokens = add64 total.total_tokens more.total_tokens;
  cached_tokens = add64 total.cached_tokens more.cached_tokens;
  reasoning_tokens = add64 total.reasoning_tokens more.reasoning_tokens;
}

abbrev pub normalize : Counts → TokenBreakdown
normalize tc = record {
  input = tc.input_tokens;
  output = tc.output_tokens;
  cache_creation = 0;
  cache_read = tc.cached_tokens;
}

pub record Report (F : Type 0) : Type 0 where
  pub reported_input : ℕ
  pub reported_output : ℕ
  pub reported_cached : ℕ
  pub reported_reasoning : ℕ
  pub reported_cost : F

-- `a - b` on int64, as words.
abbrev pub sub64 : ℕ → ℕ → ℕ
sub64 a b = (a + 2 ^ 64 - b % 2 ^ 64) % 2 ^ 64

module _ {F : Type 0} (f : Floats F) where
  pub cost : Str → Counts → F
  cost id t = elim (lookup_pricing openai_catalog id) [
    | none ↦ f.of_int64 0
    | some p ↦
        plus f
          (plus f (tokens_cost f (sub64 t.input_tokens t.cached_tokens) p.input_rate)
            (tokens_cost f t.cached_tokens p.cached_input_rate))
          (tokens_cost f t.output_tokens p.output_rate)
  ]

  abbrev pub report : Str → Counts → Report F
  report id t = record {
    reported_input = t.input_tokens;
    reported_output = t.output_tokens;
    reported_cached = t.cached_tokens;
    reported_reasoning = t.reasoning_tokens;
    reported_cost = cost id t;
  }

  abbrev pub vendor : Vendor Counts F (Report F)
  vendor = record {
    none_used = zero_counts;
    combine = combine;
    cost = cost;
    report = report;
    tokens = normalize;
    no_cost = f.of_int64 0;
    add_cost = plus f;
  }

pub record Response : Type 0 where
  pub response_id : Str
  pub response_model : Str
  pub response_usage : Option Counts

pub record StreamEvent : Type 0 where
  pub kind : Str
  pub response : Option Response
  pub event_usage : Option Counts

pub record StreamState : Type 0 where
  pub model_id : Str
  pub counts : Counts
  pub saw_usage : Bool
  pub request_id : Str

abbrev pub new_stream_state : StreamState
new_stream_state = record {
  model_id = [];
  counts = zero_counts;
  saw_usage = false;
  request_id = [];
}

abbrev pub is_completed : StreamEvent → Bool
is_completed ev = str_eq ev.kind (codes "response.completed")

abbrev pub with_usage : Option Counts → StreamState → StreamState
with_usage none s = s
with_usage (some u) s = record s { counts = u; saw_usage = true }

abbrev pub usage_in : Option Response → Option Counts
usage_in none = none
usage_in (some r) = r.response_usage

pub apply_usage : StreamEvent → StreamState → StreamState
apply_usage ev s =
    if is_completed ev
    then with_usage (usage_in ev.response) s
    else if s.saw_usage
    then s
    else with_usage ev.event_usage s

-- `if new != "" { old = new }`
abbrev pub if_named : Str → Str → Str
if_named [] old = old
if_named (c ∷ s) old = c ∷ s

abbrev pub with_response : Option Response → StreamState → StreamState
with_response none s = s
with_response (some r) s = record s {
  model_id = if_named r.response_model s.model_id;
  request_id = if_named r.response_id s.request_id;
}

pub apply_event : StreamEvent → StreamState → StreamState
apply_event ev s = apply_usage ev (with_response ev.response s)

pub record JsonBody : Type 0 where
  pub body_id : Str
  pub body_model : Str
  pub body_usage : Option Counts

-- `unmarshal_event` and `unmarshal_body` are json.Unmarshal into the two types, `none` for an error.
module _ (unmarshal_event : Str → Option StreamEvent) (unmarshal_body : Str → Option JsonBody) where
  abbrev pub decoded : Option Str → Option StreamEvent
  decoded none = none
  decoded (some payload) = unmarshal_event payload

  abbrev pub apply_decoded : Option StreamEvent → StreamState → StreamState
  apply_decoded none s = s
  apply_decoded (some ev) s = apply_event ev s

  -- The lines are told apart as in the other vendor's proxy.
  abbrev pub handle_line : Str → StreamState → StreamState
  handle_line line s = apply_decoded (decoded (payload_of line)) s

  pub handle_lines : List Str → StreamState → StreamState
  handle_lines [] s = s
  handle_lines (l ∷ ls) s = handle_lines ls (handle_line l s)

  pub on_json_body : Str → Str → Event Counts
  on_json_body header_id bytes = elim (unmarshal_body bytes) [
    | none ↦ parse_error
    | some b ↦ elim b.body_usage [
      | none ↦ no_usage_block
      | some u ↦ used b.body_model u (if_named b.body_id header_id)
    ]
  ]

  abbrev pub on_json_bodies : Str → List Str → List (Event Counts)
  on_json_bodies header_id [] = []
  on_json_bodies header_id (b ∷ bs) = on_json_body header_id b ∷ on_json_bodies header_id bs

-- What `flush` records with the tracker.
pub flush : Str → StreamState → Event Counts
flush header_id s =
    if s.saw_usage
    then used s.model_id s.counts (if_named s.request_id header_id)
    else no_usage_block

-- The calls of the tracker by one response, read to its end in these chunks and closed once.
module _ (unmarshal_event : Str → Option StreamEvent) (unmarshal_body : Str → Option JsonBody) where
  pub wrap_response_body : Str → Str → List Str → Str → List (Event Counts)
  wrap_response_body content_type header_id chunks last =
      let stream = read last true (read_all chunks new_sse_interceptor) in
      let body = read_json last (read_all_json chunks new_json_interceptor) in
      if has_prefix content_type (codes "application/json")
      then on_json_bodies unmarshal_event unmarshal_body header_id (close_json body).calls
      else flush header_id
          (handle_lines unmarshal_event unmarshal_body stream.handled new_stream_state)
        ∷ []
