-- ===== src/Anthropic/Streams.antt =====
-- internal/proxies/anthropic/usage.go: what one streamed response is counted as.
use demesne.Base.{
  ℕ, ◌≡◌, refl, ◌∙◌, ap, inl, inr, Bool, ◌||◌, Bool-cases, Option, none, some, is_some, List, [],
  ◌∷◌, map, if◌then◌else◌, Str, codes, str_eq, is_empty, arith,
}
use demesne.Tracker.{is_positive, used, no_usage_block}
use demesne.Anthropic.{
  TokenCounts, SseEvent, SseState, new_sse_state, apply_start, if_positive, supersede, apply_delta,
  apply_event, payload_of, Body, decoded, apply_decoded, handle_line, handle_lines, flush,
}

abbrev pub is_start : SseEvent → Bool
is_start ev = str_eq ev.kind (codes "message_start")

-- The usage block of a message_start, and of a message_delta.
abbrev pub start_usage : SseEvent → Option TokenCounts
start_usage ev =
    if is_start ev then elim ev.message [ none ↦ none | some m ↦ m.message_usage ] else none

abbrev pub delta_usage : SseEvent → Option TokenCounts
delta_usage ev =
    if is_start ev
    then none
    else if str_eq ev.kind (codes "message_delta")
    then ev.event_usage
    else none

abbrev pub start_model : SseEvent → Str
start_model ev =
    if is_start ev then elim ev.message [ none ↦ [] | some m ↦ m.message_model ] else []

abbrev pub last_or : ℕ → List ℕ → ℕ
last_or d [] = d
last_or d (x ∷ xs) = last_or x xs

abbrev pub positives : List ℕ → List ℕ
positives [] = []
positives (x ∷ xs) = let rest = positives xs in if is_positive x then x ∷ rest else rest

-- Counts that later usage blocks supersede: the last output, and the last positive count of each
-- other kind.
abbrev pub final_counts : TokenCounts → List TokenCounts → TokenCounts
final_counts u ds = record {
  input_tokens = last_or u.input_tokens (positives (map (λ d. d.input_tokens) ds));
  output_tokens = last_or u.output_tokens (map (λ d. d.output_tokens) ds);
  cache_creation_input_tokens =
      last_or u.cache_creation_input_tokens
        (positives (map (λ d. d.cache_creation_input_tokens) ds));
  cache_read_input_tokens =
      last_or u.cache_read_input_tokens (positives (map (λ d. d.cache_read_input_tokens) ds));
}

pub delta_usages : List SseEvent → List TokenCounts
delta_usages [] = []
delta_usages (ev ∷ evs) =
    let rest = delta_usages evs in elim (delta_usage ev) [ none ↦ rest | some d ↦ d ∷ rest ]

-- The usage of the last message_start that has one, and of the deltas behind it.
pub last_start : List SseEvent → Option (TokenCounts × List TokenCounts)
last_start [] = none
last_start (ev ∷ evs) =
    let rest = last_start evs in
    elim rest [
      | none ↦ elim (start_usage ev) [ none ↦ none | some u ↦ some (u, delta_usages evs) ]
      | some r ↦ some r
    ]

pub last_model : Str → List SseEvent → Str
last_model m [] = m
last_model m (ev ∷ evs) =
    if is_empty (start_model ev) then last_model m evs else last_model (start_model ev) evs

pub counted_as : TokenCounts → List SseEvent → TokenCounts
counted_as c evs = elim (last_start evs) [
  | none ↦ final_counts c (delta_usages evs)
  | some r ↦ final_counts r.0 r.1
]

abbrev pub apply_events : List SseEvent → SseState → SseState
apply_events [] s = s
apply_events (ev ∷ evs) s = apply_events evs (apply_event ev s)

last_or-if_positive :
    (x old : ℕ) (xs : List ℕ)
    → last_or (if_positive x old) (positives xs) ≡ last_or old (positives (x ∷ xs))
last_or-if_positive x old xs = elim (Bool-cases (is_positive x)) [ inl e ↦ rw e | inr e ↦ rw e ]

final_counts-supersede :
    (d c : TokenCounts) (ds : List TokenCounts)
    → final_counts (supersede d c) ds ≡ final_counts c (d ∷ ds)
final_counts-supersede d c ds = cc (
  last_or-if_positive d.input_tokens c.input_tokens (map (λ d. d.input_tokens) ds),
  last_or-if_positive d.cache_creation_input_tokens c.cache_creation_input_tokens
      (map (λ d. d.cache_creation_input_tokens) ds),
  last_or-if_positive d.cache_read_input_tokens c.cache_read_input_tokens
      (map (λ d. d.cache_read_input_tokens) ds),
)

-- What one event does.
apply_event_lem :
    (ev : SseEvent) (s : SseState)
    → let t = apply_event ev s in
      (t.counts ≡ elim (start_usage ev) [
        | none ↦ elim (delta_usage ev) [ none ↦ s.counts | some d ↦ supersede d s.counts ]
        | some u ↦ u
      ])
      × (t.saw_start ≡ s.saw_start || is_some (start_usage ev))
      × (t.model_id ≡ (if is_empty (start_model ev) then s.model_id else start_model ev))
unfolding apply_event apply_start apply_delta
apply_event_lem ev s = (ground arith, ground arith, ground arith)

final_counts_step :
    (o : Option (TokenCounts × List TokenCounts)) (start delta : Option TokenCounts)
    (c : TokenCounts) (ds : List TokenCounts)
    → ◌≡◌ {A = TokenCounts}
        (elim o [
          | none ↦
              final_counts
                (elim start [
                  | none ↦ elim delta [ none ↦ c | some d ↦ supersede d c ]
                  | some u ↦ u
                ])
                ds
          | some r ↦ final_counts r.0 r.1
        ])
        (elim (elim o as (λ _. Option (TokenCounts × List TokenCounts)) [
          | none ↦ elim start [ none ↦ none | some u ↦ some (u, ds) ]
          | some r ↦ some r
        ]) [
          | none ↦ final_counts c (elim delta [ none ↦ ds | some d ↦ d ∷ ds ])
          | some r ↦ final_counts r.0 r.1
        ])
final_counts_step (some r) start delta c ds = refl
final_counts_step none (some u) delta c ds = refl
final_counts_step none none none c ds = refl
final_counts_step none none (some d) c ds = final_counts-supersede d c ds

pub apply_events_lem :
    (evs : List SseEvent) (s : SseState)
    → let t = apply_events evs s in
      (t.counts ≡ counted_as s.counts evs)
      × (t.saw_start ≡ s.saw_start || is_some (last_start evs))
      × (t.model_id ≡ last_model s.model_id evs)
unfolding counted_as last_start delta_usages last_model
apply_events_lem [] s = (refl, ground arith, refl)
apply_events_lem (ev ∷ evs) s =
    let step = apply_event_lem ev s in
    let ih = apply_events_lem evs (apply_event ev s) in
    (
      ih.0
          ∙ ap (λ c. counted_as c evs) step.0
          ∙ final_counts_step (last_start evs) (start_usage ev) (delta_usage ev) s.counts
              (delta_usages evs),
      ground (arith, ih.1, step.1),
      ground (arith, ih.2, step.2),
    )

module _ (unmarshal_event : Str → Option SseEvent) (unmarshal_body : Str → Option Body) where
  -- The events of the lines that decode.
  pub events_of : List Str → List SseEvent
  events_of [] = []
  events_of (l ∷ ls) =
      let rest = events_of ls in
      elim (decoded unmarshal_event unmarshal_body (payload_of l)) [
        | none ↦ rest
        | some ev ↦ ev ∷ rest
      ]

  handle_lines_lem :
      (ls : List Str) (s : SseState)
      → handle_lines unmarshal_event unmarshal_body ls s ≡ apply_events (events_of ls) s
  unfolding handle_lines events_of
  handle_lines_lem [] s = refl
  handle_lines_lem (l ∷ ls) s =
      handle_lines_lem ls (handle_line unmarshal_event unmarshal_body l s)
      ∙ one (decoded unmarshal_event unmarshal_body (payload_of l))
    where
      one :
          (o : Option SseEvent)
          → apply_events (events_of ls) (apply_decoded unmarshal_event unmarshal_body o s)
            ≡ apply_events (elim o [ none ↦ events_of ls | some ev ↦ ev ∷ events_of ls ]) s
      one none = refl
      one (some ev) = refl

  -- A streamed response is recorded once: as a response without a usage block if no message_start
  -- with usage came, and else under the last model named, with the last such block in which the
  -- deltas behind it supersede the output count always and the other counts where positive; lines
  -- that do not decode, and other events, change nothing.
  pub stream_counted :
      (ls : List Str) (rid : Str)
      → let evs = events_of ls in
        flush rid (handle_lines unmarshal_event unmarshal_body ls new_sse_state)
        ≡ elim (last_start evs) [
          | none ↦ no_usage_block
          | some r ↦ used (last_model [] evs) (final_counts r.0 r.1) rid
        ]
  unfolding flush counted_as
  stream_counted ls rid =
      let evs = events_of ls in
      let l = apply_events_lem evs new_sse_state in
      ap (flush rid) (handle_lines_lem ls new_sse_state) ∙ ground (arith, l.0, l.1, l.2)
