-- ===== src/Openai/Streams.antt =====
-- internal/proxies/openai/usage.go: what one streamed response is counted as.
use demesne.Base.{◌≡◌, refl, ◌∙◌, ap, Option, none, some, List, [], ◌∷◌, if◌then◌else◌, Str, arith}
use demesne.Tracker.{used, no_usage_block}
use demesne.Anthropic.{payload_of}
use demesne.Openai.{
  Counts, Response, StreamEvent, StreamState, new_stream_state, is_completed, usage_in, apply_usage,
  if_named, apply_event, JsonBody, decoded, apply_decoded, handle_line, handle_lines, flush,
}

-- The usage of a response.completed event, and the usage block of another event.
abbrev pub completed_usage : StreamEvent → Option Counts
completed_usage ev = if is_completed ev then usage_in ev.response else none

abbrev pub other_usage : StreamEvent → Option Counts
other_usage ev = if is_completed ev then none else ev.event_usage

abbrev pub or_else {ℓ} : {A : Type ℓ} → Option A → Option A → Option A
or_else none p = p
or_else (some a) p = some a

pub last_completed : List StreamEvent → Option Counts
last_completed [] = none
last_completed (ev ∷ evs) = or_else (last_completed evs) (completed_usage ev)

-- The first usage block of another event, unless one has been seen.
pub first_other : List StreamEvent → Option Counts
first_other [] = none
first_other (ev ∷ evs) = or_else (other_usage ev) (first_other evs)

abbrev pub named_model : Option Response → Str → Str
named_model none m = m
named_model (some r) m = if_named r.response_model m

abbrev pub named_id : Option Response → Str → Str
named_id none i = i
named_id (some r) i = if_named r.response_id i

pub last_model : Str → List StreamEvent → Str
last_model m [] = m
last_model m (ev ∷ evs) = last_model (named_model ev.response m) evs

pub last_id : Str → List StreamEvent → Str
last_id i [] = i
last_id i (ev ∷ evs) = last_id (named_id ev.response i) evs

-- What is recorded of a state's usage.
abbrev pub seen : StreamState → Option Counts
seen s = if s.saw_usage then some s.counts else none

abbrev pub apply_events : List StreamEvent → StreamState → StreamState
apply_events [] s = s
apply_events (ev ∷ evs) s = apply_events evs (apply_event ev s)

apply_event_lem :
    (ev : StreamEvent) (s : StreamState)
    → let t = apply_event ev s in
      (seen t ≡ or_else (completed_usage ev) (or_else (seen s) (other_usage ev)))
      × (t.model_id ≡ named_model ev.response s.model_id)
      × (t.request_id ≡ named_id ev.response s.request_id)
unfolding apply_event apply_usage
apply_event_lem ev s = (ground arith, ground arith, ground arith)

or_else_step :
    (last final seen_so_far other first : Option Counts)
    → or_else last (or_else (or_else final (or_else seen_so_far other)) first)
      ≡ or_else (or_else last final) (or_else seen_so_far (or_else other first))
or_else_step (some a) final o other first = refl
or_else_step none (some a) o other first = refl
or_else_step none none (some a) other first = refl
or_else_step none none none other first = refl

apply_events_lem :
    (evs : List StreamEvent) (s : StreamState)
    → let t = apply_events evs s in
      (seen t ≡ or_else (last_completed evs) (or_else (seen s) (first_other evs)))
      × (t.model_id ≡ last_model s.model_id evs)
      × (t.request_id ≡ last_id s.request_id evs)
unfolding last_completed first_other last_model last_id
apply_events_lem [] s = (ground arith, refl, refl)
apply_events_lem (ev ∷ evs) s =
    let step = apply_event_lem ev s in
    let ih = apply_events_lem evs (apply_event ev s) in
    (
      ih.0
          ∙ ap (λ o. or_else (last_completed evs) (or_else o (first_other evs))) step.0
          ∙ or_else_step (last_completed evs) (completed_usage ev) (seen s) (other_usage ev)
              (first_other evs),
      ih.1 ∙ ap (λ m. last_model m evs) step.1,
      ih.2 ∙ ap (λ i. last_id i evs) step.2,
    )

module _ (unmarshal_event : Str → Option StreamEvent) (unmarshal_body : Str → Option JsonBody) where
  -- The events of the lines that decode.
  pub events_of : List Str → List StreamEvent
  events_of [] = []
  events_of (l ∷ ls) =
      let rest = events_of ls in
      elim (decoded unmarshal_event unmarshal_body (payload_of l)) [
        | none ↦ rest
        | some ev ↦ ev ∷ rest
      ]

  handle_lines_lem :
      (ls : List Str) (s : StreamState)
      → handle_lines unmarshal_event unmarshal_body ls s ≡ apply_events (events_of ls) s
  unfolding handle_lines events_of
  handle_lines_lem [] s = refl
  handle_lines_lem (l ∷ ls) s =
      handle_lines_lem ls (handle_line unmarshal_event unmarshal_body l s)
      ∙ one (decoded unmarshal_event unmarshal_body (payload_of l))
    where
      one :
          (o : Option StreamEvent)
          → apply_events (events_of ls) (apply_decoded unmarshal_event unmarshal_body o s)
            ≡ apply_events (elim o [ none ↦ events_of ls | some ev ↦ ev ∷ events_of ls ]) s
      one none = refl
      one (some ev) = refl

  -- A streamed response is recorded once: with the usage of its last response.completed event that has
  -- one, and only where there is none with the first usage block of another event, under the last model
  -- and the last response id named, or the header's id where none was; with neither usage it is recorded
  -- as a response without a usage block.
  pub completed_wins :
      (ls : List Str) (header_id : Str)
      → let evs = events_of ls in
        flush header_id (handle_lines unmarshal_event unmarshal_body ls new_stream_state)
        ≡ elim (or_else (last_completed evs) (first_other evs)) [
          | none ↦ no_usage_block
          | some u ↦ used (last_model [] evs) u (if_named (last_id [] evs) header_id)
        ]
  unfolding flush
  completed_wins ls header_id =
      let evs = events_of ls in
      let l = apply_events_lem evs new_stream_state in
      ap (flush header_id) (handle_lines_lem ls new_stream_state) ∙ ground (arith, l.0, l.1, l.2)
