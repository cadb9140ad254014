-- ===== src/Anthropic/Tests.antt =====
-- A response of the Anthropic API, decoded by a table.
use demesne.Base.{
  ℕ, ◌≡◌, Option, none, some, List, [], ◌∷◌, ◌++◌, if◌then◌else◌, Str, codes, str_eq,
}
use demesne.Tracker.{used, no_usage_block}
use demesne.Anthropic.{TokenCounts, SseEvent, new_sse_state, Body, handle_lines, flush}
use demesne.Anthropic.Streams.{events_of, last_start, last_model, final_counts, stream_counted}

abbrev counts : ℕ → TokenCounts
counts n = record {
  input_tokens = 0;
  output_tokens = n;
  cache_creation_input_tokens = n;
  cache_read_input_tokens = 0;
}

abbrev unmarshal_event : Str → Option SseEvent
unmarshal_event s =
    if str_eq s (codes "start")
    then some (record {
      kind = codes "message_start";
      message =
          some (record { message_model = codes "claude-opus-5"; message_usage = some (counts 3) });
      event_usage = none;
    })
    else if str_eq s (codes "delta")
    then some
        (record { kind = codes "message_delta"; message = none; event_usage = some (counts 8) })
    else none

abbrev unmarshal_body : Str → Option Body
unmarshal_body s = none

abbrev lines : List Str
lines = codes "event: x" ∷ codes "data: start" ∷ codes "data: ?" ∷ codes "data: delta" ∷ []

stream_counted_example :
    let evs = events_of unmarshal_event unmarshal_body lines in
    flush (codes "r") (handle_lines unmarshal_event unmarshal_body lines new_sse_state)
    ≡ elim (last_start evs) [
      | none ↦ no_usage_block
      | some r ↦ used (last_model [] evs) (final_counts r.0 r.1) (codes "r")
    ]
stream_counted_example = stream_counted unmarshal_event unmarshal_body lines (codes "r")

abbrev chunks : List Str
chunks = codes "data: st" ∷ (codes "art" ++ 10 ∷ []) ∷ []
