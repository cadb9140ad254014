-- ===== src/Openai/Tests.antt =====
-- A response of the OpenAI API, decoded by a table.
use demesne.Base.{
  ℕ, ◌≡◌, Option, none, some, List, [], ◌∷◌, ◌++◌, if◌then◌else◌, Str, codes, str_eq,
}
use demesne.Tracker.{used, no_usage_block}
use demesne.Openai.{Counts, StreamEvent, new_stream_state, JsonBody, handle_lines, flush, if_named}
use demesne.Openai.Streams.{
  events_of, or_else, last_completed, first_other, last_model, last_id, completed_wins,
}

abbrev counts : ℕ → Counts
counts n = record {
  input_tokens = n;
  output_tokens = n;
  total_tokens = n;
  cached_tokens = 0;
  reasoning_tokens = 0;
}

abbrev unmarshal_event : Str → Option StreamEvent
unmarshal_event s =
    if str_eq s (codes "completed")
    then some (record {
      kind = codes "response.completed";
      response = some (record {
        response_id = codes "r7";
        response_model = codes "gpt-5.5";
        response_usage = some (counts 3);
      });
      event_usage = none;
    })
    else if str_eq s (codes "other")
    then some (record { kind = codes "x"; response = none; event_usage = some (counts 8) })
    else none

abbrev unmarshal_body : Str → Option JsonBody
unmarshal_body s = none

abbrev lines : List Str
lines = codes "data: other" ∷ codes "data: completed" ∷ codes "data: other" ∷ []

completed_wins_example :
    let evs = events_of unmarshal_event unmarshal_body lines in
    flush (codes "h") (handle_lines unmarshal_event unmarshal_body lines new_stream_state)
    ≡ elim (or_else (last_completed evs) (first_other evs)) [
      | none ↦ no_usage_block
      | some u ↦ used (last_model [] evs) u (if_named (last_id [] evs) (codes "h"))
    ]
completed_wins_example = completed_wins unmarshal_event unmarshal_body lines (codes "h")

abbrev chunks : List Str
chunks = codes "data: ot" ∷ (codes "her" ++ 10 ∷ []) ∷ []
