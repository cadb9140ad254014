-- ===== src/Anthropic/Responses.antt =====
-- internal/proxies/anthropic/usage.go, `wrapResponseBody`: what one response is counted as.
use mathlib.Core.List.{flatten}
use demesne.Base.{
  ◌≡◌, Option, List, [], ◌∷◌, ◌++◌, if◌then◌else◌, Str, codes, has_prefix, is_empty, arith,
}
use demesne.Sse.Chunks.{body_lines, handled_lines}
use demesne.Sse.Bodies.{closed_body}
use demesne.Anthropic.{
  SseEvent, Body, flush, handle_lines, on_json_body, wrap_response_body, new_sse_state,
}

module _ (unmarshal_event : Str → Option SseEvent) (unmarshal_body : Str → Option Body) where
  -- However a response is cut into reads, closing it once records it once, except a JSON body
  -- without a byte, which is not recorded; what is recorded is that of the whole body, of its lines
  -- where the content type makes it a stream and of the one document otherwise.
  pub anthropic_response_once :
      (content_type rid : Str) (chunks : List Str) (last : Str)
      → wrap_response_body unmarshal_event unmarshal_body content_type rid chunks last ≡ (
          if has_prefix content_type (codes "text/event-stream")
          then (flush rid (
                handle_lines unmarshal_event unmarshal_body
                  (body_lines (flatten chunks ++ last))
                  new_sse_state)
              ∷ [])
          else (if is_empty (flatten chunks ++ last)
              then []
              else on_json_body unmarshal_event unmarshal_body rid (flatten chunks ++ last) ∷ []))
  unfolding wrap_response_body
  anthropic_response_once content_type rid chunks last =
      ground (arith, handled_lines chunks last, closed_body chunks last)
