-- ===== src/Sse.antt =====
-- internal/proxies/proxycommon/usage.go, `ScanSSELines`, and the interceptor of interceptor.go that
-- feeds it.
pub mod Chunks
pub mod Bodies
mod Tests
use demesne.Base.{
  ℕ, zero, suc, ◌+◌, Bool, true, false, ◌||◌, not, Option, none, some, List, [], ◌∷◌, ◌++◌, length,
  take, drop, ◌==◌, if◌then◌else◌, Str, index_byte, trim_right, is_empty,
}

-- The cut set of `strings.TrimRight(s, "\r\n")`.
abbrev pub is_line_end : ℕ → Bool
is_line_end c = c == 13 || c == 10

-- The lines handed to `handle`, in order, and what stays buffered. One unit of fuel is one round of
-- the loop.
pub scan_sse_lines : ℕ → Str → Bool → List Str × Str
scan_sse_lines zero buf eof = ([], buf)
scan_sse_lines (suc f) buf eof = elim (index_byte 10 buf) [
  | none ↦ if not eof then ([], buf) else if is_empty buf then ([], []) else (buf ∷ [], [])
  | some i ↦
      let (lines, left) = scan_sse_lines f (drop (suc i) buf) eof in
      (trim_right is_line_end (take (suc i) buf) ∷ lines, left)
]

-- `handled` holds the lines given to `onLine` so far, `closes` counts the calls of `onClose`.
pub record SseInterceptor : Type 0 where
  pub buf : Str
  pub flushed : Bool
  pub handled : List Str
  pub closes : ℕ

abbrev pub new_sse_interceptor : SseInterceptor
new_sse_interceptor = record { buf = []; flushed = false; handled = []; closes = 0 }

-- Each round but the last takes at least one byte off the buffer.
scan : Bool → SseInterceptor → SseInterceptor
scan eof s =
    let (lines, left) = scan_sse_lines (suc (length s.buf)) s.buf eof in
    record s { buf = left; handled = s.handled ++ lines }

-- One `Read` that got these bytes from upstream, with io.EOF or without.
pub read : Str → Bool → SseInterceptor → SseInterceptor
read p eof s =
    let t = if is_empty p then s else scan false (record s { buf = s.buf ++ p }) in
    if eof then scan true t else t

pub read_all : List Str → SseInterceptor → SseInterceptor
read_all [] s = s
read_all (p ∷ ps) s = read_all ps (read p false s)

pub close : SseInterceptor → SseInterceptor
close s = if not s.flushed then record s { flushed = true; closes = suc s.closes } else s

-- The interceptor of a JSON body: `calls` holds the bodies that `onClose` was given.
pub record JsonInterceptor : Type 0 where
  pub tee : Str
  pub calls : List Str

abbrev pub new_json_interceptor : JsonInterceptor
new_json_interceptor = record { tee = []; calls = [] }

pub read_json : Str → JsonInterceptor → JsonInterceptor
read_json p j = if is_empty p then j else record j { tee = j.tee ++ p }

pub read_all_json : List Str → JsonInterceptor → JsonInterceptor
read_all_json [] j = j
read_all_json (p ∷ ps) j = read_all_json ps (read_json p j)

pub close_json : JsonInterceptor → JsonInterceptor
close_json j = if is_empty j.tee then j else record j { calls = j.calls ++ j.tee ∷ [] }
