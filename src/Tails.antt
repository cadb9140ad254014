-- ===== src/Tails.antt =====
-- internal/sandbox/stderr.go and internal/sandbox/jobs_io.go: the ends of outputs that are surfaced.
pub mod Suffix
pub mod Messages
mod Tests
use demesne.Base.{
  ℕ, suc, ◌+◌, ◌-◌, Bool, true, false, ◌&&◌, Option, none, some, List, [], ◌∷◌, ◌++◌, length, drop,
  if◌then◌else◌, ◌==◌, ltb, leb, Str, codes, decimal, index_byte, Result, err, ok,
}

abbrev pub stderr_result_limit : ℕ
stderr_result_limit = 16384

abbrev pub stdout_result_limit : ℕ
stdout_result_limit = 32768

pub stderr_truncation_marker : Str
stderr_truncation_marker =
    codes "[stderr truncated to last "
    ++ (decimal stderr_result_limit ++ codes " bytes; full log in output_dir/stderr.log]\n")

pub stdout_truncation_marker : Str
stdout_truncation_marker =
    codes "[stdout truncated to last "
    ++ (decimal stdout_result_limit
        ++ codes " bytes; full transcript in output_dir/transcript.jsonl]\n")

-- `b[off]&0xC0 == 0x80`, of a byte
abbrev pub is_continuation : ℕ → Bool
is_continuation c = leb 128 c && ltb c 192

abbrev pub skip_continuation : Str → Str
skip_continuation [] = []
skip_continuation (c ∷ s) = if is_continuation c then skip_continuation s else c ∷ s

abbrev pub tail_within : ℕ → Str → Str → Str
tail_within limit marker b =
    if leb (length b) limit then b else marker ++ skip_continuation (drop (length b - limit) b)

pub tail_stderr : Str → Str
tail_stderr b = tail_within stderr_result_limit stderr_truncation_marker b

pub tail_stdout : Str → Str
tail_stdout s = tail_within stdout_result_limit stdout_truncation_marker s

pub combine_messages : List Str → Str
combine_messages [] = []
combine_messages (m ∷ []) = m
combine_messages (m ∷ n ∷ ms) = m ++ 10 ∷ combine_messages (n ∷ ms)

pub wrap_stdout_stderr : Str → Str
wrap_stdout_stderr cmd = codes "( " ++ (cmd ++ codes " ) > /out/stdout.log 2> /out/stderr.log")

-- What the file system answers: no file, another error, or the size at the time of Stat and the
-- contents at the time of the read, when the file may have grown.
pub data FileView : Type 0 where
  missing : FileView
  unreadable : FileView
  view : ℕ → Str → FileView

-- The unfinished first line of a text is dropped where there is a line end.
abbrev pub drop_line : Option ℕ → Str → Str
drop_line none s = s
drop_line (some i) s = drop (suc i) s

-- `maxBytes` is not negative.
pub tail_file : FileView → ℕ → Option Str
tail_file missing max_bytes = some []
tail_file unreadable max_bytes = none
tail_file (view size contents) max_bytes =
    let start = size - max_bytes in
    let s = drop start contents in
    if size == 0
    then some []
    else if ltb 0 start
    then some (drop_line (index_byte 10 s) s)
    else some s
