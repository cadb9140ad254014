-- ===== src/Sse/Tests.antt =====
-- The interceptor on a body cut in the middle of a line and of a line end.
use mathlib.Core.List.{flatten}
use demesne.Base.{◌≡◌, refl, true, List, [], ◌∷◌, ◌++◌, Str, codes, index_byte, trim_right}
use demesne.Sse.{new_sse_interceptor, scan_sse_lines, scan, read, read_all, close}
use demesne.Sse.Chunks.{chunk_independence, split_lines, last_line}

abbrev two_reads : List Str
two_reads = (codes "data: a" ++ 13 ∷ []) ∷ (10 ∷ codes "data: b") ∷ []

two_lines :
    (read (codes "!") true (read_all two_reads new_sse_interceptor)).handled
    ≡ codes "data: a" ∷ codes "data: b!" ∷ []
unfolding read read_all scan scan_sse_lines index_byte trim_right
two_lines = refl

chunk_independence_example :
    let s = read (codes "!") true (read_all two_reads new_sse_interceptor) in
    let lines = split_lines [] (codes "data: a" ++ 13 ∷ 10 ∷ codes "data: b!") in
    (s.handled ≡ lines.0 ++ last_line true lines.1)
    × (s.buf ≡ [])
    × ((close s).closes ≡ 1)
    × (close (close s) ≡ close s)
unfolding flatten
chunk_independence_example = chunk_independence two_reads (codes "!")
