-- ===== src/Sse/Bodies.antt =====
-- internal/proxies/proxycommon/interceptor.go, `JSONInterceptor`: the body that is handed over.
use mathlib.Core.List.{flatten}
use demesne.Base.{
  ℕ, zero, suc, ◌≡◌, refl, sym, ◌∙◌, ap, List, [], ◌∷◌, ◌++◌, if◌then◌else◌, Str, is_empty,
  append_assoc, append-nil, arith,
}
use demesne.Sse.{JsonInterceptor, new_json_interceptor, read_json, read_all_json, close_json}

read_all_json_lem :
    (ps : List Str) (j : JsonInterceptor)
    → (read_all_json ps j).tee ≡ j.tee ++ flatten ps × ((read_all_json ps j).calls ≡ j.calls)
unfolding read_all_json read_json flatten
read_all_json_lem [] j = (sym (append-nil j.tee), refl)
read_all_json_lem ([] ∷ ps) j = read_all_json_lem ps j
read_all_json_lem ((c ∷ p) ∷ ps) j =
    let ih = read_all_json_lem ps (record j { tee = j.tee ++ c ∷ p }) in
    (ih.0 ∙ append_assoc j.tee (c ∷ p) (flatten ps), ih.1)

abbrev pub closed_json : ℕ → JsonInterceptor → JsonInterceptor
closed_json zero j = j
closed_json (suc n) j = closed_json n (close_json j)

abbrev pub copies : ℕ → Str → List Str
copies zero s = []
copies (suc n) s = s ∷ copies n s

closed_json_lem :
    (n : ℕ) (j : JsonInterceptor) (c : ℕ) (s : Str)
    → j.tee ≡ c ∷ s
    → (closed_json n j).calls ≡ j.calls ++ copies n (c ∷ s)
unfolding close_json
closed_json_lem zero j c s h = sym (append-nil j.calls)
closed_json_lem (suc n) j c s h =
    ap (λ k. (closed_json n k).calls) (rw (h, close_json) refl)
    ∙ closed_json_lem n (record j { calls = j.calls ++ (c ∷ s) ∷ [] }) c s h
    ∙ append_assoc j.calls ((c ∷ s) ∷ []) (copies n (c ∷ s))

-- However a JSON body with at least one byte is cut into reads, each of the calls of Close, not only
-- the first, hands the whole body to the final handler.
pub json_close_counts :
    (ps : List Str) (c : ℕ) (s : Str) (n : ℕ)
    → flatten ps ≡ c ∷ s
    → (closed_json n (read_all_json ps new_json_interceptor)).calls ≡ copies n (flatten ps)
json_close_counts ps c s n h =
    let (tee, calls) = read_all_json_lem ps new_json_interceptor in
    closed_json_lem n (read_all_json ps new_json_interceptor) c s (tee ∙ h) ∙ cc (calls, h)

pub closed_body :
    (ps : List Str) (p : Str)
    → (close_json (read_json p (read_all_json ps new_json_interceptor))).calls
      ≡ (if is_empty (flatten ps ++ p) then [] else (flatten ps ++ p) ∷ [])
unfolding read_json close_json
closed_body ps [] =
    let (tee, calls) = read_all_json_lem ps new_json_interceptor in
    ground (arith, tee, calls, append-nil (flatten ps))
closed_body ps (c ∷ p) =
    let (tee, calls) = read_all_json_lem ps new_json_interceptor in ground (arith, tee, calls)
