-- ===== src/Tracker.antt =====
-- internal/proxies/proxycommon/tracker.go: the totals per model, the snapshot usage.json and the
-- ledger usage.jsonl.
pub mod Totals
pub mod Snapshots
mod Tests
use demesne.Base.{
  ℕ, zero, suc, ◌+◌, ◌%◌, ◌^◌, Bool, true, false, not, ◌&&◌, ◌||◌, Option, none, some, List, [],
  ◌∷◌, ◌++◌, map, if◌then◌else◌, Str, codes, Map, lookup, insert, str_Eq, is_empty, ltb,
  sort_strings,
}

-- `a + b` on int64, as words.
abbrev pub add64 : ℕ → ℕ → ℕ
add64 a b = (a + b) % 2 ^ 64

-- `w > 0` on int64, as a word.
abbrev pub is_positive : ℕ → Bool
is_positive w = ltb 0 w && ltb w (2 ^ 63)

pub record TokenBreakdown : Type 0 where
  pub input : ℕ
  pub output : ℕ
  pub cache_creation : ℕ
  pub cache_read : ℕ

pub record UsageLine : Type 0 where
  pub request_id : Str
  pub ts : Str
  pub model : Str
  pub tokens : TokenBreakdown

-- `per_model` in the order in which JSON lists a map: by key. `none` for an omitted `dropped`.
pub record Snapshot (F R : Type 0) : Type 0 where
  pub cost_usd : F
  pub per_model : List (Str × R)
  pub dropped : Option (ℕ × ℕ)

-- What a vendor passes to NewTracker, `new(TC)`, and float64 addition, of which nothing is assumed.
pub record Vendor (TC F R : Type 0) : Type 0 where
  pub none_used : TC
  pub combine : TC → TC → TC
  pub cost : Str → TC → F
  pub report : Str → TC → R
  pub tokens : TC → TokenBreakdown
  pub no_cost : F
  pub add_cost : F → F → F

-- What the world does in one operation: whether the new usage.json took the place of the old one,
-- whether the line was appended to usage.jsonl, and the time, formatted.
pub record Outcome : Type 0 where
  pub replaced : Bool
  pub appended : Bool
  pub now : Str

-- `usage_json` and `usage_jsonl` are the files' contents.
pub record Tracker (TC F R : Type 0) : Type 0 where
  pub usage_path : Str
  pub per_model : Map Str TC
  pub dropped_parse_errors : ℕ
  pub dropped_no_usage_block : ℕ
  pub usage_json : Option (Snapshot F R)
  pub usage_jsonl : Str

-- One call of Add, AddDroppedParseError or AddDroppedNoUsageBlock.
pub data Event (TC : Type 0) : Type 0 where
  used : Str → TC → Str → Event TC
  parse_error : Event TC
  no_usage_block : Event TC

abbrev pub get_or {ℓ} : {A : Type ℓ} → A → Option A → A
get_or d none = d
get_or d (some a) = a

module _ {TC F R : Type 0} (v : Vendor TC F R) (marshal : UsageLine → Str) where
  abbrev pub new_tracker : Str → Tracker TC F R
  new_tracker path = record {
    usage_path = path;
    per_model = [];
    dropped_parse_errors = 0;
    dropped_no_usage_block = 0;
    usage_json = none;
    usage_jsonl = [];
  }

  abbrev pub reports : List Str → Map Str TC → List (Str × R)
  reports [] totals = []
  reports (m ∷ ms) totals =
      (m, v.report m (get_or v.none_used (lookup m totals))) ∷ reports ms totals

  -- `costTotal` from `acc` on: the loop adds from the left.
  abbrev pub sum_costs : F → List Str → Map Str TC → F
  sum_costs acc [] totals = acc
  sum_costs acc (m ∷ ms) totals =
      sum_costs (v.add_cost acc (v.cost m (get_or v.none_used (lookup m totals)))) ms totals

  abbrev pub models : Map Str TC → List Str
  models totals = sort_strings (map (λ e. e.0) totals)

  pub snapshot : Tracker TC F R → Snapshot F R
  snapshot t = record {
    cost_usd = sum_costs v.no_cost (models t.per_model) t.per_model;
    per_model = reports (models t.per_model) t.per_model;
    dropped =
        if is_positive t.dropped_parse_errors || is_positive t.dropped_no_usage_block
        then some (t.dropped_parse_errors, t.dropped_no_usage_block)
        else none;
  }

  pub persist : Outcome → Tracker TC F R → Tracker TC F R
  persist io t =
      if is_empty t.usage_path || not io.replaced
      then t
      else record t { usage_json = some (snapshot t) }

  -- `jsonlPath` is empty just where `usagePath` is.
  pub append_request : Outcome → Str → TC → Str → Tracker TC F R → Tracker TC F R
  append_request io model tc rid t =
      if is_empty t.usage_path || not io.appended then t else record t {
        usage_jsonl =
            t.usage_jsonl
            ++ (marshal
                  (record { request_id = rid; ts = io.now; model = model; tokens = v.tokens tc })
                ++ 10 ∷ []);
      }

  abbrev pub model_name : Str → Str
  model_name [] = codes "unknown"
  model_name (c ∷ s) = c ∷ s

  abbrev pub add_to : Str → TC → Map Str TC → Map Str TC
  add_to model tc totals =
      insert model (v.combine (get_or v.none_used (lookup model totals)) tc) totals

  pub add : Outcome → Str → TC → Str → Tracker TC F R → Tracker TC F R
  add io model tc rid t =
      let name = model_name model in
      persist io
        (append_request io name tc rid (record t { per_model = add_to name tc t.per_model }))

  pub add_dropped_parse_error : Outcome → Tracker TC F R → Tracker TC F R
  add_dropped_parse_error io t =
      persist io (record t { dropped_parse_errors = add64 t.dropped_parse_errors 1 })

  pub add_dropped_no_usage_block : Outcome → Tracker TC F R → Tracker TC F R
  add_dropped_no_usage_block io t =
      persist io (record t { dropped_no_usage_block = add64 t.dropped_no_usage_block 1 })

  abbrev pub handle : Outcome → Event TC → Tracker TC F R → Tracker TC F R
  handle io (used model tc rid) t = add io model tc rid t
  handle io parse_error t = add_dropped_parse_error io t
  handle io no_usage_block t = add_dropped_no_usage_block io t

  -- The calls in the order in which they get the mutex.
  abbrev pub run : List (Outcome × Event TC) → Tracker TC F R → Tracker TC F R
  run [] t = t
  run ((io, e) ∷ es) t = run es (handle io e t)
