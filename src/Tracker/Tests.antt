-- ===== src/Tracker/Tests.antt =====
-- The tracker on concrete requests of a vendor whose usage is one number.
use demesne.Base.{
  ℕ, ◌+◌, ◌*◌, ◌≡◌, true, List, [], ◌∷◌, Str, codes, str_eq_iff, Map, lookup, str_Eq, arith,
}
use demesne.Tracker.{UsageLine, Vendor, Outcome, Tracker, Event, used, parse_error, new_tracker}

abbrev counter : Vendor ℕ ℕ ℕ
counter = record {
  none_used = 0;
  combine = ◌+◌;
  cost = λ m n. 2 * n;
  report = λ m n. n;
  tokens = λ n. record { input = n; output = 0; cache_creation = 0; cache_read = 0 };
  no_cost = 0;
  add_cost = ◌+◌;
}

abbrev marshal : UsageLine → Str
marshal l = l.model

abbrev io : Outcome
io = record { replaced = true; appended = true; now = [] }

abbrev tracker : Map Str ℕ → Tracker ℕ ℕ ℕ
tracker totals = record (new_tracker counter marshal (codes "u")) { per_model = totals }

abbrev ab : Map Str ℕ
ab = (codes "a", 1) ∷ (codes "b", 2) ∷ []

abbrev ba : Map Str ℕ
ba = (codes "b", 2) ∷ (codes "a", 1) ∷ []

same_entries : (k : Str) → lookup k ab ≡ lookup k ba
unfolding lookup
same_entries k = ground (arith, str_eq_iff (codes "a") k, str_eq_iff (codes "b") k)

abbrev es : List (Outcome × Event ℕ)
es = (io, used (codes "a") 5 []) ∷ (io, parse_error) ∷ (io, used [] 7 []) ∷ []
