-- ===== src/Pool/Tests.antt =====
-- The pool on concrete steps.
use mathlib.Core.List.{Memᴰ}
use demesne.Base.{
  ◌≡◌, refl, Bool, true, none, [], ◌∷◌, Str, codes, str_eq, str_Eq, Map, lookup, insert, delete,
  filter_by, err, ok, arith,
}
use demesne.Pool.{
  UpstreamClient, Pool, new_pool, timer_of, acquire, expire, evict, shutdown, not_registered,
  Reachable, started, after, acquiring, expiring,
}
use demesne.Pool.Live.{Open, Pending, clients_live}
use demesne.Pool.Races.{reacquired_survives, idle_evicted}

abbrev known : Map Str Bool
known = (codes "s", true) ∷ []

abbrev first : UpstreamClient
first = record { conn = 0; generation = 1 }

-- The state after the first use, and after its timer has expired.
abbrev used : Pool
used = record (new_pool known) {
  clients = (codes "s", first) ∷ [];
  armed = timer_of (codes "s") first ∷ [];
  next_conn = 1;
}

abbrev expired : Pool
expired = record used { armed = []; waiting = timer_of (codes "s") first ∷ [] }

use_lem : acquire true (codes "s") (new_pool known) ≡ (used, ok 0)
unfolding acquire lookup insert str_eq filter_by
use_lem = refl

expire_lem : expire (timer_of (codes "s") first) used ≡ expired
unfolding expire str_eq filter_by
expire_lem = refl

reached : Reachable known used
unfolding acquire lookup insert str_eq filter_by
reached = after started (acquiring true (codes "s"))

reached_expired : Reachable known expired
unfolding expire str_eq filter_by
reached_expired = after reached (expiring (timer_of (codes "s") first) (Memᴰ.head refl))

clients_live_example : Open 0 expired × Pending (timer_of (codes "s") first) expired
unfolding lookup str_eq
clients_live_example = clients_live known expired (codes "s") first reached_expired refl

reacquired_survives_example :
    let q = (acquire true (codes "s") expired).0 in
    ((acquire true (codes "s") expired).1 ≡ ok 0)
    × ((evict (timer_of (codes "s") first) q).clients ≡ q.clients)
    × ((evict (timer_of (codes "s") first) q).closed ≡ q.closed)
unfolding lookup str_eq
reacquired_survives_example =
    reacquired_survives true (codes "s") first expired refl refl (omega arith)

idle_evicted_example :
    let q = evict (timer_of (codes "s") first) expired in
    (lookup (codes "s") q.clients ≡ none) × (q.closed ≡ 0 ∷ [])
unfolding lookup str_eq
idle_evicted_example = idle_evicted (codes "s") first expired refl

-- After Shutdown a new client begins at generation 1 again, and the eviction that still waits closes it.
stale :
    (evict (timer_of (codes "s") first) (acquire true (codes "s") (shutdown expired)).0).closed
    ≡ 1 ∷ 0 ∷ []
unfolding evict acquire shutdown lookup insert delete str_eq filter_by
stale = refl

unknown : (acquire true (codes "t") used).1 ≡ err (not_registered (codes "t"))
unfolding acquire lookup str_eq
unknown = refl
