-- ===== src/Pool.antt =====
-- internal/mcpproxy/clients.go: the pool of upstream clients, started on first use and closed when idle.
pub mod Live
pub mod Races
mod Tests
use mathlib.Core.List.{Memᴰ}
use demesne.Base.{
  ℕ, suc, ◌+◌, ◌%◌, ◌^◌, ◌≡◌, Bool, true, false, not, ◌&&◌, Option, none, some, List, [], ◌∷◌, ◌++◌,
  map, if◌then◌else◌, ◌==◌, Str, str_eq, Map, lookup, insert, delete, str_Eq, is_some, filter_by,
  Result, err, ok,
}

-- `conn` tells the clients apart that were started; `generation` is a uint64.
pub record UpstreamClient : Type 0 where
  pub conn : ℕ
  pub generation : ℕ

-- A timer of `resetIdleTimerLocked`: what its function captured, and the client that it was set for.
pub record Timer : Type 0 where
  pub server : Str
  pub captured : ℕ
  pub set_for : ℕ

-- `specs` are the names of the known upstreams. A timer is armed until it is stopped or expires; once it
-- has expired its call of evict waits for the mutex. `closed` are the clients that were closed, the last
-- one first.
pub record Pool : Type 0 where
  pub specs : Map Str Bool
  pub clients : Map Str UpstreamClient
  pub armed : List Timer
  pub waiting : List Timer
  pub closed : List ℕ
  pub next_conn : ℕ

pub data PoolError : Type 0 where
  not_registered : Str → PoolError
  not_started : Str → PoolError

abbrev pub same_timer : Timer → Timer → Bool
same_timer t u = str_eq t.server u.server && (t.captured == u.captured && t.set_for == u.set_for)

abbrev pub others : Timer → List Timer → List Timer
others t ts = filter_by (λ u. not (same_timer t u)) ts

abbrev pub new_pool : Map Str Bool → Pool
new_pool specs = record {
  specs = specs;
  clients = [];
  armed = [];
  waiting = [];
  closed = [];
  next_conn = 0;
}

abbrev pub timer_of : Str → UpstreamClient → Timer
timer_of name uc = record { server = name; captured = uc.generation; set_for = uc.conn }

abbrev pub bumped : UpstreamClient → UpstreamClient
bumped uc = record uc { generation = (uc.generation + 1) % 2 ^ 64 }

-- `stopped` is whether there is a timer to stop.
abbrev pub reset_idle_timer : Str → UpstreamClient → Pool → Pool
reset_idle_timer name uc p = record p {
  clients = insert name (bumped uc) p.clients;
  armed = timer_of name (bumped uc) ∷ others (timer_of name uc) p.armed;
}

-- The client of a new subprocess. It has no timer yet: none is set for its number.
abbrev pub fresh_client : Pool → UpstreamClient
fresh_client p = record { conn = p.next_conn; generation = 0 }

-- `started` is whether spawnClient goes through.
pub acquire : Bool → Str → Pool → Pool × Result PoolError ℕ
acquire started name p =
    if is_some (lookup name p.specs)
    then elim (lookup name p.clients) [
      | some uc ↦ (reset_idle_timer name uc p, ok uc.conn)
      | none ↦
          if started
          then (
            record (reset_idle_timer name (fresh_client p) p) { next_conn = suc p.next_conn },
            ok p.next_conn,
          )
          else (p, err (not_started name))
    ]
    else (p, err (not_registered name))

-- A timer expires: its function begins and waits for the mutex.
pub expire : Timer → Pool → Pool
expire t p = record p { armed = others t p.armed; waiting = t ∷ p.waiting }

-- The call of evict that was waiting.
pub evict : Timer → Pool → Pool
evict t p =
    let q : Pool = record p { waiting = others t p.waiting } in
    elim (lookup t.server p.clients) [
      | none ↦ q
      | some uc ↦
          if uc.generation == t.captured
          then record q { clients = delete t.server q.clients; closed = uc.conn ∷ q.closed }
          else q
    ]

abbrev pub close_all : Map Str UpstreamClient → List ℕ → List ℕ
close_all [] closed = closed
close_all ((name, uc) ∷ rest) closed = close_all rest (uc.conn ∷ closed)

abbrev pub stop_all : Map Str UpstreamClient → List Timer → List Timer
stop_all [] armed = armed
stop_all ((name, uc) ∷ rest) armed = stop_all rest (others (timer_of name uc) armed)

pub shutdown : Pool → Pool
shutdown p = record p {
  clients = [];
  armed = stop_all p.clients p.armed;
  closed = close_all p.clients p.closed;
}

-- What can happen next, each under the mutex: a call, an expiry, an eviction that was waiting, or
-- Shutdown.
pub data Step (p : Pool) : Pool → Type 0 where
  acquiring : (started : Bool) (name : Str) → Step p (acquire started name p).0
  expiring : (t : Timer) → Memᴰ t p.armed → Step p (expire t p)
  evicting : (t : Timer) → Memᴰ t p.waiting → Step p (evict t p)
  stopping : Step p (shutdown p)

pub data Reachable (specs : Map Str Bool) : Pool → Type 0 where
  started : Reachable specs (new_pool specs)
  after : {p q : Pool} → Reachable specs p → Step p q → Reachable specs q
