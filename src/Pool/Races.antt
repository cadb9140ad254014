-- ===== src/Pool/Races.antt =====
-- internal/mcpproxy/clients.go: an acquisition against the timer of the use before it, and an
-- eviction of an idle client.
use demesne.Base.{
  ℕ, suc, ◌+◌, ◌<◌, ◌%◌, ◌^◌, ◌≡◌, refl, sym, ◌∙◌, ap, subst, inl, inr, Bool, true, false,
  Bool-cases, none, some, Option-cases, ◌∷◌, ◌==◌, Str, Map, lookup, delete, lookup-insert_self,
  lookup-delete, same_refl, str_Eq, is_some, ok, arith,
}
use demesne.Pool.{
  UpstreamClient, Pool, timer_of, bumped, reset_idle_timer, fresh_client, acquire, evict, Reachable,
  after, acquiring,
}
use demesne.Pool.Live.{Open, Pending, clients_live}

acquire-known :
    (go : Bool) (name : Str) (uc : UpstreamClient) (p : Pool)
    → is_some (lookup name p.specs) ≡ true
    → lookup name p.clients ≡ some uc
    → acquire go name p ≡ (reset_idle_timer name uc p, ok uc.conn)
unfolding acquire
acquire-known go name uc p a e = cc (a, e)

survives :
    (name : Str) (uc : UpstreamClient) (p : Pool)
    → uc.generation < 2 ^ 64
    → let q = reset_idle_timer name uc p in
      ((evict (timer_of name uc) q).clients ≡ q.clients)
      × ((evict (timer_of name uc) q).closed ≡ q.closed)
unfolding evict
survives name uc p w =
    let there = lookup-insert_self name (bumped uc) p.clients in
    let moved : ((uc.generation + 1) % 2 ^ 64 == uc.generation) ≡ false = ground (arith, w) in
    (cc (there, moved), cc (there, moved))

-- A client that is acquired while the eviction of its previous use waits for the mutex is handed
-- out, and that eviction then leaves the pool's clients and the closed ones as they are.
pub reacquired_survives :
    (go : Bool) (name : Str) (uc : UpstreamClient) (p : Pool)
    → is_some (lookup name p.specs) ≡ true
    → lookup name p.clients ≡ some uc
    → uc.generation < 2 ^ 64
    → let q = (acquire go name p).0 in
      ((acquire go name p).1 ≡ ok uc.conn)
      × ((evict (timer_of name uc) q).clients ≡ q.clients)
      × ((evict (timer_of name uc) q).closed ≡ q.closed)
reacquired_survives go name uc p a e w =
    let t = timer_of name uc in
    let (clients, closed) = survives name uc p w in
    subst
      (λ r.
        (r.1 ≡ ok uc.conn)
        × ((evict t r.0).clients ≡ r.0.clients)
        × ((evict t r.0).closed ≡ r.0.closed))
      (sym (acquire-known go name uc p a e)) (refl, clients, closed)

-- The eviction of a client's last use closes that client and takes it out of the pool.
pub idle_evicted :
    (name : Str) (uc : UpstreamClient) (p : Pool)
    → lookup name p.clients ≡ some uc
    → let q = evict (timer_of name uc) p in
      (lookup name q.clients ≡ none) × (q.closed ≡ uc.conn ∷ p.closed)
unfolding evict
idle_evicted name uc p e =
    let same : (uc.generation == uc.generation) ≡ true = ground arith in
    let gone : lookup name (delete name p.clients) ≡ none =
      cc (lookup-delete name name p.clients, same_refl name) in
    (cc (e, same, gone), cc (e, same))

handed_out :
    (go : Bool) (name : Str) (p q : Pool) (c : ℕ)
    → acquire go name p ≡ (q, ok c)
    → (uc : UpstreamClient) × (lookup name q.clients ≡ some uc) × (uc.conn ≡ c)
unfolding acquire
handed_out go name p q c h = elim (Bool-cases (is_some (lookup name p.specs))) [
  | inr a ↦ absurd (ground (arith, h, a))
  | inl a ↦ elim (Option-cases (lookup name p.clients)) [
    | inr (uc, e) ↦
        let eq : q ≡ reset_idle_timer name uc p = cc (h, a, e) in
        let conn : uc.conn ≡ c = ground (arith, h, a, e) in
        let there = lookup-insert_self name (bumped uc) p.clients in
        (bumped uc, ap (λ x. lookup name x.clients) eq ∙ there, conn)
    | inl e ↦ elim (Bool-cases go) [
      | inr g ↦ absurd (ground (arith, h, a, e, g))
      | inl g ↦
          let uc = fresh_client p in
          let eq : q ≡ record (reset_idle_timer name uc p) { next_conn = suc p.next_conn } =
            cc (h, a, e, g) in
          let conn : p.next_conn ≡ c = ground (arith, h, a, e, g) in
          let there = lookup-insert_self name (bumped uc) p.clients in
          (bumped uc, ap (λ x. lookup name x.clients) eq ∙ there, conn)
    ]
  ]
]

-- What acquire hands out, in a pool that any steps led to, is in the pool under its name, not
-- closed, and can still be evicted.
pub acquired_live :
    (specs : Map Str Bool) (p q : Pool) (go : Bool) (name : Str) (c : ℕ)
    → Reachable specs p
    → acquire go name p ≡ (q, ok c)
    → (uc : UpstreamClient) × (lookup name q.clients ≡ some uc)
      × (uc.conn ≡ c)
      × Open c q
      × Pending (timer_of name uc) q
acquired_live specs p q go name c r h =
    let (uc, there, conn) = handed_out go name p q c h in
    let reached = subst (Reachable specs) (ap (λ x. x.0) h) (after r (acquiring go name)) in
    let (unclosed, pending) = clients_live specs q name uc reached there in
    (uc, there, conn, subst (λ n. Open n q) conn unclosed, pending)
