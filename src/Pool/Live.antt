-- ===== src/Pool/Live.antt =====
-- internal/mcpproxy/clients.go: a client in the pool is never closed, and never left without a timer.
use mathlib.Core.List.{Memᴰ}
use demesne.Base.{
  ℕ, suc, ◌<◌, ◌≡◌, ◌≢◌, ◌⊎◌, refl, sym, ◌∙◌, ap, subst, inl, inr, Bool, true, false, Bool-cases,
  none, some, Option-cases, List, [], ◌∷◌, ◌==◌, Str, str_eq, str_eq_iff, Map, lookup, insert,
  delete, lookup-insert, lookup-delete, str_Eq, is_some, filter_by, All, All-imp, arith,
}
use demesne.Pool.{
  UpstreamClient, Timer, Pool, same_timer, others, timer_of, bumped, reset_idle_timer, fresh_client,
  acquire, expire, evict, close_all, shutdown, Step, acquiring, expiring, evicting, stopping,
  Reachable, started, after,
}

-- A timer that can still evict.
abbrev pub Pending : Timer → Pool → Type 0
Pending t p = Memᴰ t p.armed ⊎ Memᴰ t p.waiting

abbrev pub Open : ℕ → Pool → Type 0
Open c p = All (λ d. d ≢ c) p.closed

abbrev Good : Str → UpstreamClient → Pool → Type 0
Good s uc p = (uc.conn < p.next_conn) × Open uc.conn p × Pending (timer_of s uc) p

abbrev Apart : Map Str UpstreamClient → Type 0
Apart m =
    (r s : Str) (a b : UpstreamClient)
    → lookup r m ≡ some a
    → lookup s m ≡ some b
    → a.conn ≡ b.conn
    → r ≡ s

Live : Pool → Type 0
Live p =
    ((s : Str) (uc : UpstreamClient) → lookup s p.clients ≡ some uc → Good s uc p)
    × Apart p.clients
    × All (λ c. c < p.next_conn) p.closed
    × All (λ e. e.1.conn < p.next_conn) p.clients

insert-cases :
    (k s : Str) (v w : UpstreamClient) (m : Map Str UpstreamClient)
    → lookup s (insert k v m) ≡ some w
    → ((k ≡ s) × (v ≡ w)) ⊎ ((str_eq k s ≡ false) × (lookup s m ≡ some w))
insert-cases k s v w m h = elim (Bool-cases (str_eq k s)) [
  | inl e ↦ inl ((str_eq_iff k s).0 e, cc (lookup-insert k s v m, h, e))
  | inr e ↦ inr (e, cc (lookup-insert k s v m, h, e))
]

delete-cases :
    (k s : Str) (w : UpstreamClient) (m : Map Str UpstreamClient)
    → lookup s (delete k m) ≡ some w
    → (str_eq k s ≡ false) × (lookup s m ≡ some w)
delete-cases k s w m h = elim (Bool-cases (str_eq k s)) [
  | inl e ↦ absurd (ground (arith, lookup-delete k s m, h, e))
  | inr e ↦ (e, cc (lookup-delete k s m, h, e))
]

module _ (P : Str × UpstreamClient → Type 0) where
  All-insert :
      (k : Str) (v : UpstreamClient) (m : Map Str UpstreamClient)
      → P (k, v)
      → All P m
      → All P (insert k v m)
  unfolding insert
  All-insert k v [] h all = (h, tt)
  All-insert k v ((j, w) ∷ m) h all = elim (Bool-cases (str_eq j k)) [
    | inl e ↦ rw e (h, all.1)
    | inr e ↦ rw e (all.0, All-insert k v m h all.1)
  ]

  All-delete : (k : Str) (m : Map Str UpstreamClient) → All P m → All P (delete k m)
  unfolding delete
  All-delete k [] all = tt
  All-delete k ((j, w) ∷ m) all = elim (Bool-cases (str_eq j k)) [
    | inl e ↦ rw e (All-delete k m all.1)
    | inr e ↦ rw e (all.0, All-delete k m all.1)
  ]

others-keep :
    (t u : Timer) (ts : List Timer) → same_timer t u ≡ false → Memᴰ u ts → Memᴰ u (others t ts)
unfolding filter_by
others-keep t u [] e m = elim m [ ]
others-keep t u (v ∷ ts) e (Memᴰ.head h) =
    let e' : same_timer t v ≡ false = ap (same_timer t) (sym h) ∙ e in rw e' (Memᴰ.head h)
others-keep t u (v ∷ ts) e (Memᴰ.tail m) = elim (Bool-cases (same_timer t v)) [
  | inl s ↦ rw s (others-keep t u ts e m)
  | inr s ↦ rw s (Memᴰ.tail (others-keep t u ts e m))
]

same_timer-eq : (t u : Timer) → same_timer t u ≡ true → t ≡ u
same_timer-eq t u h =
    let a : t.server ≡ u.server = (str_eq_iff t.server u.server).0 (ground (arith, h)) in
    let b : t.captured ≡ u.captured = ground (arith, h) in
    let c : t.set_for ≡ u.set_for = ground (arith, h) in cc (a, b, c)

expire-Pending : (t u : Timer) (p : Pool) → Pending u p → Pending u (expire t p)
unfolding expire
expire-Pending t u p (inl m) = elim (Bool-cases (same_timer t u)) [
  | inl e ↦ inr (Memᴰ.head (sym (same_timer-eq t u e)))
  | inr e ↦ inl (others-keep t u p.armed e m)
]
expire-Pending t u p (inr m) = inr (Memᴰ.tail m)

close_all-Memᴰ :
    (n : ℕ) (m : Map Str UpstreamClient) (closed : List ℕ)
    → All (λ e. e.1.conn < n) m
    → All (λ c. c < n) closed
    → All (λ c. c < n) (close_all m closed)
close_all-Memᴰ n [] closed h k = k
close_all-Memᴰ n ((s, uc) ∷ m) closed h k = close_all-Memᴰ n m (uc.conn ∷ closed) h.1 (h.0, k)

-- A client after the bump stands for the one before it.
origin :
    (name s : Str) (uc w : UpstreamClient) (m : Map Str UpstreamClient)
    → lookup name m ≡ some uc
    → lookup s (insert name (bumped uc) m) ≡ some w
    → (v : UpstreamClient) × (lookup s m ≡ some v) × (v.conn ≡ w.conn)
origin name s uc w m e h = elim (insert-cases name s (bumped uc) w m h) [
  | inl (k, v) ↦ (uc, subst (λ x. lookup x m ≡ some uc) k e, ap (λ x. x.conn) v)
  | inr (k, h') ↦ (w, h', refl)
]

reset-Live :
    (name : Str) (uc : UpstreamClient) (p : Pool)
    → lookup name p.clients ≡ some uc
    → Live p
    → Live (reset_idle_timer name uc p)
unfolding Live
reset-Live name uc p e (good, apart, low, entries) =
    let q = reset_idle_timer name uc p in
    (
      (λ s w h. elim (insert-cases name s (bumped uc) w p.clients h) [
        | inl (k, v) ↦
            let (a, b, c) = good name uc e in
            subst (λ x. Good s x q) v
              (subst (λ r. Good r (bumped uc) q) k (a, b, inl (Memᴰ.head refl)))
        | inr (k, h') ↦
            let (a, b, c) = good s w h' in
            (
              a,
              b,
              elim c [
                | inl m ↦ inl (
                    Memᴰ.tail
                      (others-keep (timer_of name uc) (timer_of s w) p.armed (ground (arith, k)) m))
                | inr m ↦ inr m
              ],
            )
      ]),
      (λ r s a b ha hb c.
          let (v, hv, cv) = origin name r uc a p.clients e ha in
          let (w, hw, cw) = origin name s uc b p.clients e hb in
          apart r s v w hv hw (cv ∙ c ∙ sym cw)),
      low,
      All-insert (λ e. e.1.conn < p.next_conn) name (bumped uc) p.clients (good name uc e).0
          entries,
    )

-- The call of evict is over, with no effect.
abbrev consumed : Timer → Pool → Pool
consumed t p = record p { waiting = others t p.waiting }

consumed-Live :
    (t : Timer) (p : Pool)
    → ((s : Str) (uc : UpstreamClient)
        → lookup s p.clients ≡ some uc
        → same_timer t (timer_of s uc) ≡ false)
    → Live p
    → Live (consumed t p)
unfolding Live
consumed-Live t p other (good, apart, low, entries) = (
  (λ s w h.
      let (a, b, c) = good s w h in
      (
        a,
        b,
        elim c [
          | inl m ↦ inl m
          | inr m ↦ inr (others-keep t (timer_of s w) p.waiting (other s w h) m)
        ],
      )),
  apart,
  low,
  entries,
)

abbrev evicted : Timer → UpstreamClient → Pool → Pool
evicted t uc p = record (consumed t p) {
  clients = delete t.server p.clients;
  closed = uc.conn ∷ p.closed;
}

evicted-Live :
    (t : Timer) (uc : UpstreamClient) (p : Pool)
    → lookup t.server p.clients ≡ some uc
    → Live p
    → Live (evicted t uc p)
unfolding Live
evicted-Live t uc p e (good, apart, low, entries) = (
  (λ s w h.
      let (k, h') = delete-cases t.server s w p.clients h in
      let (a, b, c) = good s w h' in
      (
        a,
        (
          (λ same.
              absurd (ground (arith, k, str_eq_iff t.server s, apart t.server s uc w e h' same))),
          b,
        ),
        elim c [
          | inl m ↦ inl m
          | inr m ↦ inr (others-keep t (timer_of s w) p.waiting (ground (arith, k)) m)
        ],
      )),
  (λ r s a b ha hb c.
      apart r s a b (delete-cases t.server r a p.clients ha).1
        (delete-cases t.server s b p.clients hb).1 c),
  ((good t.server uc e).0, low),
  All-delete (λ e. e.1.conn < p.next_conn) t.server p.clients entries,
)

absent :
    (t : Timer) (s : Str) (uc : UpstreamClient) (m : Map Str UpstreamClient)
    → lookup t.server m ≡ none
    → lookup s m ≡ some uc
    → same_timer t (timer_of s uc) ≡ false
absent t s uc m e h = elim (Bool-cases (str_eq t.server s)) [
  | inl k ↦
      let e' : lookup s m ≡ none = ap (λ x. lookup x m) (sym ((str_eq_iff t.server s).0 k)) ∙ e in
      absurd (ground (arith, h, e'))
  | inr k ↦ rw k refl
]

older :
    (t : Timer) (s : Str) (uc w : UpstreamClient) (m : Map Str UpstreamClient)
    → lookup t.server m ≡ some uc
    → (uc.generation == t.captured) ≡ false
    → lookup s m ≡ some w
    → same_timer t (timer_of s w) ≡ false
older t s uc w m e g h = elim (Bool-cases (str_eq t.server s)) [
  | inl k ↦
      let e' : lookup s m ≡ some uc =
        ap (λ x. lookup x m) (sym ((str_eq_iff t.server s).0 k)) ∙ e in
      let same : uc ≡ w = cc (e', h) in
      let g' : (w.generation == t.captured) ≡ false = cc (g, same) in ground (arith, k, g')
  | inr k ↦ rw k refl
]

evict-Live : (t : Timer) (p : Pool) → Live p → Live (evict t p)
unfolding evict
evict-Live t p live = elim (Option-cases (lookup t.server p.clients)) [
  | inl e ↦
      let eq : evict t p ≡ consumed t p = cc e in
      subst Live (sym eq) (consumed-Live t p (λ s uc h. absent t s uc p.clients e h) live)
  | inr (uc, e) ↦ elim (Bool-cases (uc.generation == t.captured)) [
    | inl g ↦
        let eq : evict t p ≡ evicted t uc p = cc (e, g) in
        subst Live (sym eq) (evicted-Live t uc p e live)
    | inr g ↦
        let eq : evict t p ≡ consumed t p = cc (e, g) in
        subst Live (sym eq) (consumed-Live t p (λ s w h. older t s uc w p.clients e g h) live)
  ]
]

spawn-Live :
    (name : Str) (p : Pool)
    → lookup name p.clients ≡ none
    → Live p
    → Live (record (reset_idle_timer name (fresh_client p) p) { next_conn = suc p.next_conn })
unfolding Live
spawn-Live name p e (good, apart, low, entries) =
    let uc = fresh_client p in
    let q : Pool = record (reset_idle_timer name uc p) { next_conn = suc p.next_conn } in
    (
      (λ s w h. elim (insert-cases name s (bumped uc) w p.clients h) [
        | inl (k, v) ↦
            subst (λ x. Good s x q) v
              (subst (λ r. Good r (bumped uc) q) k
                (
                  omega arith,
                  All-imp (λ c l same. absurd (omega (arith, l, same))) p.closed low,
                  inl (Memᴰ.head refl),
                ))
        | inr (k, h') ↦
            let (a, b, c) = good s w h' in
            (
              omega (arith, a),
              b,
              elim c [
                | inl m ↦ inl (
                    Memᴰ.tail
                      (others-keep (timer_of name uc) (timer_of s w) p.armed (ground (arith, k)) m))
                | inr m ↦ inr m
              ],
            )
      ]),
      (λ r s a b ha hb c. elim (insert-cases name r (bumped uc) a p.clients ha) [
        | inl (kr, va) ↦ elim (insert-cases name s (bumped uc) b p.clients hb) [
          | inl (ks, vb) ↦ sym kr ∙ ks
          | inr (ks, h') ↦
              let n : p.next_conn ≡ a.conn = ap (λ x. x.conn) va in
              absurd (omega (arith, (good s b h').0, n, c))
        ]
        | inr (kr, h') ↦ elim (insert-cases name s (bumped uc) b p.clients hb) [
          | inl (ks, vb) ↦
              let n : p.next_conn ≡ b.conn = ap (λ x. x.conn) vb in
              absurd (omega (arith, (good r a h').0, n, c))
          | inr (ks, h'') ↦ apart r s a b h' h'' c
        ]
      ]),
      All-imp (λ c l. omega (arith, l)) p.closed low,
      All-insert (λ e. e.1.conn < suc p.next_conn) name (bumped uc) p.clients (omega arith)
          (All-imp (λ c l. omega (arith, l)) p.clients entries),
    )

acquire-Live : (go : Bool) (name : Str) (p : Pool) → Live p → Live (acquire go name p).0
unfolding acquire
acquire-Live go name p live = elim (Bool-cases (is_some (lookup name p.specs))) [
  | inr a ↦ let eq : (acquire go name p).0 ≡ p = cc a in subst Live (sym eq) live
  | inl a ↦ elim (Option-cases (lookup name p.clients)) [
    | inr (uc, e) ↦
        let eq : (acquire go name p).0 ≡ reset_idle_timer name uc p = cc (a, e) in
        subst Live (sym eq) (reset-Live name uc p e live)
    | inl e ↦ elim (Bool-cases go) [
      | inl g ↦
          let eq : (acquire go name p).0
              ≡ record (reset_idle_timer name (fresh_client p) p) { next_conn = suc p.next_conn } =
            cc (a, e, g) in
          subst Live (sym eq) (spawn-Live name p e live)
      | inr g ↦ let eq : (acquire go name p).0 ≡ p = cc (a, e, g) in subst Live (sym eq) live
    ]
  ]
]

expire-Live : (t : Timer) (p : Pool) → Live p → Live (expire t p)
unfolding Live expire
expire-Live t p (good, apart, low, entries) = (
  (λ s w h. let (a, b, c) = good s w h in (a, b, expire-Pending t (timer_of s w) p c)),
  apart,
  low,
  entries,
)

shutdown-Live : (p : Pool) → Live p → Live (shutdown p)
unfolding Live shutdown lookup
shutdown-Live p (good, apart, low, entries) = (
  (λ s w h. absurd (ground (arith, h))),
  (λ r s a b h k c. absurd (ground (arith, h))),
  close_all-Memᴰ p.next_conn p.clients p.closed entries low,
  tt,
)

Step-Live : (p q : Pool) → Step p q → Live p → Live q
Step-Live p q (acquiring go name) live = acquire-Live go name p live
Step-Live p q (expiring t m) live = expire-Live t p live
Step-Live p q (evicting t m) live = evict-Live t p live
Step-Live p q stopping live = shutdown-Live p live

Reachable-Live : (specs : Map Str Bool) (p : Pool) → Reachable specs p → Live p
unfolding Live lookup
Reachable-Live specs p started =
    ((λ s w h. absurd (ground (arith, h))), (λ r s a b h k c. absurd (ground (arith, h))), tt, tt)
Reachable-Live specs q (after {p} r s) = Step-Live p q s (Reachable-Live specs p r)

-- After any calls, expiries and evictions, a client in the pool is not closed, and the timer that
-- was set at its last use can still evict it.
pub clients_live :
    (specs : Map Str Bool) (p : Pool) (name : Str) (uc : UpstreamClient)
    → Reachable specs p
    → lookup name p.clients ≡ some uc
    → Open uc.conn p × Pending (timer_of name uc) p
unfolding Live
clients_live specs p name uc r h =
    let (good, apart, low, entries) = Reachable-Live specs p r in
    let (a, b, c) = good name uc h in (b, c)
