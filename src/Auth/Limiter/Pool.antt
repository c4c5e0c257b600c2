-- ===== src/Auth/Limiter/Pool.antt =====
-- The pool of the limiters of client addresses, against a list of entries in order of use.
use xktmcp.Prelude.Int.{ℤ}
use xktmcp.Lru.Nodes.{entries-IsMap}
use xktmcp.Prelude.{
  refl, zero, [], ◌==◌, Bool-cases, sym, ℕ, ◌≤◌, ◌≡◌, ◌≢◌, ◌∙◌, ap, inl, inr, Bool, true, none,
  some, List, ◌∷◌, arith, nat_eq, list_eq, length, take, length-take, list_beq_iff, Option-cases,
}
use xktmcp.Prelude.Text.{Text}
use xktmcp.Lru.Assoc.{lookup, IsMap}
use xktmcp.Lru.Table.{Table, entries, len, Linked, push_front}
use xktmcp.Lru.Laws.{
  find-cases, entries-assign_move, assign_move-Linked, push_front-Linked, entries-push_front,
}
use xktmcp.Lru.Evict.{entries-evict}
use xktmcp.Lru.Spec.{touch, lookup-touch, lookup-take-some, length-touch_present}
use xktmcp.Auth.Limiter
use xktmcp.Auth.Limiter.{[], suc, negsuc, pos, ℤ, Float, Bucket, IpPool}

module _ (f : Float) where
  abbrev pub view : IpPool f → List (Text × Bucket f)
  view p = entries p.table

  -- The map and the list agree, and the bound holds.
  pub record IsValid (p : IpPool f) : Type 0 where
    pub linked : Linked p.table
    pub bounded : length (view p) ≤ p.max_entries

  -- What a call does to the entries: the address is used, its bucket filled and drawn on, or it is
  -- added, and the most recent entries are kept.
  unfoldable pub draw :
      ℕ → ℕ → f.Amount → ℕ → Text → List (Text × Bucket f) → List (Text × Bucket f) × Bool
  draw bound now rps burst ip es = elim (lookup ip es) [
    | none ↦ (
      take bound ((ip, record { amount = f.decrement (f.of_int burst); last_ref = now }) ∷ es),
      true,
    )
    | some b ↦
        (touch ip (Limiter.allow f now rps burst b).0 es, (Limiter.allow f now rps burst b).1)
  ]

  record Meets (p q : IpPool f) (answer : Bool) (spec : List (Text × Bucket f) × Bool)
      : Type 0 where
    entries_as : view q ≡ spec.0
    answer_as : answer ≡ spec.1
    linked : Linked q.table
    same_bound : q.max_entries ≡ p.max_entries

  allow_below-Meets :
      (now burst : ℕ) (ip : Text) (p : IpPool f)
      → IsValid p
      → Meets p
          (Limiter.allow_below f now burst ip p).0
          (Limiter.allow_below f now burst ip p).1
          (draw p.max_entries now p.rps burst ip (view p))
  unfolding Limiter.allow_below Limiter.reuse Limiter.admit draw
  allow_below-Meets now burst ip p h = elim (find-cases ip p.table h.linked) [
    | inr (a, v, g) ↦
        let w : Bucket f = (Limiter.allow f now p.rps burst v).0 in
        record {
          entries_as =
              ground (arith, g.found, g.entry, entries-assign_move ip a v w p.table h.linked g);
          answer_as = ground (arith, g.found, g.entry);
          linked =
              rw (g.found, Limiter.allow_below) (assign_move-Linked ip a v w p.table h.linked g);
          same_bound = ground (arith, g.found);
        }
    | inl m ↦
        let item : Bucket f = record { amount = f.decrement (f.of_int burst); last_ref = now } in
        let t : Table Text (Bucket f) = push_front ip item p.table in
        let (linked, kept) =
          entries-evict (len t) p.max_entries t (push_front-Linked ip item p.table h.linked m)
            (omega arith) in
        record {
          entries_as =
              rw (m.missed, Limiter.allow_below)
                (rw (m.no_entry, draw)
                  (kept ∙ ap (take p.max_entries) (entries-push_front ip item p.table)));
          answer_as = ground (arith, m.missed, m.no_entry);
          linked = rw (m.missed, Limiter.allow_below) linked;
          same_bound = ground (arith, m.missed);
        }
  ]

  draw-keeps :
      (bound now : ℕ) (rps : f.Amount) (burst : ℕ) (ip j : Text) (b : Bucket f)
      (es : List (Text × Bucket f))
      → IsMap es
      → length es ≤ bound
      → ip ≢ j
      → (length (draw bound now rps burst ip es).0 ≤ bound)
        × (lookup j (draw bound now rps burst ip es).0 ≡ some b → lookup j es ≡ some b)
  unfolding draw
  draw-keeps bound now rps burst ip j b es m few differ = elim (Option-cases (lookup ip es)) [
    | inl q ↦
        let item : Bucket f = record { amount = f.decrement (f.of_int burst); last_ref = now } in
        rw (q, draw)
          (
            omega (arith, length-take bound ((ip, item) ∷ es)),
            λ p. ground (arith, list_beq_iff ip j, lookup-take-some bound j b ((ip, item) ∷ es) p),
          )
    | inr (v, q) ↦
        let w : Bucket f = (Limiter.allow f now rps burst v).0 in
        rw (q, draw)
          (
            omega (arith, length-touch_present ip w v es q),
            λ p. ground (arith, list_beq_iff ip j, lookup-touch ip j w es m, p),
          )
  ]

  allow_below-keeps :
      (now burst : ℕ) (ip j : Text) (p : IpPool f)
      → IsValid p
      → ip ≢ j
      → IsValid (Limiter.allow_below f now burst ip p).0
        × ((b : Bucket f)
            → lookup j (view (Limiter.allow_below f now burst ip p).0) ≡ some b
            → lookup j (view p) ≡ some b)
  allow_below-keeps now burst ip j p h differ =
      let m = allow_below-Meets now burst ip p h in
      let each = λ (b : Bucket f).
        draw-keeps p.max_entries now p.rps burst ip j b (view p)
          (entries-IsMap p.table.lru h.linked.distinct) h.bounded differ in
      let blank : Bucket f = record { amount = f.of_int 0; last_ref = 0 } in
      (
        record {
          linked = m.linked;
          bounded = omega (arith, ap length m.entries_as, (each blank).0, m.same_bound);
        },
        λ b e. (each b).1 (ap (lookup j) (sym m.entries_as) ∙ e),
      )

  -- A call for one client address keeps the pool within its bound, map and list in agreement, and
  -- leaves the bucket of every other address that the pool still has as it was.
  pub allow_ip-keeps :
      (now : ℕ) (ip j : Text) (p : IpPool f)
      → IsValid p
      → ip ≢ j
      → IsValid (Limiter.allow_ip f now ip p).0
        × ((b : Bucket f)
            → lookup j (view (Limiter.allow_ip f now ip p).0) ≡ some b
            → lookup j (view p) ≡ some b)
  unfolding Limiter.allow_ip
  allow_ip-keeps now ip j p h differ = go p.burst refl
    where
      go :
          (n : ℤ)
          → p.burst ≡ n
          → IsValid (Limiter.allow_ip f now ip p).0
            × ((b : Bucket f)
                → lookup j (view (Limiter.allow_ip f now ip p).0) ≡ some b
                → lookup j (view p) ≡ some b)
      go (pos zero) e = rw (e, Limiter.allow_ip) (h, λ b q. q)
      go (negsuc n) e = rw (e, Limiter.allow_ip) (h, λ b q. q)
      go (pos (suc n)) e = elim (Bool-cases (ip == [])) [
        | inl blank ↦ rw (e, Limiter.allow_ip) (rw blank (h, λ b q. q))
        | inr named ↦
            rw (e, Limiter.allow_ip) (rw named (allow_below-keeps now (suc n) ip j p h differ))
      ]
