-- ===== src/Server/Sessions/Runs.antt =====
-- Sequences of calls on the bindings. A history lists the calls, the latest first.
use xktmcp.Prelude.{
  zero, suc, ℕ, ◌≤◌, ◌≡◌, ◌∙◌, ap, refl, inl, inr, Bool, false, not, Option, List, [], ◌∷◌, arith,
  nat_eq, list_eq, pair_eq, length, Option-cases, length-keep-le, length-take,
}
use xktmcp.Lru.Assoc.{lookup}
use xktmcp.Lru.Nodes.{length-entries}
use xktmcp.Lru.Table.{empty-Linked}
use xktmcp.Lru.Spec.{length-without-le, length-touch_present}
use xktmcp.Prelude.Int.{negsuc, positive_or, pos, ℤ}
use xktmcp.Server.Sessions
use xktmcp.Server.Sessions.{
  default_max_entries, Identity, Key, Binding, Bindings, new_bindings, idle, equal, size,
}
use xktmcp.Server.Sessions.Access.{
  Entries, view, IsValid, renew, claim, Meets, matches-Meets, bind-Meets, delete-Meets,
  delete_expired-Meets, delete_limits, delete_expired_limits,
}

pub data Call : Type 0 where
  bind : ℕ → Key → Identity → Option ℕ → Call
  matches : ℕ → Key → Identity → Call
  delete : Key → Call
  delete_expired : ℕ → Call

-- The state and the answer after a call; `delete` and `deleteExpired` answer nothing.
unfoldable pub perform : Call → Bindings → Bindings × Bool
perform (bind now key identity cancels) b =
    let r = Sessions.bind now key identity cancels b in (r.0, r.1)
perform (matches now key identity) b = let r = Sessions.matches now key identity b in (r.0, r.1)
perform (delete key) b = (Sessions.delete key b, false)
perform (delete_expired now) b = ((Sessions.delete_expired now b).0, false)

unfoldable pub after : List Call → Bindings → Bindings
after [] b = b
after (call ∷ earlier) b = (perform call (after earlier b)).0

length-renew-le :
    (ttl now : ℕ) (k : Key) (identity : Identity) (es : Entries)
    → length (renew ttl now k identity es).0 ≤ length es
unfolding renew
length-renew-le ttl now k identity es = elim (Option-cases (lookup k es)) [
  | inl q ↦ ground (arith, q)
  | inr (v, q) ↦
      let w : Binding = record v { last_active = now } in
      ground (arith, q, length-without-le k es, length-touch_present k w v es q)
]

length-claim-le :
    (bound ttl now : ℕ) (k : Key) (identity : Identity) (cancels : Option ℕ) (es : Entries)
    → length es ≤ bound
    → length (claim bound ttl now k identity cancels es).0 ≤ bound
unfolding claim
length-claim-le bound ttl now k identity cancels es h =
    let new : Binding = record { identity = identity; last_active = now; cancel = cancels } in
    elim (Option-cases (lookup k es)) [
      | inl q ↦ ground (arith, q, length-take bound ((k, new) ∷ es))
      | inr (v, q) ↦ ground (arith, q, length-renew-le ttl now k identity es)
    ]

Meets-IsValid :
    {b c : Bindings} {answer : Bool} {spec : Entries × Bool}
    → IsValid b
    → Meets b c answer spec
    → length spec.0 ≤ b.max_entries
    → IsValid c
Meets-IsValid {c = c} h m l = record {
  linked = m.linked;
  bounded = omega (arith, ap length m.entries_as, m.same_bound);
  positive = omega (arith, m.same_bound, h.positive);
}

pub perform-IsValid : (call : Call) (b : Bindings) → IsValid b → IsValid (perform call b).0
unfolding perform
perform-IsValid (bind now k identity cancels) b h =
    Meets-IsValid h (bind-Meets now k identity b h cancels)
      (length-claim-le b.max_entries b.ttl now k identity cancels (view b) h.bounded)
perform-IsValid (matches now k identity) b h =
    Meets-IsValid h (matches-Meets now k identity b h)
      (omega (arith, length-renew-le b.ttl now k identity (view b), h.bounded))
perform-IsValid (delete k) b h =
    let (linked, same) = delete-Meets b h k in
    let (m, _) = delete_limits k b in
    record {
      linked = linked;
      bounded = omega (arith, ap length same, length-without-le k (view b), h.bounded, m);
      positive = omega (arith, h.positive, m);
    }
perform-IsValid (delete_expired now) b h =
    let (linked, same) = delete_expired-Meets now b h in
    let (m, _) = delete_expired_limits now b in
    record {
      linked = linked;
      bounded = omega (
        arith,
        ap length same,
        length-keep-le (λ n. not (idle b.ttl now n.1)) (view b),
        h.bounded,
        m,
      );
      positive = omega (arith, h.positive, m);
    }

pub after-IsValid : (history : List Call) (b : Bindings) → IsValid b → IsValid (after history b)
unfolding after
after-IsValid [] b h = h
after-IsValid (call ∷ earlier) b h =
    perform-IsValid call (after earlier b) (after-IsValid earlier b h)

perform_limits :
    (call : Call) (b : Bindings)
    → IsValid b
    → ((perform call b).0.max_entries ≡ b.max_entries) × ((perform call b).0.ttl ≡ b.ttl)
unfolding perform
perform_limits (bind now k identity cancels) b h =
    let m = bind-Meets now k identity b h cancels in (m.same_bound, m.same_ttl)
perform_limits (matches now k identity) b h =
    let m = matches-Meets now k identity b h in (m.same_bound, m.same_ttl)
perform_limits (delete k) b h = delete_limits k b
perform_limits (delete_expired now) b h = delete_expired_limits now b

pub after_limits :
    (history : List Call) (b : Bindings)
    → IsValid b
    → ((after history b).max_entries ≡ b.max_entries) × ((after history b).ttl ≡ b.ttl)
unfolding after
after_limits [] b h = (refl, refl)
after_limits (call ∷ earlier) b h =
    let (m, t) = after_limits earlier b h in
    let (m', t') = perform_limits call (after earlier b) (after-IsValid earlier b h) in
    (m' ∙ m, t' ∙ t)

pub new-IsValid : (max_entries ttl : ℤ) → IsValid (new_bindings max_entries ttl)
unfolding new_bindings
new-IsValid (pos zero) ttl = record {
  linked = empty-Linked;
  bounded = omega arith;
  positive = omega arith;
}
new-IsValid (pos (suc n)) ttl = record {
  linked = empty-Linked;
  bounded = omega arith;
  positive = omega arith;
}
new-IsValid (negsuc n) ttl = record {
  linked = empty-Linked;
  bounded = omega arith;
  positive = omega arith;
}

-- From new bindings, after any sequence of calls, the map and the list have equally many bindings,
-- and no more than the configured maximum, or the default where none is configured.
pub size-bindings_after :
    (max_entries ttl : ℤ) (history : List Call)
    → (size (after history (new_bindings max_entries ttl))
        ≡ length (after history (new_bindings max_entries ttl)).table.lru)
      × (size (after history (new_bindings max_entries ttl))
          ≤ positive_or max_entries default_max_entries)
unfolding size new_bindings
size-bindings_after max_entries ttl history =
    let b = new_bindings max_entries ttl in
    let h = new-IsValid max_entries ttl in
    let v = after-IsValid history b h in
    (
      v.linked.size,
      omega (
        arith,
        v.linked.size,
        v.bounded,
        (after_limits history b h).0,
        length-entries (after history b).table.lru,
      ),
    )
