-- ===== src/Server/Sessions/Holders.antt =====
-- Who holds a session after a sequence of calls.
use xktmcp.Prelude.{
  false, ℕ, ◌+◌, ◌≤◌, ◌≡◌, ◌≢◌, ◌∙◌, sym, ap, inl, inr, Bool, true, not, ◌&&◌, ◌||◌, Option, none,
  some, List, [], ◌∷◌, arith, ◌==◌, nat_eq, list_eq, pair_eq, if◌then◌else◌, Bool-cases,
  Option-cases, list_beq_iff, pair_beq_iff,
}
use xktmcp.Lru.Assoc.{lookup, IsMap, lookup-without}
use xktmcp.Lru.Nodes.{entries-IsMap}
use xktmcp.Lru.Spec.{lookup-touch, lookup-take-some, lookup-keep-some}
use xktmcp.Prelude.Int.{positive_or, ℤ}
use xktmcp.Server.Sessions
use xktmcp.Server.Sessions.{
  default_idle_ttl, Identity, Key, Binding, Bindings, new_bindings, idle, equal, size,
}
use xktmcp.Server.Sessions.Access.{
  Entries, view, IsValid, renew, claim, Meets, matches-Meets, bind-Meets, delete-Meets,
  delete_expired-Meets,
}
use xktmcp.Server.Sessions.Runs.{
  Call, bind, matches, delete, delete_expired, perform, after, after-IsValid, after_limits,
  new-IsValid,
}

-- An accepted use of the key `k` overrides what is known of the key `j`.
note : Bool → Key → Identity → ℕ → Key → Option (Identity × ℕ) → Option (Identity × ℕ)
note accepted k identity now j known = if accepted && k == j then some (identity, now) else known

-- The identity and the time of the latest accepted `bind` or `matches` of a key, if no `delete` of
-- that key came after it.
pub latest : Bindings → Key → List Call → Option (Identity × ℕ)
unfolding after perform note
latest b key [] = none
latest b key (bind now k identity cancels ∷ earlier) =
    note (perform (bind now k identity cancels) (after earlier b)).1 k identity now key
      (latest b key earlier)
latest b key (matches now k identity ∷ earlier) =
    note (perform (matches now k identity) (after earlier b)).1 k identity now key
      (latest b key earlier)
latest b key (delete k ∷ earlier) =
    let known = latest b key earlier in if k == key then none else known
latest b key (delete_expired now ∷ earlier) = latest b key earlier

pub equal_to : (i j : Identity) → equal i j ≡ true → i ≡ j
unfolding equal
equal_to none j h = cc
equal_to (some d) none h = cc
equal_to (some d) (some d') h = ap some ((list_beq_iff d d').0 h)

abbrev Known : Key → Entries → Option (Identity × ℕ) → Type 0
Known j es known =
    (entry : Binding) → lookup j es ≡ some entry → known ≡ some (entry.identity, entry.last_active)

renew-Known :
    (ttl now : ℕ) (k j : Key) (identity : Identity) (es : Entries) (known : Option (Identity × ℕ))
    → IsMap es
    → Known j es known
    → Known j
        (renew ttl now k identity es).0
        (note (renew ttl now k identity es).1 k identity now j known)
unfolding renew note
renew-Known ttl now k j identity es known m h entry p = elim (Option-cases (lookup k es)) [
  | inl q ↦ ground (arith, q, p, h entry)
  | inr (v, q) ↦
      let w : Binding = record v { last_active = now } in
      ground (
        arith,
        q,
        p,
        h entry,
        lookup-without k j es m,
        lookup-touch k j w es m,
        pair_beq_iff k j,
        equal_to v.identity identity,
      )
]

claim-Known :
    (bound ttl now : ℕ) (k j : Key) (identity : Identity) (cancels : Option ℕ) (es : Entries)
    (known : Option (Identity × ℕ))
    → IsMap es
    → Known j es known
    → Known j
        (claim bound ttl now k identity cancels es).0
        (note (claim bound ttl now k identity cancels es).1 k identity now j known)
unfolding claim note
claim-Known bound ttl now k j identity cancels es known m h entry p =
    elim (Bool-cases (k.1 == [] || not (equal identity identity))) [
      | inl bad ↦ ground (arith, bad, p, h entry)
      | inr fine ↦ elim (Option-cases (lookup k es)) [
        | inr (v, q) ↦
            ground (arith, fine, q, p, renew-Known ttl now k j identity es known m h entry)
        | inl q ↦
            let new : Binding = record {
              identity = identity;
              last_active = now;
              cancel = cancels;
            } in
            ground (
              arith,
              fine,
              q,
              p,
              h entry,
              pair_beq_iff k j,
              lookup-take-some bound j entry ((k, new) ∷ es),
            )
      ]
    ]

Meets-Known :
    {b c : Bindings} {answer : Bool} {spec : Entries × Bool} (k j : Key) (identity : Identity)
    (now : ℕ) (known : Option (Identity × ℕ))
    → Meets b c answer spec
    → Known j spec.0 (note spec.1 k identity now j known)
    → Known j (view c) (note answer k identity now j known)
Meets-Known k j identity now known m h entry p =
    ap (λ a. note a k identity now j known) m.answer_as
    ∙ h entry (ap (lookup j) (sym m.entries_as) ∙ p)

-- What the bindings hold of a key is the identity and the time of its latest accepted use.
after-Known :
    (history : List Call) (b : Bindings) (j : Key)
    → IsValid b
    → Known j (view b) none
    → Known j (view (after history b)) (latest b j history)
unfolding latest perform after
after-Known [] b j h nothing = nothing
after-Known (bind now k identity cancels ∷ earlier) b j h nothing =
    let d = after earlier b in
    let v = after-IsValid earlier b h in
    Meets-Known k j identity now (latest b j earlier) (bind-Meets now k identity d v cancels) (
      claim-Known d.max_entries d.ttl now k j identity cancels (view d) (latest b j earlier)
        (entries-IsMap d.table.lru v.linked.distinct) (after-Known earlier b j h nothing))
after-Known (matches now k identity ∷ earlier) b j h nothing =
    let d = after earlier b in
    let v = after-IsValid earlier b h in
    Meets-Known k j identity now (latest b j earlier) (matches-Meets now k identity d v) (
      renew-Known d.ttl now k j identity (view d) (latest b j earlier)
        (entries-IsMap d.table.lru v.linked.distinct) (after-Known earlier b j h nothing))
after-Known (delete k ∷ earlier) b j h nothing = λ entry p.
    let d = after earlier b in
    let v = after-IsValid earlier b h in
    ground (
      arith,
      lookup-without k j (view d) (entries-IsMap d.table.lru v.linked.distinct),
      ap (lookup j) (sym (delete-Meets d v k).1) ∙ p,
      after-Known earlier b j h nothing entry,
      pair_beq_iff k j,
    )
after-Known (delete_expired now ∷ earlier) b j h nothing = λ entry p.
    let d = after earlier b in
    let v = after-IsValid earlier b h in
    after-Known earlier b j h nothing entry (
      lookup-keep-some (λ n. not (idle d.ttl now n.1)) j entry (view d)
        (entries-IsMap d.table.lru v.linked.distinct)
        (ap (lookup j) (sym (delete_expired-Meets now d v).1) ∙ p))

not_nil : (i j : Identity) → equal i j ≡ true → j ≢ none
unfolding equal
not_nil none j h = cc
not_nil (some d) none h = cc
not_nil (some d) (some d') h = λ p. cc

module _ (ttl now : ℕ) (k : Key) (other : Identity) (entry : Binding) (es : Entries)
    (q : lookup k es ≡ some entry) (young : idle ttl now entry ≡ false)
    (differ : entry.identity ≢ other) where
  renew_other : ((renew ttl now k other es).0 ≡ es) × ((renew ttl now k other es).1 ≡ false)
  unfolding renew
  renew_other = ground (arith, q, young, differ, equal_to entry.identity other)

  claim_other :
      (bound : ℕ) (cancels : Option ℕ)
      → ((claim bound ttl now k other cancels es).0 ≡ es)
        × ((claim bound ttl now k other cancels es).1 ≡ false)
  unfolding claim
  claim_other bound cancels = ground (arith, q, renew_other)

renew-true :
    (ttl now : ℕ) (k : Key) (identity : Identity) (es : Entries)
    → (renew ttl now k identity es).1 ≡ true
    → (identity ≢ none)
      × ((entry : Binding) × (lookup k es ≡ some entry)
          × (entry.identity ≡ identity)
          × (now ≤ entry.last_active + ttl))
unfolding renew
renew-true ttl now k identity es h = elim (Option-cases (lookup k es)) [
  | inl q ↦ absurd (ground (arith, q, h))
  | inr (v, q) ↦
      let same : equal v.identity identity ≡ true = ground (arith, q, h) in
      (
        not_nil v.identity identity same,
        (v, q, equal_to v.identity identity same, ground (arith, q, h)),
      )
]

-- From new bindings, after any sequence of calls: `matches` accepts a session for an identity only if
-- that very identity, which is not nil, was accepted by the latest accepted `bind` or `matches` of
-- the session, no `delete` of it came since, and that use is no longer than the idle time ago.
pub matches-latest :
    (max_entries ttl : ℤ) (history : List Call) (now : ℕ) (key : Key) (identity : Identity)
    → (Sessions.matches now key identity (after history (new_bindings max_entries ttl))).1 ≡ true
    → (identity ≢ none)
      × ((seen : ℕ) × (latest (new_bindings max_entries ttl) key history ≡ some (identity, seen))
          × (now ≤ seen + positive_or ttl default_idle_ttl))
unfolding new_bindings
matches-latest max_entries ttl history now key identity p =
    let b = new_bindings max_entries ttl in
    let h = new-IsValid max_entries ttl in
    let d = after history b in
    let v = after-IsValid history b h in
    let (named, (entry, q, same, recent)) =
      renew-true d.ttl now key identity (view d)
        (sym (matches-Meets now key identity d v).answer_as ∙ p) in
    let known = after-Known history b key h (λ e r. absurd (cc)) entry q in
    (
      named,
      (
        entry.last_active,
        known ∙ ap (λ i. some (i, entry.last_active)) same,
        omega (arith, recent, (after_limits history b h).1),
      ),
    )

-- While a session is bound to an identity and is not idle, `bind` and `matches` refuse it to every
-- other identity, and the bindings stay as they are.
pub live_refuses_others :
    (b : Bindings) (now : ℕ) (key : Key) (other : Identity) (cancels : Option ℕ) (entry : Binding)
    → IsValid b
    → lookup key (view b) ≡ some entry
    → idle b.ttl now entry ≡ false
    → entry.identity ≢ other
    → ((Sessions.bind now key other cancels b).1 ≡ false)
      × (view (Sessions.bind now key other cancels b).0 ≡ view b)
      × ((Sessions.matches now key other b).1 ≡ false)
      × (view (Sessions.matches now key other b).0 ≡ view b)
live_refuses_others b now key other cancels entry h q young differ =
    let m = matches-Meets now key other b h in
    let n = bind-Meets now key other b h cancels in
    let (r, s) = renew_other b.ttl now key other entry (view b) q young differ in
    let (c, d) =
      claim_other b.ttl now key other entry (view b) q young differ b.max_entries cancels in
    (n.answer_as ∙ d, n.entries_as ∙ c, m.answer_as ∙ s, m.entries_as ∙ r)
