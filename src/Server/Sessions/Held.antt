-- ===== src/Server/Sessions/Held.antt =====
-- Who holds a session after an accepted call.
use mathlib.Core.Path.{subst}
use xktmcp.Prelude.{
  zero, refl, suc, ◌<◌, ==-refl, ℕ, ◌≡◌, ◌∙◌, sym, ap, inl, inr, Bool, true, Option, some, arith,
  nat_eq, list_eq, pair_eq, Option-cases,
}
use xktmcp.Lru.Assoc.{lookup}
use xktmcp.Server.Sessions
use xktmcp.Server.Sessions.{
  default_idle_ttl, Identity, Key, Binding, Bindings, new_bindings, idle, equal, size,
}
use xktmcp.Server.Sessions.Access.{Entries, view, IsValid, renew, claim, matches-Meets, bind-Meets}
use xktmcp.Server.Sessions.Holders.{equal_to}

-- A session that an identity holds since `now`.
abbrev pub HeldAt : ℕ → Key → Identity → Entries → Type 0
HeldAt now k identity es =
    (entry : Binding) × (lookup k es ≡ some entry)
    × (entry.identity ≡ identity)
    × (entry.last_active ≡ now)

renew-HeldAt :
    (ttl now : ℕ) (k : Key) (identity : Identity) (es : Entries)
    → (renew ttl now k identity es).1 ≡ true
    → HeldAt now k identity (renew ttl now k identity es).0
unfolding renew
renew-HeldAt ttl now k identity es h = elim (Option-cases (lookup k es)) [
  | inl q ↦ absurd (ground (arith, q, h))
  | inr (v, q) ↦ (
    record v { last_active = now },
    ground (arith, q, h, ==-refl k),
    ground (arith, q, h, equal_to v.identity identity),
    refl,
  )
]

claim-HeldAt :
    (bound ttl now : ℕ) (k : Key) (identity : Identity) (cancels : Option ℕ) (es : Entries)
    → 0 < bound
    → (claim bound ttl now k identity cancels es).1 ≡ true
    → HeldAt now k identity (claim bound ttl now k identity cancels es).0
unfolding claim
claim-HeldAt zero ttl now k identity cancels es positive h = absurd (omega arith)
claim-HeldAt (suc bound) ttl now k identity cancels es positive h =
    elim (Option-cases (lookup k es)) [
      | inl q ↦ (
        record { identity = identity; last_active = now; cancel = cancels },
        ground (arith, q, h, ==-refl k),
        refl,
        refl,
      )
      | inr (v, q) ↦
          let e : claim (suc bound) ttl now k identity cancels es ≡ renew ttl now k identity es =
            ground (arith, q, h) in
          subst (λ (r : Entries × Bool). HeldAt now k identity r.0) (sym e)
            (renew-HeldAt ttl now k identity es (ap (λ (r : Entries × Bool). r.1) (sym e) ∙ h))
    ]

-- An accepted `matches` leaves the session held by the identity since the time of the call.
pub matches-HeldAt :
    (b : Bindings) (now : ℕ) (key : Key) (identity : Identity)
    → IsValid b
    → (Sessions.matches now key identity b).1 ≡ true
    → HeldAt now key identity (view (Sessions.matches now key identity b).0)
matches-HeldAt b now key identity h p =
    let m = matches-Meets now key identity b h in
    subst (HeldAt now key identity) (sym m.entries_as)
      (renew-HeldAt b.ttl now key identity (view b) (sym m.answer_as ∙ p))

-- So does an accepted `bind`.
pub bind-HeldAt :
    (b : Bindings) (now : ℕ) (key : Key) (identity : Identity) (cancels : Option ℕ)
    → IsValid b
    → (Sessions.bind now key identity cancels b).1 ≡ true
    → HeldAt now key identity (view (Sessions.bind now key identity cancels b).0)
bind-HeldAt b now key identity cancels h p =
    let m = bind-Meets now key identity b h cancels in
    subst (HeldAt now key identity) (sym m.entries_as) (
      claim-HeldAt b.max_entries b.ttl now key identity cancels (view b) h.positive
        (sym m.answer_as ∙ p))
