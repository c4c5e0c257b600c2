-- ===== src/Server/Sessions/Access.antt =====
-- The bindings against their specification: a list of entries in order of use.
use xktmcp.Prelude.{
  ℕ, ◌≤◌, ◌<◌, ◌≡◌, ◌∙◌, sym, ap, refl, inl, inr, Bool, true, false, not, ◌||◌, Option, none, some,
  List, [], ◌∷◌, arith, ◌==◌, nat_eq, list_eq, pair_eq, if◌then◌else◌, length, take, keep,
  Bool-cases, Option-cases,
}
use xktmcp.Lru.Assoc.{lookup, without, without_absent}
use xktmcp.Lru.Backward.{backward}
use xktmcp.Lru.Table.{Table, entries, len, Linked, push_front, remove}
use xktmcp.Lru.Laws.{
  Missing, Found, find-cases, entries-remove, remove-Linked, entries-move_assign,
  move_assign-Linked, push_front-Linked, entries-push_front,
}
use xktmcp.Lru.Evict.{entries-evict}
use xktmcp.Lru.Sweep.{sweep, entries-sweep-backward}
use xktmcp.Lru.Spec.{touch}
use mathlib.Core.Path.{subst, subst₂}
use xktmcp.Lru.Nodes.{deref}
use xktmcp.Server.Sessions.{Removed}
use xktmcp.Server.Sessions.{
  Identity, Key, Binding, Bindings, idle, equal, matches, bind, bind_new, rebind, delete, expire,
  delete_expired,
}

abbrev pub Entries : Type 0
Entries = List (Key × Binding)

abbrev pub view : Bindings → Entries
view b = entries b.table

-- The map and the list agree, and the bound holds.
pub record IsValid (b : Bindings) : Type 0 where
  pub linked : Linked b.table
  pub bounded : length (view b) ≤ b.max_entries
  pub positive : 0 < b.max_entries

-- A use of a session: an idle binding is dropped, one of the same identity is renewed.
unfoldable pub renew : ℕ → ℕ → Key → Identity → Entries → Entries × Bool
renew ttl now key identity es = elim (lookup key es) [
  | none ↦ (es, false)
  | some entry ↦
      if idle ttl now entry
      then (without key es, false)
      else if equal entry.identity identity
      then (touch key (record entry { last_active = now }) es, true)
      else (es, false)
]

-- A session is bound where it is free, and used where it is not.
unfoldable pub claim : ℕ → ℕ → ℕ → Key → Identity → Option ℕ → Entries → Entries × Bool
unfolding renew
claim bound ttl now key identity cancels es =
    if key.1 == [] || not (equal identity identity) then (es, false) else elim (lookup key es) [
      | none ↦ (
        take bound
            ((key, record { identity = identity; last_active = now; cancel = cancels }) ∷ es),
        true,
      )
      | some _ ↦ renew ttl now key identity es
    ]

-- What an operation leaves: the entries and the answer of the specification.
pub record Meets (b c : Bindings) (answer : Bool) (spec : Entries × Bool) : Type 0 where
  pub entries_as : view c ≡ spec.0
  pub answer_as : answer ≡ spec.1
  pub linked : Linked c.table
  pub same_bound : c.max_entries ≡ b.max_entries
  pub same_ttl : c.ttl ≡ b.ttl

module _ (now : ℕ) (key : Key) (identity : Identity) (b : Bindings) (h : IsValid b) where
  pub matches-Meets :
      Meets b
        (matches now key identity b).0
        (matches now key identity b).1
        (renew b.ttl now key identity (view b))
  unfolding matches renew
  matches-Meets = elim (find-cases key b.table h.linked) [
    | inl m ↦ record {
      entries_as = ground (arith, m.missed, m.no_entry);
      answer_as = ground (arith, m.missed, m.no_entry);
      linked = rw (m.missed, matches) h.linked;
      same_bound = ground (arith, m.missed);
      same_ttl = ground (arith, m.missed);
    }
    | inr (a, v, f) ↦ elim (Bool-cases (idle b.ttl now v)) [
      | inl old ↦ record {
        entries_as =
            ground (arith, f.found, f.entry, old, entries-remove key a v b.table h.linked f);
        answer_as = ground (arith, f.found, f.entry, old);
        linked = rw (f.found, matches) (rw old (remove-Linked key a v b.table h.linked f));
        same_bound = ground (arith, f.found, old);
        same_ttl = ground (arith, f.found, old);
      }
      | inr young ↦ elim (Bool-cases (equal v.identity identity)) [
        | inl same ↦
            let w : Binding = record v { last_active = now } in
            record {
              entries_as = ground (
                arith,
                f.found,
                f.entry,
                young,
                same,
                entries-move_assign key a v w b.table h.linked f,
              );
              answer_as = ground (arith, f.found, f.entry, young, same);
              linked =
                  rw (f.found, matches)
                    (rw young (rw same (move_assign-Linked key a v w b.table h.linked f)));
              same_bound = ground (arith, f.found, young, same);
              same_ttl = ground (arith, f.found, young, same);
            }
        | inr other ↦ record {
          entries_as = ground (arith, f.found, f.entry, young, other);
          answer_as = ground (arith, f.found, f.entry, young, other);
          linked = rw (f.found, matches) (rw young (rw other h.linked));
          same_bound = ground (arith, f.found, young, other);
          same_ttl = ground (arith, f.found, young, other);
        }
      ]
    ]
  ]

  rebind-matches :
      (a : ℕ) (v : Binding)
      → Found key b.table a v
      → rebind now key identity a v b ≡ matches now key identity b
  unfolding rebind matches
  rebind-matches a v f = ground (arith, f.found)

  module _ (cancels : Option ℕ) where
    bind_new-Meets :
        (m : Missing key b.table)
        → Meets b (bind_new now key identity cancels b).0 (bind_new now key identity cancels b).1 (
          take b.max_entries
              ((key, record { identity = identity; last_active = now; cancel = cancels }) ∷ view b),
          true,
        )
    unfolding bind_new
    bind_new-Meets m =
        let entry : Binding = record { identity = identity; last_active = now; cancel = cancels } in
        let p : Table Key Binding = push_front key entry b.table in
        let (linked, kept) =
          entries-evict (len p) b.max_entries p (push_front-Linked key entry b.table h.linked m)
            (omega arith) in
        record {
          entries_as = kept ∙ ap (take b.max_entries) (entries-push_front key entry b.table);
          answer_as = refl;
          linked = linked;
          same_bound = refl;
          same_ttl = refl;
        }

    pub bind-Meets :
        Meets b
          (bind now key identity cancels b).0
          (bind now key identity cancels b).1
          (claim b.max_entries b.ttl now key identity cancels (view b))
    unfolding bind claim
    bind-Meets =
        let Met : Bindings × Bool × Removed → Entries × Bool → Type 0 = λ r s. Meets b r.0 r.1 s in
        let bound = bind now key identity cancels b in
        let claimed = claim b.max_entries b.ttl now key identity cancels (view b) in
        let fresh : Binding = record { identity = identity; last_active = now; cancel = cancels } in
        let unchanged : Met (b, false, []) (view b, false) = record {
          entries_as = refl;
          answer_as = refl;
          linked = h.linked;
          same_bound = refl;
          same_ttl = refl;
        } in
        elim (Bool-cases (key.1 == [] || not (equal identity identity))) [
          | inl bad ↦
              let e : bound ≡ (b, false, []) = ground (arith, bad) in
              let g : claimed ≡ (view b, false) = ground (arith, bad) in
              subst₂ Met (sym e) (sym g) unchanged
          | inr fine ↦ elim (find-cases key b.table h.linked) [
            | inl m ↦
                let e : bound ≡ bind_new now key identity cancels b =
                  ground (arith, fine, m.missed) in
                let g : claimed ≡ (take b.max_entries ((key, fresh) ∷ view b), true) =
                  ground (arith, fine, m.no_entry) in
                subst₂ Met (sym e) (sym g) (bind_new-Meets m)
            | inr (a, v, f) ↦
                let e : bound ≡ matches now key identity b =
                  ground (arith, fine, f.found, rebind-matches a v f) in
                let g : claimed ≡ renew b.ttl now key identity (view b) =
                  ground (arith, fine, f.entry) in
                subst₂ Met (sym e) (sym g) matches-Meets
          ]
        ]

module _ (b : Bindings) (h : IsValid b) where
  pub delete-Meets :
      (key : Key) → Linked (delete key b).table × (view (delete key b) ≡ without key (view b))
  unfolding delete
  delete-Meets key = elim (find-cases key b.table h.linked) [
    | inl m ↦ (
      rw (m.missed, delete) h.linked,
      ground (arith, m.missed, without_absent key (view b) m.no_entry),
    )
    | inr (a, v, f) ↦ (
      rw (f.found, delete) (remove-Linked key a v b.table h.linked f),
      ground (arith, f.found, entries-remove key a v b.table h.linked f),
    )
  ]

expire-sweep :
    (ttl now : ℕ) (s : List (Key × ℕ)) (t : Table Key Binding)
    → (expire ttl now s t).0 ≡ sweep (λ k v. idle ttl now v) s t
unfolding expire sweep
expire-sweep ttl now [] t = refl
expire-sweep ttl now ((k, a) ∷ s) t = elim (Option-cases (deref a t.lru)) [
  | inl p ↦ ground (arith, p, expire-sweep ttl now s t)
  | inr (n, p) ↦
      ground (arith, p, expire-sweep ttl now s t, expire-sweep ttl now s (remove n.0 a t))
]

pub delete_expired-Meets :
    (now : ℕ) (b : Bindings)
    → IsValid b
    → Linked (delete_expired now b).0.table
      × (view (delete_expired now b).0 ≡ keep (λ n. not (idle b.ttl now n.1)) (view b))
unfolding delete_expired
delete_expired-Meets now b h =
    subst
      (λ (t : Table Key Binding).
        Linked t × (entries t ≡ keep (λ n. not (idle b.ttl now n.1)) (view b)))
      (sym (expire-sweep b.ttl now (backward b.table.lru) b.table))
      (entries-sweep-backward (λ k v. idle b.ttl now v) b.table h.linked)

pub delete_limits :
    (key : Key) (b : Bindings)
    → ((delete key b).max_entries ≡ b.max_entries) × ((delete key b).ttl ≡ b.ttl)
unfolding delete
delete_limits key b = ground arith

pub delete_expired_limits :
    (now : ℕ) (b : Bindings)
    → ((delete_expired now b).0.max_entries ≡ b.max_entries)
      × ((delete_expired now b).0.ttl ≡ b.ttl)
unfolding delete_expired
delete_expired_limits now b = (refl, refl)
