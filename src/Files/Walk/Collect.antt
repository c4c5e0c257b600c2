-- ===== src/Files/Walk/Collect.antt =====
-- A walk that collects at most so many results.
use mathlib.Core.Path.{subst}
use mathlib.Core.Option.{some-injective}
use xktmcp.Prelude.{
  take-append_exact, All, ◌≤◌, ◌⊎◌, Bool, true, false, [], ◌∷◌, none, some, Option, List, leb, ◌≡◌,
  ◌++◌, take, length, arith, Bool-cases, Option-cases, inl, inr, ◌<◌,
}
use xktmcp.Files.Walk.{found, broken, passed_over}
use xktmcp.Prelude.Text.{Text}
use xktmcp.Files.Find.{append_below}
use xktmcp.Files.Walk.{
  passed_over, broken, some, false, found, ◌∷◌, List, Option, Bool, Text, Visit, Info, Step, more,
}
use xktmcp.Prelude.{
  Bool-cases, inr, inl, Option-cases, ◌++◌, true, take, some, false, ◌<◌, length, ◌≡◌, List, Option,
  Bool, nat_eq, list_eq, ℕ,
}
use xktmcp.Files.Walk
use xktmcp.Files.Walk.{stop, fail}
use xktmcp.Prelude.Text.{Text}
use mathlib.Core.List.{append-nil, append_assoc}
use xktmcp.Prelude.{ℕ, refl, ap, sym, ◌∙◌, length-append, take_of_length-le}
use xktmcp.Files.Walk.{Visit, Info, Step}

-- No call is for an error, and the context is not canceled at any.
unfoldable pub IsCalm : (Text → Bool) → List Visit → Type 0
IsCalm canceled [] = Unit
IsCalm canceled (found path name info ∷ vs) = (canceled path ≡ false) × IsCalm canceled vs
IsCalm canceled (broken path ∷ vs) = false ≡ true
IsCalm canceled (passed_over path ∷ vs) = (canceled path ≡ false) × IsCalm canceled vs

module _ {ℓ} {A : Type ℓ} (pick : Text → Text → Info → Option A) where
  -- What is picked of the files, in the order of the walk.
  unfoldable pub picked : List Visit → List A
  picked [] = []
  picked (found path name info ∷ vs) = elim (pick path name info) [
    | none ↦ picked vs
    | some a ↦ a ∷ picked vs
  ]
  picked (broken path ∷ vs) = picked vs
  picked (passed_over path ∷ vs) = picked vs

  -- A callback that appends what is picked.
  abbrev pub Appends : ℕ → (Text → Text → Info → List A → Step (List A)) → Type ℓ
  Appends limit visit =
      (path name : Text) (info : Info) (items : List A)
      → visit path name info items
        ≡ elim (pick path name info) [ none ↦ more items | some a ↦ append_below limit a items ]

  module _ (canceled : Text → Bool) (limit : ℕ)
      (visit : Text → Text → Info → List A → Step (List A)) where
    walk_past :
        (path name : Text) (info : Info) (vs : List Visit) (items : List A) (s : Step (List A))
        → canceled path ≡ false
        → visit path name info items ≡ s
        → Walk.walk canceled visit (found path name info ∷ vs) items ≡ elim s [
          | more next ↦ Walk.walk canceled visit vs next
          | stop next ↦ some next
          | fail ↦ none
        ]
    unfolding Walk.walk Walk.call_back
    walk_past path name info vs items s p q = rw (p, Walk.walk) (rw q refl)

    -- A walk that nothing stops gives the first of what is picked, up to the limit.
    pub walk-picked :
        Appends limit visit
        → (vs : List Visit) (items : List A) → IsCalm canceled vs
        → length items < limit
        → Walk.walk canceled visit vs items ≡ some (take limit (items ++ picked vs))
    unfolding Walk.walk Walk.call_back picked IsCalm
    walk-picked appends [] items calm few = ap some (
        sym (
          take_of_length-le limit (items ++ []) (omega (arith, few, length-append items []))
          ∙ append-nil items))
    walk-picked appends (found path name info ∷ vs) items calm few =
        let rest = walk-picked appends vs in
        elim (Option-cases (pick path name info)) [
          | inl skip ↦
              walk_past path name info vs items (more items) calm.0
                (appends path name info items ∙ rw skip refl)
              ∙ rest items calm.1 few
              ∙ rw (skip, picked) refl
          | inr (a, p) ↦
              let longer = items ++ (a ∷ []) in
              let size = length-append items (a ∷ []) in
              let joined : longer ++ picked vs ≡ items ++ (a ∷ picked vs) =
                append_assoc items (a ∷ []) (picked vs) in
              elim (Bool-cases (leb limit (length longer))) [
                | inl full ↦
                    walk_past path name info vs items (stop longer) calm.0
                      (appends path name info items ∙ rw p (rw full refl))
                    ∙ ap some (
                        sym (
                          take-append_exact limit longer (picked vs)
                            (ground (arith, size, few, full))))
                    ∙ ap (λ l. some (take limit l)) joined
                    ∙ rw (p, picked) refl
                | inr room ↦
                    walk_past path name info vs items (more longer) calm.0
                      (appends path name info items ∙ rw p (rw room refl))
                    ∙ rest longer calm.1 (ground (arith, room))
                    ∙ ap (λ l. some (take limit l)) joined
                    ∙ rw (p, picked) refl
              ]
        ]
    walk-picked appends (broken path ∷ vs) items calm few = absurd (ground (arith, calm))
    walk-picked appends (passed_over path ∷ vs) items calm few =
        rw (calm.0, Walk.walk) (walk-picked appends vs items calm.1 few)

module _ {ℓ} {A : Type ℓ} (canceled : Text → Bool) (visit : Text → Text → Info → A → Step A) where
  pub walk_found :
      (path name : Text) (info : Info) (vs : List Visit) (a b : A)
      → Walk.walk canceled visit (found path name info ∷ vs) a ≡ some b
      → (visit path name info a ≡ stop b)
        ⊎ ((next : A) × (visit path name info a ≡ more next)
            × (Walk.walk canceled visit vs next ≡ some b))
  unfolding Walk.walk Walk.call_back
  walk_found path name info vs a b h = elim (Bool-cases (canceled path)) [
    | inl end ↦ absurd (ground (arith, h, end))
    | inr on ↦ go (visit path name info a) refl (ground (arith, h, on))
  ]
    where
      go :
          (s : Step A)
          → visit path name info a ≡ s
          → (elim (visit path name info a) [
            | more next ↦ Walk.walk canceled visit vs next
            | stop next ↦ some next
            | fail ↦ none
          ])
            ≡ some b
          → (visit path name info a ≡ stop b)
            ⊎ ((next : A) × (visit path name info a ≡ more next)
                × (Walk.walk canceled visit vs next ≡ some b))
      go (more next) e g = inr (next, e, ground (arith, e, g))
      go (stop next) e g = inl (e ∙ ap stop (some-injective _ _ (ground (arith, e, g))))
      go fail e g = absurd (ground (arith, e, g))

  -- What each call of the callback keeps holds at the end of the walk.
  pub walk-keeps {κ} :
      (Q R : A → Type κ)
      → ((a : A) → Q a → R a)
      → ((path name : Text) (info : Info) (a b : A) → Q a → visit path name info a ≡ more b → Q b)
      → ((path name : Text) (info : Info) (a b : A) → Q a → visit path name info a ≡ stop b → R b)
      → (vs : List Visit) (a b : A) → Q a
      → Walk.walk canceled visit vs a ≡ some b
      → R b
  unfolding Walk.walk Walk.call_back
  walk-keeps Q R end on off [] a b q h = subst R (some-injective _ _ h) (end a q)
  walk-keeps Q R end on off (found path name info ∷ vs) a b q h =
      elim (walk_found path name info vs a b h) [
        | inl e ↦ off path name info a b q e
        | inr (next, e, rest) ↦
            walk-keeps Q R end on off vs next b (on path name info a next q e) rest
      ]
  walk-keeps Q R end on off (broken path ∷ vs) a b q h = absurd (ground (arith, h))
  walk-keeps Q R end on off (passed_over path ∷ vs) a b q h = elim (Bool-cases (canceled path)) [
    | inl late ↦ absurd (ground (arith, h, late))
    | inr calm ↦ walk-keeps Q R end on off vs a b q (ground (arith, h, calm))
  ]

module _ {ℓ} {A : Type ℓ} (limit : ℕ) (P : A → Type ℓ) where
  append-All : (a : List A) (item : A) → All P a → P item → All P (a ++ (item ∷ []))
  append-All [] item all p = (p, tt)
  append-All (x ∷ a) item all p = (all.0, append-All a item all.1 p)

  abbrev Below : List A → Type ℓ
  Below a = (length a < limit) × All P a

  abbrev Within : List A → Type ℓ
  Within a = (length a ≤ limit) × All P a

  grown-Below :
      (a c : List A) (item : A) → P item → Below a → append_below limit item a ≡ more c → Below c
  grown-Below a c item p q e = elim (Bool-cases (leb limit (length (a ++ (item ∷ []))))) [
    | inl full ↦ absurd (ground (arith, e, full))
    | inr room ↦
        let same : a ++ (item ∷ []) ≡ c = ground (arith, e, room) in
        subst Below same (ground (arith, room), append-All a item q.1 p)
  ]

  grown-Within :
      (a c : List A) (item : A) → P item → Below a → append_below limit item a ≡ stop c → Within c
  grown-Within a c item p q e = elim (Bool-cases (leb limit (length (a ++ (item ∷ []))))) [
    | inr room ↦ absurd (ground (arith, e, room))
    | inl full ↦
        let same : a ++ (item ∷ []) ≡ c = ground (arith, e, full) in
        subst Within same (omega (arith, q.0, length-append a (item ∷ [])), append-All a item q.1 p)
  ]

  -- A walk that appends items with a property, passes files over or fails: its results have the
  -- property, and are no more than the limit.
  pub walk-All :
      (canceled : Text → Bool) (visit : Text → Text → Info → List A → Step (List A))
      → ((path name : Text) (info : Info) (a : List A)
          → (visit path name info a ≡ more a)
            ⊎ (visit path name info a ≡ fail)
            ⊎ ((item : A) × P item × (visit path name info a ≡ append_below limit item a)))
      → 0 < limit
      → (vs : List Visit) (b : List A) → Walk.walk canceled visit vs [] ≡ some b
      → Within b
  walk-All canceled visit cases room vs b h =
      walk-keeps canceled visit Below Within (λ a q. (omega (arith, q.0), q.1))
        (λ path name info a c q e. elim (cases path name info a) [
          | inl same ↦ let kept : a ≡ c = ground (arith, same, e) in subst Below kept q
          | inr (inl failed) ↦ absurd (ground (arith, failed, e))
          | inr (inr (item, p, grows)) ↦ grown-Below a c item p q (sym grows ∙ e)
        ])
        (λ path name info a c q e. elim (cases path name info a) [
          | inl same ↦ absurd (ground (arith, same, e))
          | inr (inl failed) ↦ absurd (ground (arith, failed, e))
          | inr (inr (item, p, grows)) ↦ grown-Within a c item p q (sym grows ∙ e)
        ])
        vs [] b (room, tt) h
