-- ===== src/Files/Ranked/Insert.antt =====
-- The insertion of results in order.
use xktmcp.Prelude.{
  take_of_length-le, ◌∙◌, sym, ltb, drop, ◌++◌, ◌≤◌, ap, take, length, if◌then◌else◌, All, List,
  nat_eq, list_eq, ℕ, zero, suc, [], ◌∷◌, true, false, refl, arith, inl, inr, Bool-cases, ◌≡◌,
}
use xktmcp.Files.Ranked
use xktmcp.Files.Ranked.{
  more, fail, Info, OpenedFile, Option, Text, ltb, drop, take, length, List, FileSearchResult,
  loaded, skipped, unread, Loaded,
}
use xktmcp.Files.Ranked.Order.{stands_before_trans, stands_before_asym}
use xktmcp.Prelude.{take-append_exact, take-take-suc}
use mathlib.Core.List.{Permᴰ}
use mathlib.Core.List.Permᴰ

-- A result before the first one that it stands before.
unfoldable pub insert : FileSearchResult → List FileSearchResult → List FileSearchResult
insert x [] = x ∷ []
insert x (y ∷ l) = let rest = insert x l in if Ranked.stands_before x y then x ∷ y ∷ l else y ∷ rest

-- No result stands before an earlier one.
pub IsRanked : List FileSearchResult → Type 0
IsRanked [] = Unit
IsRanked (x ∷ l) = All (λ y. Ranked.stands_before y x ≡ false) l × IsRanked l

All-insert :
    (P : FileSearchResult → Type 0) (x : FileSearchResult) (l : List FileSearchResult)
    → P x
    → All P l
    → All P (insert x l)
unfolding insert
All-insert P x [] p all = (p, tt)
All-insert P x (y ∷ l) p all = elim (Bool-cases (Ranked.stands_before x y)) [
  | inl here ↦ rw here (p, all)
  | inr later ↦ rw later (all.0, All-insert P x l p all.1)
]

All-after :
    (x y : FileSearchResult) (l : List FileSearchResult)
    → Ranked.stands_before x y ≡ true
    → All (λ z. Ranked.stands_before z y ≡ false) l
    → All (λ z. Ranked.stands_before z x ≡ false) l
All-after x y [] p all = tt
All-after x y (z ∷ l) p all = (stands_before_trans x y z p all.0, All-after x y l p all.1)

insert-IsRanked :
    (x : FileSearchResult) (l : List FileSearchResult) → IsRanked l → IsRanked (insert x l)
unfolding insert IsRanked
insert-IsRanked x [] r = (tt, tt)
insert-IsRanked x (y ∷ l) r = elim (Bool-cases (Ranked.stands_before x y)) [
  | inl here ↦ rw here ((stands_before_asym x y here, All-after x y l here r.0), r)
  | inr later ↦
      rw later
        (All-insert (λ z. Ranked.stands_before z y ≡ false) x l later r.0, insert-IsRanked x l r.1)
]

insert-Permᴰ : (x : FileSearchResult) (l : List FileSearchResult) → Permᴰ (insert x l) (x ∷ l)
unfolding insert
insert-Permᴰ x [] = Permᴰ.refl (x ∷ [])
insert-Permᴰ x (y ∷ l) = elim (Bool-cases (Ranked.stands_before x y)) [
  | inl here ↦ rw here (Permᴰ.refl (x ∷ y ∷ l))
  | inr later ↦ rw later (Permᴰ.trans (Permᴰ.cons refl (insert-Permᴰ x l)) (Permᴰ.swap refl refl))
]

length-insert :
    (x : FileSearchResult) (l : List FileSearchResult) → length (insert x l) ≡ suc (length l)
unfolding insert
length-insert x [] = refl
length-insert x (y ∷ l) = ground (arith, length-insert x l)

take-cons :
    (n : ℕ) (y : FileSearchResult) (l : List FileSearchResult)
    → take n (y ∷ take n l) ≡ take n (y ∷ l)
take-cons zero y l = refl
take-cons (suc n) y l = ap (◌∷◌ y) (take-take-suc n l)

pub take-insert :
    (n : ℕ) (x : FileSearchResult) (l : List FileSearchResult)
    → take n (insert x (take n l)) ≡ take n (insert x l)
unfolding insert
take-insert zero x l = refl
take-insert (suc n) x [] = refl
take-insert (suc n) x (y ∷ l) = elim (Bool-cases (Ranked.stands_before x y)) [
  | inl here ↦ rw here ((ap (◌∷◌ x) (take-cons n y l)))
  | inr later ↦ rw later ((ap (◌∷◌ y) (take-insert n x l)))
]

-- The insertion at the position that the source computes.
insert_at-insert :
    (x : FileSearchResult) (l : List FileSearchResult)
    → take (Ranked.position x l) l ++ (x ∷ drop (Ranked.position x l) l) ≡ insert x l
unfolding Ranked.position insert
insert_at-insert x [] = refl
insert_at-insert x (y ∷ l) = elim (Bool-cases (Ranked.stands_before x y)) [
  | inl here ↦ rw here refl
  | inr later ↦ rw later (ap (◌∷◌ y) (insert_at-insert x l))
]

insert_past :
    (x : FileSearchResult) (l : List FileSearchResult)
    → length l ≤ Ranked.position x l
    → insert x l ≡ l ++ (x ∷ [])
unfolding Ranked.position insert
insert_past x [] p = refl
insert_past x (y ∷ l) p = elim (Bool-cases (Ranked.stands_before x y)) [
  | inl here ↦ absurd (ground (arith, p, here))
  | inr later ↦ rw later (ap (◌∷◌ y) (insert_past x l (ground (arith, p, later))))
]

position-le : (x : FileSearchResult) (l : List FileSearchResult) → Ranked.position x l ≤ length l
unfolding Ranked.position
position-le x [] = omega arith
position-le x (y ∷ l) = ground (arith, position-le x l)

cut_above :
    (n : ℕ) (l : List FileSearchResult) → (if ltb n (length l) then take n l else l) ≡ take n l
cut_above n l = elim (Bool-cases (ltb n (length l))) [
  | inl over ↦ rw over refl
  | inr fits ↦ rw fits (sym (take_of_length-le n l (ground (arith, fits))))
]

pub insert_ranked-take :
    (limit : ℕ) (x : FileSearchResult) (l : List FileSearchResult)
    → length l ≤ limit
    → Ranked.insert_ranked limit x l ≡ take limit (insert x l)
unfolding Ranked.insert_ranked
insert_ranked-take limit x l few = elim (Bool-cases (ltb (Ranked.position x l) limit)) [
  | inl near ↦
      rw near (cut_above limit (take (Ranked.position x l) l ++ (x ∷ drop (Ranked.position x l) l)))
      ∙ ap (take limit) (insert_at-insert x l)
  | inr far ↦
      let size : length l ≡ limit = ground (arith, far, few, position-le x l) in
      rw far refl
      ∙ sym (take-append_exact limit l (x ∷ []) size)
      ∙ ap (take limit) (sym (insert_past x l (ground (arith, far, few))))
]

pub nil-IsRanked : IsRanked []
unfolding IsRanked
nil-IsRanked = tt

pub nil-Permᴰ : (xs : List FileSearchResult) → Permᴰ (xs ++ []) xs
nil-Permᴰ [] = Permᴰ.nil
nil-Permᴰ (x ∷ xs) = Permᴰ.cons refl (nil-Permᴰ xs)

pub take_nil : (n : ℕ) → take {A = FileSearchResult} n [] ≡ []
take_nil zero = refl
take_nil (suc n) = refl

-- The insertion of one result after the other.
unfoldable pub insert_all : List FileSearchResult → List FileSearchResult → List FileSearchResult
unfolding insert
insert_all [] l = l
insert_all (x ∷ xs) l = insert_all xs (insert x l)

pub insert_all-IsRanked : (xs l : List FileSearchResult) → IsRanked l → IsRanked (insert_all xs l)
unfolding insert_all
insert_all-IsRanked [] l r = r
insert_all-IsRanked (x ∷ xs) l r = insert_all-IsRanked xs (insert x l) (insert-IsRanked x l r)

middle-Permᴰ :
    (x : FileSearchResult) (xs l : List FileSearchResult) → Permᴰ (xs ++ (x ∷ l)) (x ∷ (xs ++ l))
middle-Permᴰ x [] l = Permᴰ.refl (x ∷ l)
middle-Permᴰ x (y ∷ xs) l =
    Permᴰ.trans (Permᴰ.cons refl (middle-Permᴰ x xs l)) (Permᴰ.swap refl refl)

append-Permᴰ :
    (xs : List FileSearchResult) {l m : List FileSearchResult}
    → Permᴰ l m
    → Permᴰ (xs ++ l) (xs ++ m)
append-Permᴰ [] p = p
append-Permᴰ (x ∷ xs) p = Permᴰ.cons refl (append-Permᴰ xs p)

pub insert_all-Permᴰ : (xs l : List FileSearchResult) → Permᴰ (insert_all xs l) (xs ++ l)
unfolding insert_all
insert_all-Permᴰ [] l = Permᴰ.refl l
insert_all-Permᴰ (x ∷ xs) l =
    Permᴰ.trans (insert_all-Permᴰ xs (insert x l))
      (Permᴰ.trans (append-Permᴰ xs (insert-Permᴰ x l)) (middle-Permᴰ x xs l))
