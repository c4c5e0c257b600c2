-- ===== src/Lru/Nodes.antt =====
-- A container/list whose elements carry their key. An element's address is a number, so that a
-- pointer to an element is its address; the front of the list comes first.
use xktmcp.Prelude.{
  zero, suc, ap, take, ==-refl, ℕ, ◌+◌, ◌<◌, ◌≡◌, ◌≢◌, refl, Option, none, some, List, [], ◌∷◌,
  arith, Eq, ◌==◌, if◌then◌else◌, nat_beq, length, Bool-cases, inl, inr,
}
use xktmcp.Lru.Assoc.{lookup, without, IsMap}

abbrev pub Node : Type 0 → Type 0 → Type 0
Node K V = ℕ × K × V

module _ {K V : Type 0} where
  -- What a pointer points to.
  abbrev pub deref : ℕ → List (Node K V) → Option (K × V)
  deref a [] = none
  deref a ((b, k, v) ∷ l) = if nat_beq b a then some (k, v) else deref a l

  -- l.Remove(el)
  abbrev pub unlink : ℕ → List (Node K V) → List (Node K V)
  unlink a [] = []
  unlink a ((b, k, v) ∷ l) = if nat_beq b a then l else (b, k, v) ∷ unlink a l

  -- l.Back()
  abbrev pub back : List (Node K V) → Option (Node K V)
  back [] = none
  back (n ∷ []) = some n
  back (n ∷ n' ∷ l) = back (n' ∷ l)

  -- Assignment to a field of the value behind a pointer.
  abbrev pub write : ℕ → V → List (Node K V) → List (Node K V)
  write a w [] = []
  write a w ((b, k, v) ∷ l) = if nat_beq b a then (b, k, w) ∷ l else (b, k, v) ∷ write a w l

  -- The entries from the most to the least recently used.
  abbrev pub entries_of : List (Node K V) → List (K × V)
  entries_of [] = []
  entries_of ((a, k, v) ∷ l) = (k, v) ∷ entries_of l

  abbrev pub Below : ℕ → List (Node K V) → Type 0
  Below n [] = Unit
  Below n ((a, k, v) ∷ l) = (a < n) × Below n l

  pub deref-Below_fresh : (n : ℕ) (l : List (Node K V)) → Below n l → deref n l ≡ none
  deref-Below_fresh n [] h = refl
  deref-Below_fresh n ((b, k, v) ∷ l) h = ground (arith, deref-Below_fresh n l)

  pub deref-unlink_absent :
      (a b : ℕ) (l : List (Node K V)) → deref b l ≡ none → deref b (unlink a l) ≡ none
  deref-unlink_absent a b [] h = refl
  deref-unlink_absent a b ((c, k, v) ∷ l) h = ground (arith, deref-unlink_absent a b l)

  pub unlink-Below : (n a : ℕ) (l : List (Node K V)) → Below n l → Below n (unlink a l)
  unlink-Below n a [] h = tt
  unlink-Below n a ((c, k, v) ∷ l) h = ground (arith, unlink-Below n a l)

  pub Below-suc : (n : ℕ) (l : List (Node K V)) → Below n l → Below (n + 1) l
  Below-suc n [] h = tt
  Below-suc n ((c, k, v) ∷ l) h = (omega arith, Below-suc n l h.1)

  pub deref-Below :
      (n a : ℕ) {m : K × V} (l : List (Node K V)) → deref a l ≡ some m → Below n l → a < n
  deref-Below n a [] p h = cc
  deref-Below n a {m} ((c, k, v) ∷ l) p h = ground (arith, deref-Below n a {m = m} l)

  deref-write_absent :
      (a b : ℕ) (w : V) (l : List (Node K V)) → deref b l ≡ none → deref b (write a w l) ≡ none
  deref-write_absent a b w [] h = refl
  deref-write_absent a b w ((c, k, v) ∷ l) h = ground (arith, deref-write_absent a b w l)

  pub deref-write :
      (k : K) (a : ℕ) (v w : V) (l : List (Node K V))
      → deref a l ≡ some (k, v)
      → deref a (write a w l) ≡ some (k, w)
  deref-write k a v w [] h = cc
  deref-write k a v w ((c, j, u) ∷ l) h = ground (arith, deref-write k a v w l)

  pub write-Below : (n a : ℕ) (w : V) (l : List (Node K V)) → Below n l → Below n (write a w l)
  write-Below n a w [] h = tt
  write-Below n a w ((c, k, v) ∷ l) h = ground (arith, write-Below n a w l)

  pub length-write : (a : ℕ) (w : V) (l : List (Node K V)) → length (write a w l) ≡ length l
  length-write a w [] = refl
  length-write a w ((c, k, v) ∷ l) = ground (arith, length-write a w l)

module _ {K V : Type 0} ⦃e : Eq K⦄ where
  -- The address of the element with a key.
  abbrev pub address_of : K → List (Node K V) → Option ℕ
  address_of k [] = none
  address_of k ((a, j, v) ∷ l) = if j == k then some a else address_of k l

  -- No address and no key stands twice.
  abbrev pub Distinct : List (Node K V) → Type 0
  Distinct [] = Unit
  Distinct ((a, k, v) ∷ l) = (deref a l ≡ none) × (address_of k l ≡ none) × Distinct l

  pub deref-address_of :
      (k : K) (a : ℕ) (l : List (Node K V)) → address_of k l ≡ some a → deref a l ≢ none
  deref-address_of k a [] h = cc
  deref-address_of k a ((b, j, v) ∷ l) h = ground (arith, deref-address_of k a l)

  -- A pointer found by its key points to that key's entry.
  pub deref-lookup :
      (k : K) (a : ℕ) (v : V) (l : List (Node K V))
      → Distinct l
      → address_of k l ≡ some a
      → lookup k (entries_of l) ≡ some v
      → deref a l ≡ some (k, v)
  deref-lookup k a v [] d h g = cc
  deref-lookup k a v ((b, j, w) ∷ l) d h g =
      ground (arith, deref-lookup k a v l, deref-address_of k a l, e.same_iff j k)

  pub entries-unlink :
      (k : K) (a : ℕ) (l : List (Node K V))
      → Distinct l
      → address_of k l ≡ some a
      → entries_of (unlink a l) ≡ without k (entries_of l)
  entries-unlink k a [] d h = refl
  entries-unlink k a ((b, j, w) ∷ l) d h =
      ground (arith, entries-unlink k a l, deref-address_of k a l)

  pub address_of-unlink_absent :
      (a : ℕ) (k : K) (l : List (Node K V))
      → address_of k l ≡ none
      → address_of k (unlink a l) ≡ none
  address_of-unlink_absent a k [] h = refl
  address_of-unlink_absent a k ((b, j, w) ∷ l) h = ground (arith, address_of-unlink_absent a k l)

  pub address_of-unlink :
      (k j : K) (a : ℕ) (l : List (Node K V))
      → Distinct l
      → address_of k l ≡ some a
      → address_of j (unlink a l) ≡ (if k == j then none else address_of j l)
  address_of-unlink k j a [] d h = cc
  address_of-unlink k j a ((b, i, w) ∷ l) d h = ground (
    arith,
    address_of-unlink k j a l,
    deref-address_of k a l,
    e.same_iff i k,
    e.same_iff i j,
    e.same_iff k j,
  )

  pub unlink-Distinct : (a : ℕ) (l : List (Node K V)) → Distinct l → Distinct (unlink a l)
  unlink-Distinct a [] d = tt
  unlink-Distinct a ((b, i, w) ∷ l) d = ground (
    arith,
    unlink-Distinct a l d.2,
    deref-unlink_absent a b l d.0,
    address_of-unlink_absent a i l d.1,
  )

  pub length-unlink :
      (k : K) (a : ℕ) (l : List (Node K V))
      → address_of k l ≡ some a
      → length (unlink a l) + 1 ≡ length l
  length-unlink k a [] h = cc
  length-unlink k a ((b, i, w) ∷ l) h = ground (arith, length-unlink k a l)

  -- A key has an address exactly when it has an entry.
  pub address_of-none :
      (k : K) (l : List (Node K V)) → address_of k l ≡ none → lookup k (entries_of l) ≡ none
  address_of-none k [] h = refl
  address_of-none k ((b, i, w) ∷ l) h = ground (arith, address_of-none k l)

  pub address_of-some :
      (k : K) (a : ℕ) (l : List (Node K V))
      → address_of k l ≡ some a
      → (v : V) × (lookup k (entries_of l) ≡ some v)
  address_of-some k a [] h = cc
  address_of-some k a ((b, i, w) ∷ l) h = elim (Bool-cases (i == k)) [
    | inl e ↦ (w, rw e)
    | inr e ↦ let (v, p) = address_of-some k a l (rw e at h) in (v, rw e p)
  ]

  pub entries-IsMap : (l : List (Node K V)) → Distinct l → IsMap (entries_of l)
  entries-IsMap [] d = tt
  entries-IsMap ((b, i, w) ∷ l) d = (address_of-none i l d.1, entries-IsMap l d.2)

  pub deref-unlink : (a : ℕ) (l : List (Node K V)) → Distinct l → deref a (unlink a l) ≡ none
  deref-unlink a [] d = refl
  deref-unlink a ((b, i, w) ∷ l) d = ground (arith, deref-unlink a l)

  pub address_of-write :
      (k : K) (a : ℕ) (w : V) (l : List (Node K V)) → address_of k (write a w l) ≡ address_of k l
  address_of-write k a w [] = refl
  address_of-write k a w ((b, i, u) ∷ l) = ground (arith, address_of-write k a w l)

  pub write-Distinct : (a : ℕ) (w : V) (l : List (Node K V)) → Distinct l → Distinct (write a w l)
  write-Distinct a w [] d = tt
  write-Distinct a w ((b, i, u) ∷ l) d =
      ground
        (arith, write-Distinct a w l d.2, deref-write_absent a b w l d.0, address_of-write i a w l)

  pub lookup-write :
      (k : K) (a : ℕ) (w : V) (l : List (Node K V))
      → Distinct l
      → address_of k l ≡ some a
      → lookup k (entries_of (write a w l)) ≡ some w
  lookup-write k a w [] d h = cc
  lookup-write k a w ((b, i, u) ∷ l) d h =
      ground (arith, lookup-write k a w l, deref-address_of k a l)

  pub without-write :
      (k : K) (a : ℕ) (w : V) (l : List (Node K V))
      → Distinct l
      → address_of k l ≡ some a
      → without k (entries_of (write a w l)) ≡ without k (entries_of l)
  without-write k a w [] d h = refl
  without-write k a w ((b, i, u) ∷ l) d h =
      ground (arith, without-write k a w l, deref-address_of k a l)

  -- The element at the back is the last entry, and its key finds it.
  pub record IsOldest (n : ℕ) (l : List (Node K V)) (a : ℕ) (k : K) (v : V) : Type 0 where
    pub last : back l ≡ some (a, k, v)
    pub at : address_of k l ≡ some a
    pub entry : lookup k (entries_of l) ≡ some v
    pub rest : without k (entries_of l) ≡ take n (entries_of l)

  pub back_IsOldest :
      (n : ℕ) (l : List (Node K V))
      → Distinct l
      → length l ≡ suc n
      → (a : ℕ) × (k : K) × (v : V) × IsOldest n l a k v
  back_IsOldest n [] d h = absurd (omega arith)
  back_IsOldest zero ((b, i, w) ∷ []) d h = (
    b,
    i,
    w,
    record {
      last = refl;
      at = ground (arith, ==-refl i);
      entry = ground (arith, ==-refl i);
      rest = ground (arith, ==-refl i);
    },
  )
  back_IsOldest (suc n) ((b, i, w) ∷ []) d h = absurd (omega arith)
  back_IsOldest zero (m ∷ (c, j, u) ∷ l) d h = absurd (omega arith)
  back_IsOldest (suc n) ((b, i, w) ∷ (c, j, u) ∷ l) d h =
      let (a, k, v, o) = back_IsOldest n ((c, j, u) ∷ l) d.2 (omega arith) in
      (
        a,
        k,
        v,
        record {
          last = o.last;
          at = ground (arith, o.at, e.same_iff i k, d.1);
          entry = ground (arith, o.at, o.entry, e.same_iff i k, d.1);
          rest = ground (arith, o.at, o.rest, e.same_iff i k, d.1);
        },
      )

  pub length-entries : (l : List (Node K V)) → length (entries_of l) ≡ length l
  length-entries [] = refl
  length-entries (n ∷ l) = ap suc (length-entries l)
