-- ===== src/Server/Sessions.antt =====
-- cmd/server/main.go: which identity holds which MCP session (sessionBindings). `b.now()` is the
-- argument `now`, in nanoseconds. A cancel function is a number; an operation that removes bindings
-- returns them after its result, and `close_removed` gives the calls that follow the unlock.
pub mod Access
pub mod Runs
pub mod Holders
pub mod Held
use xktmcp.Prelude.{
  ℕ, zero, suc, ◌+◌, Bool, true, false, not, ◌&&◌, ◌||◌, Option, none, some, List, [], ◌∷◌, ltb,
  ◌==◌, nat_eq, list_eq, pair_eq, if◌then◌else◌, length,
}
use xktmcp.Prelude.Int.{ℤ, positive_or}
use xktmcp.Prelude.Text.{Text}
use xktmcp.Lru.Nodes.{deref, back}
use xktmcp.Lru.Backward.{backward}
use xktmcp.Lru.Table.{
  Table, empty, len, find, assign, move_to_front, remove, push_front, remove_oldest, evict,
}

-- SessionIdentity: the digest, or nil.
abbrev pub Identity : Type 0
Identity = Option (List ℕ)

-- SessionIdentity.Equal
unfoldable pub equal : Identity → Identity → Bool
equal none other = false
equal (some d) none = false
equal (some d) (some d') = d == d'

-- sessionBindingKey: the transport and the session id.
abbrev pub Key : Type 0
Key = Text × Text

-- sessionBindingEntry, less its key, which the list's node has.
pub record Binding : Type 0 where
  pub identity : Identity
  pub last_active : ℕ
  pub cancel : Option ℕ

pub record Bindings : Type 0 where
  pub table : Table Key Binding
  pub max_entries : ℕ
  pub ttl : ℕ

-- Nanoseconds.
abbrev pub default_idle_ttl : ℕ
default_idle_ttl = 3600000000000

abbrev pub default_max_entries : ℕ
default_max_entries = 10000

unfoldable pub new_bindings : ℤ → ℤ → Bindings
new_bindings max_entries ttl = record {
  table = empty;
  max_entries = positive_or max_entries default_max_entries;
  ttl = positive_or ttl default_idle_ttl;
}

-- now.Sub(entry.lastActive) > ttl
abbrev pub idle : ℕ → ℕ → Binding → Bool
idle ttl now entry = ltb (entry.last_active + ttl) now

abbrev pub Removed : Type 0
Removed = List (Key × Binding)

-- The walk from the back of the list, with what it removes in the order of removal.
unfoldable pub expire : ℕ → ℕ → List (Key × ℕ) → Table Key Binding → Table Key Binding × Removed
expire ttl now [] t = (t, [])
expire ttl now ((k, a) ∷ s) t = elim (deref a t.lru) [
  | none ↦ expire ttl now s t
  | some n ↦
      let gone = expire ttl now s (remove n.0 a t) in
      let kept = expire ttl now s t in if idle ttl now n.1 then (gone.0, n ∷ gone.1) else kept
]

unfoldable pub delete_expired : ℕ → Bindings → Bindings × Removed
unfolding expire
delete_expired now b =
    let done = expire b.ttl now (backward b.table.lru) b.table in
    (record b { table = done.0 }, done.1)

pub data Closing : Type 0 where
  cancel : ℕ → Closing
  close_session : Key → Closing

-- `closes` tells whether `b.closeSession` is set.
unfoldable pub close_removed : Bool → Removed → List Closing
close_removed closes [] = []
close_removed closes ((key, entry) ∷ es) =
    let rest = close_removed closes es in
    elim entry.cancel [
      | some c ↦ cancel c ∷ rest
      | none ↦ if closes then close_session key ∷ rest else rest
    ]

-- What `evict` removes, the oldest first.
unfoldable pub evicted : ℕ → ℕ → Table Key Binding → Removed
evicted zero bound t = []
evicted (suc fuel) bound t =
    let rest = evicted fuel bound (remove_oldest t) in
    if ltb bound (len t) then elim (back t.lru) [ none ↦ rest | some n ↦ (n.1, n.2) ∷ rest ] else []

-- The binding of a key that `bind` finds, at the address `a`.
unfoldable pub rebind : ℕ → Key → Identity → ℕ → Binding → Bindings → Bindings × Bool × Removed
unfolding equal
rebind now key identity a entry b =
    if idle b.ttl now entry
    then (record b { table = remove key a b.table }, false, (key, entry) ∷ [])
    else if equal entry.identity identity
    then (
      record b { table = move_to_front a (assign a (record entry { last_active = now }) b.table) },
      true,
      [],
    )
    else (b, false, [])

-- A key that `bind` does not find.
unfoldable pub bind_new : ℕ → Key → Identity → Option ℕ → Bindings → Bindings × Bool × Removed
unfolding evicted
bind_new now key identity cancels b =
    let entry : Binding = record { identity = identity; last_active = now; cancel = cancels } in
    let pushed : Table Key Binding = push_front key entry b.table in
    (
      record b { table = evict (len pushed) b.max_entries pushed },
      true,
      evicted (len pushed) b.max_entries pushed,
    )

unfoldable pub bind : ℕ → Key → Identity → Option ℕ → Bindings → Bindings × Bool × Removed
unfolding equal rebind bind_new
bind now key identity cancels b =
    if key.1 == [] || not (equal identity identity)
    then (b, false, [])
    else elim (find key b.table) [
      | none ↦ bind_new now key identity cancels b
      | some el ↦ rebind now key identity el.0 el.1 b
    ]

unfoldable pub matches : ℕ → Key → Identity → Bindings → Bindings × Bool × Removed
unfolding equal
matches now key identity b = elim (find key b.table) [
  | none ↦ (b, false, [])
  | some el ↦
      if idle b.ttl now el.1
      then (record b { table = remove key el.0 b.table }, false, (key, el.1) ∷ [])
      else if not (equal el.1.identity identity)
      then (b, false, [])
      else (
        record b {
          table = move_to_front el.0 (assign el.0 (record el.1 { last_active = now }) b.table);
        },
        true,
        [],
      )
]

unfoldable pub delete : Key → Bindings → Bindings
delete key b = elim (find key b.table) [
  | none ↦ b
  | some el ↦ record b { table = remove key el.0 b.table }
]

-- The size of the map.
unfoldable pub size : Bindings → ℕ
size b = length b.table.items
