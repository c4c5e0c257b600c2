-- ===== src/Lru.antt =====
-- Go's idiom for a bounded map in order of use: a map from keys to elements of a container/list
-- (internal/auth/cache.go, internal/auth/auth.go, internal/tools/cache.go, cmd/server/main.go).
-- `Assoc` is association lists, `Nodes` the linked list and `Table` the two together, with the
-- invariant that links them; `Laws` says what each step does to the entries in order of use.
pub mod Assoc
pub mod Nodes
pub mod Table
pub mod Laws
pub mod Evict
pub mod Backward
pub mod Sweep
pub mod Spec
pub mod Put
