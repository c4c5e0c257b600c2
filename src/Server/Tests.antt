-- ===== src/Server/Tests.antt =====
-- The session bindings on a small example.
use xktmcp.Prelude.{
  true, ℕ, ◌+◌, ◌≤◌, ◌≡◌, ◌≢◌, refl, none, false, some, List, [], ◌∷◌, nat_eq, list_eq, pair_eq,
  length,
}
use xktmcp.Prelude.Int.{pos}
use xktmcp.Prelude.Text.{codes}
use xktmcp.Lru.Table.{find, assign, move_to_front, remove, push_front, remove_oldest, evict}
use xktmcp.Server.Sessions
use xktmcp.Server.Sessions.{
  Identity, Key, Bindings, Binding, new_bindings, equal, rebind, bind_new, size,
}
use xktmcp.Server.Sessions.Access.{IsValid, view}
use xktmcp.Server.Sessions.Runs.{
  Call, bind, matches, perform, after, after-IsValid, new-IsValid, size-bindings_after,
}
use xktmcp.Prelude.Text.{trim_space}
use xktmcp.Prelude.{◌⊎◌, ◌++◌, All}
use xktmcp.Server.Streamable
use xktmcp.Server.Streamable.{
  Sent, flushed, refused, Writer, streamable, new_writer, Action, on_write, on_flush, serve,
  middleware, admit, admitted, settle,
}
use xktmcp.Server.Streamable.Silence.{blocked_silent, write_header-HeldAt, hijack_refused}
use xktmcp.Server.Sessions.Held.{HeldAt}
use xktmcp.Server.Sessions.Holders.{latest, matches-latest, live_refuses_others}

abbrev session : Key
session = (codes "sse", codes "s1")

abbrev alice : Identity
alice = some (1 ∷ 2 ∷ [])

abbrev mallory : Identity
mallory = some (6 ∷ 6 ∷ [])

abbrev new : Bindings
new = new_bindings (pos 2) (pos 100)

abbrev history : List Call
history =
    matches 60 session mallory
    ∷ matches 50 session alice
    ∷ bind 20 (codes "sse", codes "s2") mallory none
    ∷ bind 10 session alice (some 7)
    ∷ []

size-bindings_after_example :
    (size (after history new) ≡ length (after history new).table.lru)
    × (size (after history new) ≤ 2)
size-bindings_after_example = size-bindings_after (pos 2) (pos 100) history

matches-latest_example :
    (alice ≢ none)
    × ((seen : ℕ) × (latest new session history ≡ some (alice, seen)) × (140 ≤ seen + 100))
unfolding new_bindings perform after Sessions.matches Sessions.bind rebind bind_new equal find
    assign move_to_front remove push_front remove_oldest evict
matches-latest_example = matches-latest (pos 2) (pos 100) history 140 session alice refl

abbrev held : Bindings
held = after history new

live_refuses_others_example :
    ((Sessions.bind 100 session mallory none held).1 ≡ false)
    × (view (Sessions.bind 100 session mallory none held).0 ≡ view held)
    × ((Sessions.matches 100 session mallory held).1 ≡ false)
    × (view (Sessions.matches 100 session mallory held).0 ≡ view held)
unfolding new_bindings perform after Sessions.matches Sessions.bind rebind bind_new equal find
    assign move_to_front remove push_front remove_oldest evict
live_refuses_others_example =
    live_refuses_others held 100 session mallory none
      (record { identity = alice; last_active = 50; cancel = some 7 })
      (after-IsValid history new (new-IsValid (pos 2) (pos 100))) refl refl (λ p. cc)

abbrev web : Key
web = streamable (codes "w1")

abbrev bound : Bindings
bound = after (bind 10 web alice none ∷ []) new

bound-IsValid : IsValid bound
bound-IsValid = after-IsValid (bind 10 web alice none ∷ []) new (new-IsValid (pos 2) (pos 100))

abbrev hijacked : Writer
hijacked =
    Streamable.write_header 20 200
      (record (new_writer (some mallory) [] bound) { session_header = codes "w1" })

blocked_silent_example :
    ((news : List Sent) × ((serve (on_write 21 (codes "secret") ∷ on_flush 22 ∷ []) hijacked).sent
        ≡ news ++ (refused 403 ∷ []))
      × All (λ s. s ≡ flushed) news)
    × ((serve (on_write 21 (codes "secret") ∷ on_flush 22 ∷ []) hijacked).bindings
        ≡ hijacked.bindings)
unfolding new_bindings perform after Sessions.matches Sessions.bind rebind bind_new equal find
    assign move_to_front remove push_front remove_oldest evict Streamable.write_header admitted
    admit settle new_writer trim_space
blocked_silent_example =
    blocked_silent (on_write 21 (codes "secret") ∷ on_flush 22 ∷ []) hijacked refl refl

write_header-HeldAt_example :
    let w = record (new_writer (some alice) [] bound) { session_header = codes "w2 " } in
    ((Streamable.write_header 20 200 w).blocked ≡ true)
    ⊎ ((identity : Identity) × (some alice ≡ some identity)
        × HeldAt 20
            (streamable (codes "w2"))
            identity
            (view (Streamable.write_header 20 200 w).bindings))
unfolding new_writer trim_space
write_header-HeldAt_example =
    write_header-HeldAt 20 200
      (record (new_writer (some alice) [] bound) { session_header = codes "w2 " }) bound-IsValid
      refl (λ p. cc)

hijack_refused_example :
    let r =
      middleware 20
        (codes "DELETE")
        (some mallory)
        (codes "w1")
        (on_write 21 (codes "x") ∷ [])
        bound in
    (r.sent ≡ refused 403 ∷ []) × (view r.bindings ≡ view bound)
unfolding new_bindings perform after Sessions.matches Sessions.bind rebind bind_new equal find
    assign move_to_front remove push_front remove_oldest evict trim_space
hijack_refused_example =
    hijack_refused 20 (codes "DELETE") (codes "w1") (some mallory) (on_write 21 (codes "x") ∷ [])
      bound (record { identity = alice; last_active = 10; cancel = none }) bound-IsValid (λ p. cc)
      refl refl (λ p. cc)
