-- ===== src/Server/SseTests.antt =====
-- An SSE stream that opens.
use xktmcp.Prelude.{nat_eq, list_eq, pair_eq, refl, true, none, some, [], ◌∷◌, Option, arith}
use xktmcp.Prelude.Int.{pos}
use xktmcp.Prelude.Text.{Text, codes}
use xktmcp.Server.Sessions
use xktmcp.Server.Sessions.{Identity, Bindings, new_bindings}
use xktmcp.Lru.Table.{find}
use xktmcp.Prelude.{◌≡◌}
use xktmcp.Server.Sse
use xktmcp.Server.Sse.{Writer}
use xktmcp.Server.Sse.Opens.{IsBound, write-IsBound}

abbrev reader : Identity
reader = some (1 ∷ [])

abbrev bindings : Bindings
bindings = new_bindings (pos 2) (pos 100)

abbrev writer : Writer
writer = Sse.new_writer (some reader) none bindings

abbrev echo : Text → Option Text
echo t = some t

abbrev first_event : Text
first_event = codes "event: endpoint\ndata: s1\n\n"

abbrev opened : Writer
opened = Sse.write echo (λ p. true) 10 first_event writer

opened_session : opened.session_id ≡ codes "s1"
unfolding Sse.new_writer Sse.write Sessions.bind new_bindings find
opened_session = refl

write-IsBound_example : IsBound echo 10 first_event [] (some reader) none bindings opened
unfolding Sse.new_writer
write-IsBound_example =
    write-IsBound echo (λ p. true) 10 first_event writer refl (ground (arith, opened_session))
