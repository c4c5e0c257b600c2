-- ===== src/Server/Streamable.antt =====
-- cmd/server/main.go: the writer that binds a streamable session when the response names one
-- (streamableBindingWriter), and its middleware. The handler behind the middleware is a parameter:
-- the list of its calls on the writer. No other call on the bindings comes between them.
pub mod Silence
use xktmcp.Prelude.{
  ℕ, Bool, true, false, not, ◌&&◌, ◌||◌, Option, none, some, List, [], ◌∷◌, ◌++◌, leb, ltb, ◌==◌,
  nat_eq, list_eq, if◌then◌else◌,
}
use xktmcp.Prelude.Text.{Text, codes, trim_space}
use xktmcp.Server.Sessions
use xktmcp.Server.Sessions.{Identity, Key, Bindings, bind, matches, delete}

-- What reaches the client: a status line, a body, a flush, or the text of an error with its status.
pub data Sent : Type 0 where
  header : ℕ → Sent
  body : Text → Sent
  flushed : Sent
  refused : ℕ → Sent

-- `session_header` is the value of the response's header Mcp-Session-Id, empty where there is none;
-- `identity` is `none` where the request has no identity.
pub record Writer : Type 0 where
  pub identity : Option Identity
  pub request_session_id : Text
  pub committed : Bool
  pub blocked : Bool
  pub status_code : ℕ
  pub session_header : Text
  pub sent : List Sent
  pub bindings : Bindings

abbrev pub streamable : Text → Key
streamable session_id = (codes "streamable", session_id)

unfoldable pub new_writer : Option Identity → Text → Bindings → Writer
new_writer identity request_session_id bindings = record {
  identity = identity;
  request_session_id = request_session_id;
  committed = false;
  blocked = false;
  status_code = 0;
  session_header = [];
  sent = [];
  bindings = bindings;
}

-- The test of `WriteHeader` on the response's session, for a request with an identity: the bindings
-- after it, and `allowed`.
unfoldable pub admit : ℕ → Text → Identity → Writer → Bindings × Bool
admit now session_id identity w =
    if not (w.request_session_id == [])
    then if session_id == w.request_session_id
      then (
        (matches now (streamable session_id) identity w.bindings).0,
        (matches now (streamable session_id) identity w.bindings).1,
      )
      else (w.bindings, false)
    else (
      (bind now (streamable session_id) identity none w.bindings).0,
      (bind now (streamable session_id) identity none w.bindings).1,
    )

unfoldable pub admitted : ℕ → Text → Writer → Bindings × Bool
unfolding admit
admitted now session_id w = elim w.identity [
  | none ↦ (w.bindings, false)
  | some identity ↦ admit now session_id identity w
]

-- The end of `WriteHeader`, once `allowed` is known.
unfoldable pub settle : ℕ → Bindings × Bool → Writer → Writer
settle status (b, true) w = record w {
  committed = true;
  status_code = status;
  sent = header status ∷ w.sent;
  bindings = b;
}
settle status (b, false) w = record w {
  committed = true;
  blocked = true;
  status_code = 403;
  session_header = [];
  sent = refused 403 ∷ w.sent;
  bindings = b;
}

unfoldable pub write_header : ℕ → ℕ → Writer → Writer
unfolding admitted settle trim_space
write_header now status w =
    if w.committed
    then w
    else if trim_space w.session_header == []
    then record w { committed = true; status_code = status; sent = header status ∷ w.sent }
    else settle status (admitted now (trim_space w.session_header) w) w

-- if !w.committed { w.WriteHeader(http.StatusOK) }
unfoldable pub commit : ℕ → Writer → Writer
unfolding write_header
commit now w = if w.committed then w else write_header now 200 w

unfoldable pub write : ℕ → Text → Writer → Writer
unfolding commit
write now p w = let c = commit now w in if c.blocked then c else record c { sent = body p ∷ c.sent }

unfoldable pub flush : ℕ → Writer → Writer
unfolding commit
flush now w = let c = commit now w in record c { sent = flushed ∷ c.sent }

-- A call of the handler on the writer; `set_session` sets the response's header.
pub data Action : Type 0 where
  set_session : Text → Action
  on_header : ℕ → ℕ → Action
  on_write : ℕ → Text → Action
  on_flush : ℕ → Action

unfoldable pub act : Action → Writer → Writer
unfolding write_header write flush
act (set_session v) w = record w { session_header = v }
act (on_header now status) w = write_header now status w
act (on_write now p) w = write now p w
act (on_flush now) w = flush now w

-- The handler's calls in order.
unfoldable pub serve : List Action → Writer → Writer
unfolding act
serve [] w = w
serve (a ∷ actions) w = serve actions (act a w)

-- The end of the middleware: a session that its client ended is deleted.
unfoldable pub finish : Text → Text → Writer → Writer
finish method session_id w =
    if method == codes "DELETE"
      && not (session_id == [])
      && (w.status_code == 0 || leb 200 w.status_code && ltb w.status_code 300)
    then record w { bindings = delete (streamable session_id) w.bindings }
    else w

-- The test before the handler runs: the bindings after it, and whether the request goes on.
unfoldable pub enter : ℕ → Option Identity → Text → Bindings → Bindings × Bool
enter now identity [] b = (b, true)
enter now none (c ∷ s) b = (b, false)
enter now (some identity) (c ∷ s) b = (
  (matches now (streamable (c ∷ s)) identity b).0,
  (matches now (streamable (c ∷ s)) identity b).1,
)

-- `session` is the value of the request's header Mcp-Session-Id.
unfoldable pub middleware : ℕ → Text → Option Identity → Text → List Action → Bindings → Writer
unfolding trim_space enter new_writer serve finish
middleware now method identity session actions b =
    let entered = enter now identity (trim_space session) b in
    let w = new_writer identity (trim_space session) entered.0 in
    if entered.1
    then finish method (trim_space session) (serve actions w)
    else record w { sent = refused 403 ∷ [] }
