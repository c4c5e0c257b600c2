-- ===== src/Server/Sse.antt =====
-- cmd/server/main.go: the writer that binds an SSE session when the response names it in its first event
-- (sseEndpointBindingWriter), and its middleware. The handler behind is the list of its calls on the
-- writer; `endpoint_of` stands for url.Parse and the query parameter sessionid.
pub mod Opens
use xktmcp.Prelude.Text.{trim_space, codes, has_prefix, Text}
use xktmcp.Prelude.{
  length, ltb, ◌+◌, ◌++◌, ◌&&◌, not, List, ◌==◌, ◌||◌, Bool, if◌then◌else◌, Option, nat_eq, list_eq,
  ℕ, [], ◌∷◌, true, false, some, none, reverse, drop,
}
use xktmcp.Prelude.Split.{split}
use xktmcp.Server.Sessions.{Identity, Key, Bindings, bind, matches, delete}
use xktmcp.Server.Streamable.{Sent, header, body, flushed, refused}

abbrev pub max_event_bytes : ℕ
max_event_bytes = 4096

abbrev pub sse : Text → Key
sse session_id = (codes "sse", session_id)

-- sseEndpointBindingWriter, with what reached the client, the latest first
pub record Writer : Type 0 where
  pub identity : Option Identity
  pub cancel : Option ℕ
  pub buffer : Text
  pub status_code : ℕ
  pub session_id : Text
  pub ready : Bool
  pub blocked : Bool
  pub sent : List Sent
  pub bindings : Bindings

unfoldable pub new_writer : Option Identity → Option ℕ → Bindings → Writer
new_writer identity cancel bindings = record {
  identity = identity;
  cancel = cancel;
  buffer = [];
  status_code = 0;
  session_id = [];
  ready = false;
  blocked = false;
  sent = [];
  bindings = bindings;
}

unfoldable pub write_header : ℕ → Writer → Writer
write_header status w =
    if w.blocked || w.ready || not (w.status_code == 0)
    then w
    else record w { status_code = status }

unfoldable pub reject : Writer → Writer
reject w = record w { blocked = true; buffer = []; sent = refused 500 ∷ w.sent }

-- writeResponse; `accepts` says if the connection takes the text in full.
unfoldable pub write_response : (Text → Bool) → Text → Writer → Writer
write_response accepts p w =
    if accepts p
    then record w { sent = body p ∷ w.sent }
    else record w { blocked = true; ready = false; buffer = [] }

unfoldable pub flush : Writer → Writer
flush w = if w.blocked || not w.ready then w else record w { sent = flushed ∷ w.sent }

-- commitStatus
unfoldable pub commit_status : Writer → Writer
commit_status w =
    let status = (if w.status_code == 0 then 200 else w.status_code) in
    record w { status_code = status; sent = header status ∷ w.sent }

-- bytes.HasSuffix
abbrev pub has_suffix : Text → Text → Bool
has_suffix s suffix = has_prefix (reverse s) (reverse suffix)

-- hasSSEEventBoundary
unfoldable pub has_event_boundary : Text → Bool
unfolding has_prefix
has_event_boundary event = has_suffix event (codes "\n\n") || has_suffix event (codes "\r\n\r\n")

-- strings.ReplaceAll(event, "\r\n", "\n")
unfoldable pub normalized : Text → Text
normalized [] = []
normalized (c ∷ []) = c ∷ []
normalized (c ∷ d ∷ s) =
    let joined = normalized s in
    let rest = normalized (d ∷ s) in if c == 13 && d == 10 then 10 ∷ joined else c ∷ rest

abbrev pub trim_boundary : Text → Text
trim_boundary s = if has_suffix s (codes "\n\n") then reverse (drop 2 (reverse s)) else s

-- What parseSSEEndpointSessionID reads of the lines: the name, the data and how many lines have data.
unfoldable pub event_fields : List Text → Text × Text × ℕ → Text × Text × ℕ
unfolding has_prefix trim_space
event_fields [] st = st
event_fields (line ∷ lines) st =
    if has_prefix line (codes "event:")
    then event_fields lines (trim_space (drop 6 line), st.1, st.2)
    else if has_prefix line (codes "data:")
    then event_fields lines (st.0, trim_space (drop 5 line), st.2 + 1)
    else event_fields lines st

module _ (endpoint_of : Text → Option Text) where
  -- parseSSEEndpointSessionID
  unfoldable pub parse_session_id : Text → Option Text
  unfolding normalized event_fields has_prefix trim_space split
  parse_session_id event =
      let fields = event_fields (split 10 (trim_boundary (normalized event))) ([], [], 0) in
      if not (fields.0 == codes "endpoint") || fields.1 == [] || not (fields.2 == 1)
      then none
      else elim (endpoint_of fields.1) [
        | none ↦ none
        | some id ↦ if trim_space id == [] then none else some (trim_space id)
      ]

  module _ (accepts : Text → Bool) (now : ℕ) where
    -- The end of Write once the session is bound: `rest` is what follows the event.
    unfoldable pub open_session : Text → Text → Text → Writer → Writer
    unfolding commit_status write_response
    open_session session_id event rest w =
        let named : Writer = record w { session_id = session_id } in
        let told = write_response accepts event (commit_status named) in
        let opened : Writer = record told { buffer = []; ready = true } in
        if told.blocked
        then told
        else if rest == []
        then opened
        else write_response accepts rest opened

    -- Write from the end of the first event on.
    unfoldable pub end_event : Text → Text → Writer → Writer
    unfolding parse_session_id reject bind open_session
    end_event event rest w = elim (parse_session_id event) [
      | none ↦ reject w
      | some session_id ↦ elim w.identity [
        | none ↦ reject w
        | some identity ↦
            let bound = bind now (sse session_id) identity w.cancel w.bindings in
            let after : Writer = record w { bindings = bound.0 } in
            if bound.1 then open_session session_id event rest after else reject after
      ]
    ]

    -- The loop of Write.
    unfoldable pub write_bytes : Text → Writer → Writer
    unfolding has_event_boundary reject end_event
    write_bytes [] w = w
    write_bytes (b ∷ p) w =
        let event = w.buffer ++ (b ∷ []) in
        let longer : Writer = record w { buffer = event } in
        let rest = write_bytes p longer in
        if ltb max_event_bytes (length event)
        then reject longer
        else if not (has_event_boundary event)
        then rest
        else end_event event p longer

    unfoldable pub write : Text → Writer → Writer
    unfolding write_response write_bytes
    write p w =
        if w.blocked then w else if w.ready then write_response accepts p w else write_bytes p w

-- What follows next.ServeHTTP in sseSessionBindingMiddleware: a stream without an endpoint event is
-- rejected, and the session of the stream ends.
unfoldable pub finish : Writer → Writer
unfolding reject delete
finish w =
    let closed = (if not w.ready && not w.blocked then reject w else w) in
    if closed.session_id == []
    then closed
    else record closed { bindings = delete (sse closed.session_id) closed.bindings }

-- The test of a POST request in sseSessionBindingMiddleware; `none` is "Forbidden".
unfoldable pub enter_post : ℕ → Text → Option Identity → Bindings → Option Bindings
unfolding trim_space matches
enter_post now query_session identity bindings =
    let session_id = trim_space query_session in
    elim identity [
      | none ↦ none
      | some id ↦
          if session_id == []
          then none
          else if (matches now (sse session_id) id bindings).1
          then some (matches now (sse session_id) id bindings).0
          else none
    ]
