-- ===== src/Auth/Serve.antt =====
-- internal/auth/auth.go: what happens to a request once it is authenticated (serveAuthenticated), the
-- reading of its body, and the tools that a tenant may call. The handler behind is what gets a
-- `served` reply; sha256 is a parameter.
pub mod Governed
use xktmcp.Prelude.{
  ℕ, ◌*◌, Bool, true, false, not, ◌&&◌, ◌||◌, Option, none, some, List, [], ◌∷◌, ◌++◌, ltb, ◌==◌,
  ◌⊎◌, inl, inr, nat_eq, list_eq, if◌then◌else◌, length,
}
use xktmcp.Prelude.Text.{Text, codes, trim_space}
use xktmcp.Server.Sessions.{Identity}
use xktmcp.Trace
use xktmcp.Trace.{user_id_from_context, with_authenticated_user_id}
use xktmcp.Auth.Rpc.{Json, Rpc, tools_call, inspect_rpc, bind_principal}

-- The request's context: that of the package trace, and the keys of this package.
pub record Context : Type 0 where
  pub traced : Trace.Context
  pub session_identity : Option Identity
  pub allowed_tools : Option (List Text)
  pub user_id : Option Text

-- newSessionIdentity
unfoldable pub new_session_identity : (Text → Text) → Text → Text → Identity
new_session_identity sha256 mode credential = some (sha256 (mode ++ (0 ∷ credential)))

-- SessionIdentityFromContext, for a context that is not nil; `none` is `false`.
unfoldable pub session_identity_from_context : Context → Option Identity
session_identity_from_context ctx = elim ctx.session_identity [
  | none ↦ none
  | some id ↦ elim id [ none ↦ none | some digest ↦ some (some digest) ]
]

-- UserIDFromCtx
unfoldable pub user_id_from_ctx : Context → Text
user_id_from_ctx ctx = elim ctx.user_id [ none ↦ [] | some v ↦ v ]

unfoldable pub is_tool_allowed : Text → List Text → Bool
is_tool_allowed tool [] = false
is_tool_allowed tool (item ∷ allowed) =
    item == codes "*" || item == tool || is_tool_allowed tool allowed

-- TenantToolAllowed
unfoldable pub tenant_tool_allowed : Context → Text → Bool
unfolding is_tool_allowed
tenant_tool_allowed ctx tool = elim ctx.allowed_tools [
  | none ↦ true
  | some allowed ↦ is_tool_allowed tool allowed
]

-- authenticationDecision, less its mode; of a tenant the list of its tools.
pub record Decision : Type 0 where
  pub principal : Text
  pub tenant : Option (List Text)
  pub session_identity : Option Identity

-- What the handler reads as the body: the request's own, or another one.
pub data Passed : Type 0 where
  untouched : Passed
  replaced : Text → Passed

pub data Reply : Type 0 where
  refused : ℕ → Reply
  served : Context → Passed → Reply

abbrev pub max_body_bytes : ℕ
max_body_bytes = 4194304

-- readRequestBody: the body, and what the request has for one from then on. A body is nil, fails to be
-- read, or has its bytes.
unfoldable pub read_request_body : Text → Option (Option Text) → Reply ⊎ (Text × Passed)
read_request_body method none = inr ([], untouched)
read_request_body method (some body) =
    if not (method == codes "POST") then inr ([], untouched) else elim body [
      | none ↦ inl (refused 400)
      | some bytes ↦
          if ltb max_body_bytes (length bytes)
          then inl (refused 413)
          else inr (bytes, replaced bytes)
    ]

-- The context with the decision's session identity and tools.
unfoldable pub with_decision : Decision → Context → Context
with_decision d ctx = record ctx {
  session_identity = (elim d.session_identity [ none ↦ ctx.session_identity | some id ↦ some id ]);
  allowed_tools = (elim d.tenant [ none ↦ ctx.allowed_tools | some tools ↦ some tools ]);
}

-- The context with the principal; `none` is the conflict with the routed user.
unfoldable pub with_principal : Text → Context → Option Context
unfolding user_id_from_context with_authenticated_user_id trim_space
with_principal principal ctx =
    if principal == []
    then some ctx
    else if not (trim_space (user_id_from_context (some ctx.traced)) == [])
        && not (trim_space (user_id_from_context (some ctx.traced)) == principal)
    then none
    else some (record ctx { traced = with_authenticated_user_id ctx.traced principal })

-- if decision.tenant != nil && rpc.method == "tools/call", with the test of the tool
unfoldable pub tool_denied : Option (List Text) → Rpc → Bool
unfolding is_tool_allowed
tool_denied none rpc = false
tool_denied (some tools) rpc =
    rpc.method == tools_call && (rpc.tool_name == [] || not (is_tool_allowed rpc.tool_name tools))

module _ (json : Json) where
  -- From the test of the principal on, for a request that was read.
  unfoldable pub serve_rpc : Decision → Context → Text → Rpc → Reply
  unfolding bind_principal tool_denied
  serve_rpc d ctx body rpc =
      if tool_denied d.tenant rpc
      then refused 401
      else if not (d.principal == []) && rpc.method == tools_call
      then (if not (rpc.requested_user == []) && not (rpc.requested_user == d.principal)
          then refused 403
          else elim (bind_principal json d.principal rpc) [
            | none ↦ refused 400
            | some bound ↦ served ctx (replaced bound)
          ])
      else served ctx (replaced body)

  -- From the test of the method on.
  unfoldable pub serve_body : Decision → Text → Text → Passed → Context → Reply
  unfolding inspect_rpc serve_rpc
  serve_body d method body passed ctx =
      if not (method == codes "POST") || body == [] then served ctx passed else elim d.tenant [
        | none ↦
            if d.principal == [] then served ctx (replaced body) else elim (inspect_rpc json body) [
              | none ↦ refused 400
              | some rpc ↦ serve_rpc d ctx body rpc
            ]
        | some tools ↦ elim (inspect_rpc json body) [
          | none ↦ refused 400
          | some rpc ↦ serve_rpc d ctx body rpc
        ]
      ]

  unfoldable pub serve_authenticated : Decision → Text → Text → Passed → Context → Reply
  unfolding with_decision with_principal serve_body
  serve_authenticated d method body passed ctx =
      elim (with_principal d.principal (with_decision d ctx)) [
        | none ↦ refused 403
        | some c ↦ serve_body d method body passed c
      ]
