-- ===== src/Auth/Rpc.antt =====
-- internal/auth/auth.go: what the authenticator reads of a JSON-RPC request, and the user id that it
-- writes into it. encoding/json is a parameter; a json.RawMessage is a text.
pub mod Bound
use xktmcp.Prelude.{
  ℕ, ◌≡◌, Bool, true, false, not, ◌&&◌, ◌||◌, Option, none, some, List, [], ◌∷◌, ◌==◌, nat_eq,
  list_eq, if◌then◌else◌,
}
use xktmcp.Prelude.Text.{Text, codes, trim_space}
use xktmcp.Lru.Assoc.{lookup, without, IsMap}

abbrev pub Object : Type 0
Object = List (Text × Text)

-- `none` is an error; `decode_object` has one for null too.
pub record Json : Type 0 where
  pub decode_object : Text → Option Object
  pub decode_string : Text → Option Text
  pub encode_object : Object → Option Text
  pub encode_string : Text → Option Text

abbrev pub and_then {ℓ κ} : {A : Type ℓ} {B : Type κ} → Option A → (A → Option B) → Option B
and_then none next = none
and_then (some a) next = next a

-- object[key], the empty message where there is none
abbrev pub member : Text → Object → Text
member key object = elim (lookup key object) [ none ↦ [] | some raw ↦ raw ]

-- object[key] = value
abbrev pub set_member : Text → Text → Object → Object
set_member key value object = (key, value) ∷ without key object

pub record Rpc : Type 0 where
  pub method : Text
  pub tool_name : Text
  pub requested_user : Text
  pub envelope : Object
  pub params : Object
  pub arguments : Object

abbrev pub tools_call : Text
tools_call = codes "tools/call"

module _ (json : Json) where
  -- decodeOptionalString
  unfoldable pub optional_string : Object → Text → Option Text
  unfolding trim_space
  optional_string object key = elim (lookup key object) [
    | none ↦ some []
    | some raw ↦ and_then (json.decode_string raw) (λ value. some (trim_space value))
  ]

  -- The arguments of the call, an empty map where it has none.
  unfoldable pub arguments_of : Object → Option Object
  arguments_of params = elim (lookup (codes "arguments") params) [
    | none ↦ some []
    | some raw ↦ json.decode_object raw
  ]

  -- inspectRPC of a call of a tool, from its method on
  unfoldable pub inspect_call : Object → Option Rpc
  unfolding optional_string arguments_of
  inspect_call envelope = and_then (json.decode_object (member (codes "params") envelope)) λ params.
      and_then (optional_string params (codes "name")) λ tool_name.
        and_then (arguments_of params) λ arguments.
          and_then (optional_string arguments (codes "userId")) λ requested_user. some (record {
            method = tools_call;
            tool_name = tool_name;
            requested_user = requested_user;
            envelope = envelope;
            params = params;
            arguments = arguments;
          })

  unfoldable pub inspect_rpc : Text → Option Rpc
  unfolding optional_string inspect_call
  inspect_rpc body = and_then (json.decode_object body) λ envelope.
      and_then (optional_string envelope (codes "method")) λ method.
        if method == []
        then none
        else if not (method == tools_call)
        then some (record {
          method = method;
          tool_name = [];
          requested_user = [];
          envelope = envelope;
          params = [];
          arguments = [];
        })
        else inspect_call envelope

  unfoldable pub bind_principal : Text → Rpc → Option Text
  bind_principal principal rpc = and_then (json.encode_string principal) λ user_id.
      and_then (json.encode_object (set_member (codes "userId") user_id rpc.arguments)) λ arguments.
        and_then (json.encode_object (set_member (codes "arguments") arguments rpc.params))
          λ params. json.encode_object (set_member (codes "params") params rpc.envelope)
