-- ===== src/Auth/Rpc/Bound.antt =====
-- The request that a handler gets names the authenticated user.
use xktmcp.Prelude.{
  list_beq_iff, ◌∙◌, [], refl, Bool-cases, ◌≡◌, inl, inr, false, Option, none, some, arith, ◌==◌,
  nat_eq, list_eq, Option-cases, ==-refl,
}
use mathlib.Core.Path.{subst}
use mathlib.Core.Option.{some-injective}
use xktmcp.Prelude.Text.{trim_space, codes, Text}
use xktmcp.Lru.Assoc.{lookup, IsMap, lookup-without}
use xktmcp.Auth.Rpc
use xktmcp.Auth.Rpc.{
  [], trim_space, codes, Json, Object, Rpc, and_then, member, set_member, tools_call,
}

abbrev pub mapped : (Text → Text) → Option Text → Option Text
mapped f none = none
mapped f (some t) = some (f t)

-- What is used of encoding/json: a decoded object has each key once; an encoded object decodes to the
-- members that it had, each in compact form; what Marshal writes is compact; and an encoded string
-- decodes to itself, compact or not.
pub record IsJson (json : Json) : Type 0 where
  pub compact : Text → Text
  pub decoded_keys : (raw : Text) (m : Object) → json.decode_object raw ≡ some m → IsMap m
  pub object_again :
      (m : Object) (raw : Text)
      → json.encode_object m ≡ some raw
      → (n : Object) × (json.decode_object raw ≡ some n)
        × ((key : Text) → lookup key n ≡ mapped compact (lookup key m))
  pub compact_object :
      (m : Object) (raw : Text) → json.encode_object m ≡ some raw → compact raw ≡ raw
  pub compact_string : (s raw : Text) → json.encode_string s ≡ some raw → compact raw ≡ raw
  pub string_of_compact : (raw : Text) → json.decode_string (compact raw) ≡ json.decode_string raw
  pub string_again :
      (s raw : Text) → json.encode_string s ≡ some raw → json.decode_string raw ≡ some s

module _ (json : Json) (laws : IsJson json) where
  -- A member that is set is found after encoding and decoding, and no other one changes its text.
  record Again (m : Object) (key value raw : Text) : Type 0 where
    object : Object
    decoded : json.decode_object raw ≡ some object
    member_set : lookup key object ≡ some value
    others :
        (other : Text)
        → (key == other) ≡ false
        → Rpc.optional_string json object other ≡ Rpc.optional_string json m other

  set_member-Again :
      (m : Object) (key value raw : Text)
      → IsMap m
      → laws.compact value ≡ value
      → json.encode_object (set_member key value m) ≡ some raw
      → Again m key value raw
  unfolding Rpc.optional_string
  set_member-Again m key value raw keys tight e =
      let (n, d, same) = laws.object_again (set_member key value m) raw e in
      record {
        object = n;
        decoded = d;
        member_set = ground (arith, same key, ==-refl key, tight);
        others = λ other differ. elim (Option-cases (lookup other m)) [
          | inl p ↦ ground (arith, same other, differ, lookup-without key other m keys, p)
          | inr (v, p) ↦ ground (
            arith,
            same other,
            differ,
            lookup-without key other m keys,
            p,
            laws.string_of_compact v,
          )
        ];
      }

and_then-some :
    {A B : Type 0} (o : Option A) (next : A → Option B) (b : B)
    → and_then o next ≡ some b
    → (a : A) × (o ≡ some a) × (next a ≡ some b)
and_then-some none next b e = absurd (ground (arith, e))
and_then-some (some a) next b e = (a, refl, e)

module _ (json : Json) (laws : IsJson json) where
  -- What is known of a request that was read as a call of a tool.
  pub record IsCall (rpc : Rpc) : Type 0 where
    method_is : rpc.method ≡ tools_call
    method_in : Rpc.optional_string json rpc.envelope (codes "method") ≡ some tools_call
    name_in : Rpc.optional_string json rpc.params (codes "name") ≡ some rpc.tool_name
    envelope_keys : IsMap rpc.envelope
    params_keys : IsMap rpc.params
    arguments_keys : IsMap rpc.arguments

  arguments_keys_of :
      (params arguments : Object) → Rpc.arguments_of json params ≡ some arguments → IsMap arguments
  unfolding Rpc.arguments_of
  arguments_keys_of params arguments e = elim (Option-cases (lookup (codes "arguments") params)) [
    | inl p ↦
        let none_there : some [] ≡ some arguments = ground (arith, e, p) in
        subst IsMap (some-injective _ _ none_there) (tt)
    | inr (raw, p) ↦ laws.decoded_keys raw arguments (ground (arith, e, p))
  ]

  inspect_call-IsCall :
      (envelope : Object) (rpc : Rpc)
      → IsMap envelope
      → Rpc.optional_string json envelope (codes "method") ≡ some tools_call
      → Rpc.inspect_call json envelope ≡ some rpc
      → IsCall rpc
  unfolding Rpc.inspect_call
  inspect_call-IsCall envelope rpc keys method e =
      let (params, dp, e1) =
        and_then-some (json.decode_object (member (codes "params") envelope)) _ rpc e in
      let (name, dn, e2) =
        and_then-some (Rpc.optional_string json params (codes "name")) _ rpc e1 in
      let (arguments, da, e3) = and_then-some (Rpc.arguments_of json params) _ rpc e2 in
      let (user, du, e4) =
        and_then-some (Rpc.optional_string json arguments (codes "userId")) _ rpc e3 in
      subst IsCall (some-injective _ _ e4) (record {
        method_is = refl;
        method_in = method;
        name_in = dn;
        envelope_keys = keys;
        params_keys = laws.decoded_keys _ params dp;
        arguments_keys = arguments_keys_of params arguments da;
      })

  inspect_rpc-IsCall :
      (body : Text) (rpc : Rpc)
      → Rpc.inspect_rpc json body ≡ some rpc
      → rpc.method ≡ tools_call
      → IsCall rpc
  unfolding Rpc.inspect_rpc
  inspect_rpc-IsCall body rpc e call =
      let (envelope, de, e1) = and_then-some (json.decode_object body) _ rpc e in
      let (method, dm, e2) =
        and_then-some (Rpc.optional_string json envelope (codes "method")) _ rpc e1 in
      elim (Bool-cases (method == [])) [
        | inl blank ↦ absurd (ground (arith, e2, blank))
        | inr named ↦ elim (Bool-cases (method == tools_call)) [
          | inr other ↦
              absurd (ground (arith, e2, named, other, call, list_beq_iff method tools_call))
          | inl same ↦
              inspect_call-IsCall envelope rpc (laws.decoded_keys body envelope de)
                (ground (arith, dm, list_beq_iff method tools_call, same))
                (ground (arith, e2, named, same))
        ]
      ]

  inspect_again :
      (body : Text) (envelope params arguments : Object) (name user raw_params raw_arguments : Text)
      → json.decode_object body ≡ some envelope
      → Rpc.optional_string json envelope (codes "method") ≡ some tools_call
      → lookup (codes "params") envelope ≡ some raw_params
      → json.decode_object raw_params ≡ some params
      → Rpc.optional_string json params (codes "name") ≡ some name
      → lookup (codes "arguments") params ≡ some raw_arguments
      → json.decode_object raw_arguments ≡ some arguments
      → Rpc.optional_string json arguments (codes "userId") ≡ some user
      → Rpc.inspect_rpc json body
        ≡ some (record {
          method = tools_call;
          tool_name = name;
          requested_user = user;
          envelope = envelope;
          params = params;
          arguments = arguments;
        })
  unfolding Rpc.inspect_rpc Rpc.inspect_call Rpc.arguments_of
  inspect_again body envelope params arguments name user raw_params raw_arguments a b c d e f g h =
      ground (arith, a, b, c, d, e, f, g, h)

  -- A body that `bindPrincipal` writes for a call of a tool is read back as a call of the same tool for
  -- the principal.
  pub bind_principal-inspect :
      (principal body bound : Text) (rpc : Rpc)
      → Rpc.inspect_rpc json body ≡ some rpc
      → rpc.method ≡ tools_call
      → Rpc.bind_principal json principal rpc ≡ some bound
      → (again : Rpc) × (Rpc.inspect_rpc json bound ≡ some again)
        × (again.method ≡ tools_call)
        × (again.tool_name ≡ rpc.tool_name)
        × (again.requested_user ≡ trim_space principal)
  unfolding Rpc.bind_principal Rpc.optional_string
  bind_principal-inspect principal body bound rpc e call b =
      let c = inspect_rpc-IsCall body rpc e call in
      let (user, du, b1) = and_then-some (json.encode_string principal) _ bound b in
      let (arguments, da, b2) =
        and_then-some (json.encode_object (set_member (codes "userId") user rpc.arguments)) _ bound
          b1 in
      let (params, dp, b3) =
        and_then-some (json.encode_object (set_member (codes "arguments") arguments rpc.params)) _
          bound b2 in
      let a1 =
        set_member-Again json laws rpc.arguments (codes "userId") user arguments c.arguments_keys
          (laws.compact_string principal user du) da in
      let a2 =
        set_member-Again json laws rpc.params (codes "arguments") arguments params c.params_keys
          (laws.compact_object _ arguments da) dp in
      let a3 =
        set_member-Again json laws rpc.envelope (codes "params") params bound c.envelope_keys
          (laws.compact_object _ params dp) b3 in
      (
        record {
          method = tools_call;
          tool_name = rpc.tool_name;
          requested_user = trim_space principal;
          envelope = a3.object;
          params = a2.object;
          arguments = a1.object;
        },
        inspect_again bound a3.object a2.object a1.object rpc.tool_name (trim_space principal)
            params arguments a3.decoded (a3.others (codes "method") refl ∙ c.method_in)
            a3.member_set a2.decoded (a2.others (codes "name") refl ∙ c.name_in) a2.member_set
            a1.decoded
            (user_found a1.object user a1.member_set (laws.string_again principal user du)),
        refl,
        refl,
        refl,
      )
    where
      user_found :
          (object : Object) (raw : Text)
          → lookup (codes "userId") object ≡ some raw
          → json.decode_string raw ≡ some principal
          → Rpc.optional_string json object (codes "userId") ≡ some (trim_space principal)
      user_found object raw p q = rw (p, Rpc.optional_string) (rw q refl)
