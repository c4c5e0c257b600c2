-- ===== src/Auth/Serve/Governed.antt =====
-- What a handler gets of an authenticated request.
use xktmcp.Prelude.{
  ◌≡◌, ◌≢◌, ◌∙◌, sym, ap, inl, inr, true, false, not, ◌&&◌, some, List, [], arith, ◌==◌, nat_eq,
  list_eq, list_beq_iff, Bool-cases, Option-cases,
}
use xktmcp.Prelude.Text.{Text, codes, trim_space}
use xktmcp.Trace.{
  with_authenticated_user_id, user_id_from_context, authenticated_user_id_from_context,
}
use xktmcp.Trace.Users.{NamesAtMost, authenticated_lem}
use xktmcp.Auth.Rpc.{Json, Rpc, tools_call, inspect_rpc, bind_principal}
use xktmcp.Auth.Rpc.Bound.{IsJson, bind_principal-inspect}
use xktmcp.Auth.Serve
use mathlib.Core.Option.{some-injective}
use xktmcp.Auth.Serve.{
  with_authenticated_user_id, Context, Decision, Reply, refused, served, Passed, replaced,
  is_tool_allowed,
}

-- The request that a handler reads for a tenant: a call names a tool that the tenant may use, and the
-- principal, where there is one.
pub record IsGoverned (json : Json) (principal : Text) (tools : List Text) (bytes : Text)
    : Type 0 where
  pub rpc : Rpc
  pub read : inspect_rpc json bytes ≡ some rpc
  pub allowed : rpc.method ≡ tools_call → is_tool_allowed rpc.tool_name tools ≡ true
  pub for_principal :
      rpc.method ≡ tools_call → principal ≢ [] → rpc.requested_user ≡ trim_space principal

module _ (json : Json) (laws : IsJson json) (d : Decision) (tools : List Text)
    (is_tenant : d.tenant ≡ some tools) where
  tool_of :
      (rpc : Rpc)
      → Serve.tool_denied d.tenant rpc ≡ false
      → rpc.method ≡ tools_call
      → is_tool_allowed rpc.tool_name tools ≡ true
  unfolding Serve.tool_denied
  tool_of rpc free call = ground (arith, is_tenant, free, call, list_beq_iff rpc.method tools_call)

  serve_rpc-IsGoverned :
      (ctx c : Context) (body : Text) (rpc : Rpc) (p : Passed)
      → inspect_rpc json body ≡ some rpc
      → Serve.serve_rpc json d ctx body rpc ≡ served c p
      → (bytes : Text) × (p ≡ replaced bytes) × IsGoverned json d.principal tools bytes
  unfolding Serve.serve_rpc
  serve_rpc-IsGoverned ctx c body rpc p read h =
      elim (Bool-cases (Serve.tool_denied d.tenant rpc)) [
        | inl denied ↦ absurd (ground (arith, h, denied))
        | inr free ↦ elim (Bool-cases (not (d.principal == []) && rpc.method == tools_call)) [
          | inr other ↦ (
            body,
            ground (arith, h, free, other),
            record {
              rpc = rpc;
              read = read;
              allowed = tool_of rpc free;
              for_principal = λ call named. absurd (
                  ground (
                    arith,
                    other,
                    call,
                    named,
                    list_beq_iff d.principal [],
                    list_beq_iff rpc.method tools_call,
                  ));
            },
          )
          | inl bind ↦ elim (Option-cases (bind_principal json d.principal rpc)) [
            | inl failed ↦ absurd (ground (arith, h, free, bind, failed))
            | inr (bound, q) ↦
                let call : rpc.method ≡ tools_call =
                  ground (arith, bind, list_beq_iff rpc.method tools_call) in
                let (again, reads, method, name, user) =
                  bind_principal-inspect json laws d.principal body bound rpc read call q in
                (
                  bound,
                  ground (arith, h, free, bind, q),
                  record {
                    rpc = again;
                    read = reads;
                    allowed = λ _. ap (λ t. is_tool_allowed t tools) name ∙ tool_of rpc free call;
                    for_principal = λ _ _. user;
                  },
                )
          ]
        ]
      ]

  -- A POST request with a body that is passed on for a tenant: the handler reads a JSON-RPC request, and
  -- if it is a call of a tool, the tool is one of the tenant's, and the user id that it names is the
  -- tenant's principal, where the tenant has one.
  pub serve_authenticated-IsGoverned :
      (ctx c : Context) (body : Text) (passed p : Passed)
      → body ≢ []
      → Serve.serve_authenticated json d (codes "POST") body passed ctx ≡ served c p
      → (bytes : Text) × (p ≡ replaced bytes) × IsGoverned json d.principal tools bytes
  unfolding Serve.serve_authenticated Serve.serve_body
  serve_authenticated-IsGoverned ctx c body passed p full h =
      elim (Option-cases (Serve.with_principal d.principal (Serve.with_decision d ctx))) [
        | inl conflict ↦ absurd (ground (arith, h, conflict))
        | inr (c', q) ↦ elim (Option-cases (inspect_rpc json body)) [
          | inl bad ↦ absurd (ground (arith, h, q, is_tenant, bad, full, list_beq_iff body []))
          | inr (rpc, read) ↦
              serve_rpc-IsGoverned c' c body rpc p read
                (ground (arith, h, q, is_tenant, read, full, list_beq_iff body []))
        ]
      ]

module _ (json : Json) (d : Decision) (body : Text) (ctx c : Context) (p : Passed) where
  serve_rpc-context : (rpc : Rpc) → Serve.serve_rpc json d ctx body rpc ≡ served c p → c ≡ ctx
  unfolding Serve.serve_rpc
  serve_rpc-context rpc h = elim (Option-cases (bind_principal json d.principal rpc)) [
    | inl failed ↦ ground (arith, h, failed)
    | inr (bound, q) ↦ ground (arith, h, q)
  ]

  serve_body-context :
      (method : Text) (passed : Passed)
      → Serve.serve_body json d method body passed ctx ≡ served c p
      → c ≡ ctx
  unfolding Serve.serve_body
  serve_body-context method passed h = elim (Option-cases (inspect_rpc json body)) [
    | inl bad ↦ elim (Option-cases d.tenant) [
      | inl free ↦ ground (arith, h, bad, free)
      | inr (tools, t) ↦ ground (arith, h, bad, t)
    ]
    | inr (rpc, read) ↦ elim (Option-cases d.tenant) [
      | inl free ↦ ground (arith, h, read, free, serve_rpc-context rpc)
      | inr (tools, t) ↦ ground (arith, h, read, t, serve_rpc-context rpc)
    ]
  ]

with_principal-some :
    (principal : Text) (ctx c : Context)
    → principal ≢ []
    → Serve.with_principal principal ctx ≡ some c
    → (c.traced ≡ with_authenticated_user_id ctx.traced principal)
      × NamesAtMost principal (trim_space (user_id_from_context (some ctx.traced)))
unfolding Serve.with_principal
with_principal-some principal ctx c named h =
    let routed = trim_space (user_id_from_context (some ctx.traced)) in
    elim (Bool-cases (not (routed == []) && not (routed == principal))) [
      | inl conflict ↦ absurd (ground (arith, h, conflict, named, list_beq_iff principal []))
      | inr same ↦
          let e : some (record ctx { traced = with_authenticated_user_id ctx.traced principal })
              ≡ some c =
            ground (arith, h, same, named, list_beq_iff principal []) in
          (
            sym (ap (λ (k : Context). k.traced) (some-injective _ _ e)),
            ground (arith, same, list_beq_iff routed [], list_beq_iff routed principal),
          )
    ]

-- A request that is passed on for a principal has that principal as the trusted user of its context, and
-- the user id that was routed to it is blank or the principal's.
pub serve_authenticated-principal :
    (json : Json) (d : Decision) (method body : Text) (passed p : Passed) (ctx c : Context)
    → d.principal ≢ []
    → Serve.serve_authenticated json d method body passed ctx ≡ served c p
    → (authenticated_user_id_from_context (some c.traced) ≡ trim_space d.principal)
      × NamesAtMost d.principal (trim_space (user_id_from_context (some ctx.traced)))
unfolding Serve.serve_authenticated Serve.with_decision
serve_authenticated-principal json d method body passed p ctx c named h =
    elim (Option-cases (Serve.with_principal d.principal (Serve.with_decision d ctx))) [
      | inl conflict ↦ absurd (ground (arith, h, conflict))
      | inr (c', q) ↦
          let same : c ≡ c' =
            serve_body-context json d body c' c p method passed (ground (arith, h, q)) in
          let (t, n) = with_principal-some d.principal (Serve.with_decision d ctx) c' named q in
          (
            ap (λ (k : Context). authenticated_user_id_from_context (some k.traced)) same
                ∙ ap (λ k. authenticated_user_id_from_context (some k)) t
                ∙ authenticated_lem ctx.traced d.principal,
            n,
          )
    ]
