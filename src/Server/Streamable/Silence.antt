-- ===== src/Server/Streamable/Silence.antt =====
-- What a response under a session that is not the caller's gives away: nothing.
use xktmcp.Prelude.{
  ℕ, ◌≡◌, ◌≢◌, ◌⊎◌, ◌∙◌, sym, ap, refl, inl, inr, true, false, Option, none, some, List, [], ◌∷◌,
  ◌++◌, arith, All, ◌==◌, nat_eq, list_eq, pair_eq, list_beq_iff, Bool-cases, Option-cases,
}
use mathlib.Core.Path.{subst}
use xktmcp.Prelude.Text.{Text, trim_space}
use xktmcp.Lru.Assoc.{lookup}
use xktmcp.Server.Sessions.{Identity, Binding, Bindings, idle}
use xktmcp.Server.Sessions.Access.{IsValid, view}
use xktmcp.Server.Sessions.Holders.{live_refuses_others}
use xktmcp.Server.Sessions.Held.{HeldAt, matches-HeldAt, bind-HeldAt}
use xktmcp.Server.Streamable
use xktmcp.Server.Streamable.{
  Sent, flushed, refused, Writer, streamable, Action, set_session, on_header, on_write, on_flush,
  act, serve, middleware, write_header, admit, admitted, settle, enter,
}

quiet_snoc :
    (news before : List Sent)
    → All (λ s. s ≡ flushed) news
    → ((news ++ (flushed ∷ before)) ≡ ((news ++ (flushed ∷ [])) ++ before))
      × All (λ s. s ≡ flushed) (news ++ (flushed ∷ []))
quiet_snoc [] before quiet = (refl, (refl, tt))
quiet_snoc (n ∷ news) before quiet =
    let (same, still) = quiet_snoc news before quiet.1 in (ap (◌∷◌ n) same, (quiet.0, still))

record IsBlocked (w : Writer) : Type 0 where
  done : w.committed ≡ true
  closed : w.blocked ≡ true

act-IsBlocked :
    (a : Action) (w : Writer)
    → IsBlocked w
    → IsBlocked (act a w)
      × ((act a w).bindings ≡ w.bindings)
      × (((act a w).sent ≡ w.sent) ⊎ ((act a w).sent ≡ flushed ∷ w.sent))
unfolding act Streamable.write_header Streamable.write Streamable.flush Streamable.commit
act-IsBlocked (set_session v) w h = ground (arith, h.done, h.closed)
act-IsBlocked (on_header now status) w h = ground (arith, h.done, h.closed)
act-IsBlocked (on_write now p) w h = ground (arith, h.done, h.closed)
act-IsBlocked (on_flush now) w h = ground (arith, h.done, h.closed)

-- Once a response is blocked, nothing that the handler does reaches the client but flushes, and the
-- bindings stay as they are.
pub blocked_silent :
    (actions : List Action) (w : Writer)
    → w.committed ≡ true
    → w.blocked ≡ true
    → ((news : List Sent) × ((serve actions w).sent ≡ news ++ w.sent) × All (λ s. s ≡ flushed) news)
      × ((serve actions w).bindings ≡ w.bindings)
unfolding serve
blocked_silent [] w done closed = (([], refl, tt), refl)
blocked_silent (a ∷ actions) w done closed =
    let (still, same, step) = act-IsBlocked a w (record { done = done; closed = closed }) in
    let ((news, sent, quiet), kept) = blocked_silent actions (act a w) still.done still.closed in
    elim step [
      | inl p ↦ ((news, sent ∙ ap (λ l. news ++ l) p, quiet), kept ∙ same)
      | inr p ↦
          let (moved, silent) = quiet_snoc news w.sent quiet in
          ((news ++ (flushed ∷ []), sent ∙ ap (λ l. news ++ l) p ∙ moved, silent), kept ∙ same)
    ]

admit-HeldAt :
    (now : ℕ) (s : Text) (identity : Identity) (w : Writer)
    → IsValid w.bindings
    → (admit now s identity w).1 ≡ true
    → HeldAt now (streamable s) identity (view (admit now s identity w).0)
unfolding admit
admit-HeldAt now s identity w h p = elim (Bool-cases (w.request_session_id == [])) [
  | inl fresh ↦ rw fresh (bind-HeldAt w.bindings now (streamable s) identity none h (rw fresh at p))
  | inr named ↦ elim (Bool-cases (s == w.request_session_id)) [
    | inl same ↦ rw named (
        rw same
          (matches-HeldAt w.bindings now (streamable s) identity h (rw same at (rw named at p))))
    | inr other ↦ absurd (ground (arith, p, named, other))
  ]
]

-- `WriteHeader` of a response that names a session either blocks the response, or leaves the session
-- bound to the identity of the request, which has one, since the time of the call.
pub write_header-HeldAt :
    (now status : ℕ) (w : Writer)
    → IsValid w.bindings
    → w.committed ≡ false
    → trim_space w.session_header ≢ []
    → ((write_header now status w).blocked ≡ true)
      ⊎ ((identity : Identity) × (w.identity ≡ some identity)
          × HeldAt now
              (streamable (trim_space w.session_header))
              identity
              (view (write_header now status w).bindings))
unfolding write_header admitted settle
write_header-HeldAt now status w h fresh named = elim (Option-cases w.identity) [
  | inl none_there ↦
      inl (ground (arith, none_there, fresh, named, list_beq_iff (trim_space w.session_header) []))
  | inr (identity, p) ↦
      let s = trim_space w.session_header in
      elim (Bool-cases (admit now s identity w).1) [
        | inr barred ↦ inl (ground (arith, p, barred, fresh, named, list_beq_iff s []))
        | inl allowed ↦
            let e : (write_header now status w).bindings ≡ (admit now s identity w).0 =
              ground (arith, p, allowed, fresh, named, list_beq_iff s []) in
            inr (
              identity,
              p,
              subst (λ (b : Bindings). HeldAt now (streamable s) identity (view b)) (sym e)
                  (admit-HeldAt now s identity w h allowed),
            )
      ]
]

enter_other :
    (now : ℕ) (s : Text) (other : Option Identity) (b : Bindings) (entry : Binding)
    → IsValid b
    → s ≢ []
    → lookup (streamable s) (view b) ≡ some entry
    → idle b.ttl now entry ≡ false
    → other ≢ some entry.identity
    → ((enter now other s b).1 ≡ false) × (view (enter now other s b).0 ≡ view b)
unfolding enter
enter_other now [] other b entry h named q young differ = absurd (named refl)
enter_other now (c ∷ s) none b entry h named q young differ = (refl, refl)
enter_other now (c ∷ s) (some i) b entry h named q young differ =
    let (_, _, refusal, kept) =
      live_refuses_others b now (streamable (c ∷ s)) i none entry h q young
        (λ p. differ (ap some (sym p))) in
    (refusal, kept)

-- While a streamable session is bound to an identity and is not idle, a request under that session
-- with another identity, or with none, is answered with 403 alone, whatever its method and its
-- handler, and leaves the bindings as they are.
pub hijack_refused :
    (now : ℕ) (method session : Text) (other : Option Identity) (actions : List Action)
    (b : Bindings) (entry : Binding)
    → IsValid b
    → trim_space session ≢ []
    → lookup (streamable (trim_space session)) (view b) ≡ some entry
    → idle b.ttl now entry ≡ false
    → other ≢ some entry.identity
    → ((middleware now method other session actions b).sent ≡ refused 403 ∷ [])
      × (view (middleware now method other session actions b).bindings ≡ view b)
unfolding middleware Streamable.new_writer
hijack_refused now method session other actions b entry h named q young differ =
    let (barred, kept) =
      enter_other now (trim_space session) other b entry h named q young differ in
    let e : (middleware now method other session actions b).bindings
        ≡ (enter now other (trim_space session) b).0 =
      ground (arith, barred) in
    (ground (arith, barred), ap view e ∙ kept)
