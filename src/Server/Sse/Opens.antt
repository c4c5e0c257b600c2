-- ===== src/Server/Sse/Opens.antt =====
-- When an SSE stream opens.
use mathlib.Core.Path.{subst}
use mathlib.Core.List.{append_assoc, nil≢cons, head-eq_of_cons-eq, tail-eq_of_cons-eq}
use xktmcp.Prelude.Text.{Text}
use xktmcp.Prelude.{
  ◌≤◌, false, refl, length, ltb, ◌++◌, ap, ◌∷◌, Option-cases, ◌∙◌, ◌≢◌, sym, ◌==◌, Bool, Option,
  nat_eq, list_eq, ℕ, [], true, some, ◌≡◌, arith, Bool-cases, inl, inr,
}
use xktmcp.Server.Sse
use xktmcp.Server.Sse.{Text, Writer, sse}
use xktmcp.Server.Sessions
use xktmcp.Server.Sessions.{Identity, Bindings}

-- The first event of a stream: what was held back, and the bytes `taken` of a write `p`, up to the
-- first byte that ends an event. It is within the limit.
pub record IsFirstEvent (buffer p taken rest : Text) : Type 0 where
  pub written : p ≡ taken ++ rest
  pub ended : Sse.has_event_boundary (buffer ++ taken) ≡ true
  pub fits : length (buffer ++ taken) ≤ 4096
  pub earliest :
      (a : Text) (c : ℕ) (b : Text)
      → taken ≡ a ++ (c ∷ b)
      → a ≢ []
      → Sse.has_event_boundary (buffer ++ a) ≡ false

-- The session of a stream that a write `p` opened: named by the stream's first event, and bound to the
-- request's identity.
pub record IsBound (endpoint_of : Text → Option Text) (now : ℕ) (p buffer : Text)
    (asker : Option Identity) (cancel : Option ℕ) (before : Bindings) (later : Writer)
    : Type 0 where
  pub taken : Text
  pub rest : Text
  pub first : IsFirstEvent buffer p taken rest
  pub identity : Identity
  pub identified : asker ≡ some identity
  pub named : Sse.parse_session_id endpoint_of (buffer ++ taken) ≡ some later.session_id
  pub accepted : (Sessions.bind now (sse later.session_id) identity cancel before).1 ≡ true
  pub bindings :
      later.bindings ≡ (Sessions.bind now (sse later.session_id) identity cancel before).0

single_split : (x c : ℕ) (a b : Text) → x ∷ [] ≡ a ++ (c ∷ b) → a ≢ [] → ⊥
single_split x c [] b e some_of = some_of refl
single_split x c (y ∷ a) b e some_of = nil_split a (tail-eq_of_cons-eq e)
  where
    nil_split : (a' : Text) → [] ≡ a' ++ (c ∷ b) → ⊥
    nil_split [] h = nil≢cons h
    nil_split (z ∷ a') h = nil≢cons h

-- The byte that ends an event.
IsFirstEvent-end :
    (buffer p : Text) (b : ℕ)
    → Sse.has_event_boundary (buffer ++ (b ∷ [])) ≡ true
    → ltb Sse.max_event_bytes (length (buffer ++ (b ∷ []))) ≡ false
    → IsFirstEvent buffer (b ∷ p) (b ∷ []) p
IsFirstEvent-end buffer p b ended small = record {
  written = refl;
  ended = ended;
  fits = ground (arith, small);
  earliest = λ a c d e some_of. absurd (single_split b c a d e some_of);
}

-- A byte that does not end it.
IsFirstEvent-step :
    (buffer p taken rest : Text) (b : ℕ)
    → Sse.has_event_boundary (buffer ++ (b ∷ [])) ≡ false
    → IsFirstEvent (buffer ++ (b ∷ [])) p taken rest
    → IsFirstEvent buffer (b ∷ p) (b ∷ taken) rest
IsFirstEvent-step buffer p taken rest b inside h = record {
  written = ap (◌∷◌ b) h.written;
  ended =
      subst (λ (t : Text). Sse.has_event_boundary t ≡ true) (append_assoc buffer (b ∷ []) taken)
        h.ended;
  fits = subst (λ (t : Text). length t ≤ 4096) (append_assoc buffer (b ∷ []) taken) h.fits;
  earliest = earlier;
}
  where
    earlier :
        (a : Text) (c : ℕ) (d : Text)
        → b ∷ taken ≡ a ++ (c ∷ d)
        → a ≢ []
        → Sse.has_event_boundary (buffer ++ a) ≡ false
    earlier [] c d e some_of = absurd (some_of refl)
    earlier (x ∷ []) c d e some_of =
        subst (λ (y : ℕ). Sse.has_event_boundary (buffer ++ (y ∷ [])) ≡ false)
          (head-eq_of_cons-eq e) inside
    earlier (x ∷ y ∷ a) c d e some_of =
        subst (λ (z : ℕ). Sse.has_event_boundary (buffer ++ (z ∷ y ∷ a)) ≡ false)
          (head-eq_of_cons-eq e)
          (subst (λ (t : Text). Sse.has_event_boundary t ≡ false)
            (append_assoc buffer (b ∷ []) (y ∷ a))
            (h.earliest (y ∷ a) c d (tail-eq_of_cons-eq e) (λ q. nil≢cons (sym q))))

IsBound-step :
    (endpoint_of : Text → Option Text) (now b : ℕ) (p buffer : Text) (asker : Option Identity)
    (cancel : Option ℕ) (before : Bindings) (later : Writer)
    → Sse.has_event_boundary (buffer ++ (b ∷ [])) ≡ false
    → IsBound endpoint_of now p (buffer ++ (b ∷ [])) asker cancel before later
    → IsBound endpoint_of now (b ∷ p) buffer asker cancel before later
IsBound-step endpoint_of now b p buffer asker cancel before later inside h = record {
  taken = b ∷ h.taken;
  rest = h.rest;
  first = IsFirstEvent-step buffer p h.taken h.rest b inside h.first;
  identity = h.identity;
  identified = h.identified;
  named =
      subst (λ (t : Text). Sse.parse_session_id endpoint_of t ≡ some later.session_id)
        (append_assoc buffer (b ∷ []) h.taken) h.named;
  accepted = h.accepted;
  bindings = h.bindings;
}

module _ (endpoint_of : Text → Option Text) (accepts : Text → Bool) (now : ℕ) where
  open_session-keeps :
      (session_id event rest : Text) (w : Writer)
      → ((Sse.open_session endpoint_of accepts now session_id event rest w).session_id ≡ session_id)
        × ((Sse.open_session endpoint_of accepts now session_id event rest w).bindings ≡ w.bindings)
  unfolding Sse.open_session Sse.write_response Sse.commit_status
  open_session-keeps session_id event rest w = elim (Bool-cases (accepts event)) [
    | inr dropped ↦ (ground (arith, dropped), ground (arith, dropped))
    | inl taken ↦ elim (Bool-cases (rest == [])) [
      | inl whole ↦ (ground (arith, taken, whole), ground (arith, taken, whole))
      | inr more ↦ (ground (arith, taken, more), ground (arith, taken, more))
    ]
  ]

  end_event-IsBound :
      (buffer p taken rest : Text) (w : Writer)
      → IsFirstEvent buffer p taken rest
      → w.session_id ≡ []
      → (Sse.end_event endpoint_of accepts now (buffer ++ taken) rest w).session_id ≢ []
      → IsBound endpoint_of now p buffer w.identity w.cancel w.bindings
          (Sse.end_event endpoint_of accepts now (buffer ++ taken) rest w)
  unfolding Sse.end_event Sse.reject
  end_event-IsBound buffer p taken rest w first fresh opened =
      let event = buffer ++ taken in
      elim (Option-cases (Sse.parse_session_id endpoint_of event)) [
        | inl bad ↦ absurd (ground (arith, opened, bad, fresh))
        | inr (session_id, named) ↦ elim (Option-cases w.identity) [
          | inl nobody ↦ absurd (ground (arith, opened, named, nobody, fresh))
          | inr (identity, known) ↦
              let bound = Sessions.bind now (sse session_id) identity w.cancel w.bindings in
              let after : Writer = record w { bindings = bound.0 } in
              elim (Bool-cases bound.1) [
                | inr held ↦ absurd (ground (arith, opened, named, known, held, fresh))
                | inl free ↦
                    let (same, kept) = open_session-keeps session_id event rest after in
                    rw (named, Sse.end_event)
                      (rw known (
                        rw free (record {
                          taken = taken;
                          rest = rest;
                          first = first;
                          identity = identity;
                          identified = refl;
                          named = named ∙ ap some (sym same);
                          accepted =
                              ap (λ s. (Sessions.bind now (sse s) identity w.cancel w.bindings).1)
                                same
                              ∙ free;
                          bindings =
                              kept
                              ∙ ap (λ s. (Sessions.bind now (sse s) identity w.cancel w.bindings).0)
                                  (sym same);
                        })))
              ]
        ]
      ]

  write_bytes-IsBound :
      (p : Text) (w : Writer)
      → w.session_id ≡ []
      → (Sse.write_bytes endpoint_of accepts now p w).session_id ≢ []
      → IsBound endpoint_of now p w.buffer w.identity w.cancel w.bindings
          (Sse.write_bytes endpoint_of accepts now p w)
  unfolding Sse.write_bytes Sse.reject
  write_bytes-IsBound [] w fresh opened = absurd (opened fresh)
  write_bytes-IsBound (b ∷ p) w fresh opened =
      let event = w.buffer ++ (b ∷ []) in
      let longer : Writer = record w { buffer = event } in
      elim (Bool-cases (ltb Sse.max_event_bytes (length event))) [
        | inl over ↦ absurd (ground (arith, opened, over, fresh))
        | inr fits ↦ elim (Bool-cases (Sse.has_event_boundary event)) [
          | inr inside ↦
              let rest =
                write_bytes-IsBound p longer fresh (ground (arith, opened, fits, inside)) in
              rw (fits, Sse.write_bytes)
                (rw inside (
                  IsBound-step endpoint_of now b p w.buffer w.identity w.cancel w.bindings _ inside
                    rest))
          | inl ended ↦
              let rest =
                end_event-IsBound w.buffer (b ∷ p) (b ∷ []) p longer
                  (IsFirstEvent-end w.buffer p b ended fits) fresh
                  (ground (arith, opened, fits, ended)) in
              rw (fits, Sse.write_bytes) (rw ended rest)
        ]
      ]

  -- Write on a stream that has no session yet opens one only if what was held back and the bytes
  -- written, up to the first of them that ends an event, are an endpoint event of at most 4096 bytes
  -- that names it, and the bindings take it for the identity of the request, which is there.
  pub write-IsBound :
      (p : Text) (w : Writer)
      → w.session_id ≡ []
      → (Sse.write endpoint_of accepts now p w).session_id ≢ []
      → IsBound endpoint_of now p w.buffer w.identity w.cancel w.bindings
          (Sse.write endpoint_of accepts now p w)
  unfolding Sse.write Sse.write_response
  write-IsBound p w fresh opened = elim (Bool-cases w.blocked) [
    | inl mute ↦ absurd (ground (arith, opened, mute, fresh))
    | inr able ↦ elim (Bool-cases w.ready) [
      | inl ready ↦ absurd (elim (Bool-cases (accepts p)) [
        | inl taken ↦ ground (arith, opened, able, ready, taken, fresh)
        | inr dropped ↦ ground (arith, opened, able, ready, dropped, fresh)
      ])
      | inr early ↦
          let same : Sse.write_bytes endpoint_of accepts now p w
              ≡ Sse.write endpoint_of accepts now p w =
            ground (arith, able, early) in
          subst
            (λ (v : Writer). IsBound endpoint_of now p w.buffer w.identity w.cancel w.bindings v)
            same (write_bytes-IsBound p w fresh (ground (arith, opened, able, early)))
    ]
  ]
