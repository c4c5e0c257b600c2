-- ===== src/Trace/Users.antt =====
-- The user id of a request: the trusted principal against the ids that the caller names.
use xktmcp.Prelude.{
  ap, sym, ◌∙◌, not, ◌≡◌, ◌≢◌, ◌⊎◌, inl, inr, refl, true, Option, some, List, [], ◌∷◌, arith, ◌==◌,
  nat_eq, list_eq, list_beq_iff, Bool-cases,
}
use xktmcp.Prelude.Text.{Text, trim_space, trim_space_idem}
use xktmcp.Trace

-- `name` names nobody, or `principal`.
abbrev pub NamesAtMost : Text → Text → Type 0
NamesAtMost principal name = (name ≡ []) ⊎ (name ≡ principal)

resolve_among-Names :
    (p e r : Text) {u : Text}
    → p ≢ []
    → Trace.resolve_among p e r ≡ some u
    → (u ≡ p) × NamesAtMost p e × NamesAtMost p r
unfolding Trace.resolve_among
resolve_among-Names p e r named h = ground (
  arith,
  list_beq_iff p [],
  list_beq_iff e [],
  list_beq_iff r [],
  list_beq_iff e p,
  list_beq_iff r p,
)

resolve_among-effective :
    (p e r : Text) {u : Text} → Trace.resolve_among p e r ≡ some u → Trace.effective_among p e r ≡ u
unfolding Trace.resolve_among Trace.effective_among
resolve_among-effective p e r h = ground (arith)

-- Where `ResolveUserID` answers, `EffectiveUserID` names the same user.
pub resolve-effective :
    (ctx : Option Trace.Context) (explicit : Text) {u : Text}
    → Trace.resolve_user_id ctx explicit ≡ some u
    → Trace.effective_user_id ctx explicit ≡ u
unfolding Trace.resolve_user_id Trace.effective_user_id
resolve-effective ctx explicit h =
    resolve_among-effective (Trace.authenticated_user_id_from_context ctx) (trim_space explicit)
      (trim_space (Trace.user_id_from_context ctx)) h

pub authenticated_lem :
    (ctx : Trace.Context) (uid : Text)
    → Trace.authenticated_user_id_from_context (some (Trace.with_authenticated_user_id ctx uid))
      ≡ trim_space uid
unfolding Trace.authenticated_user_id_from_context Trace.with_authenticated_user_id
authenticated_lem ctx uid = trim_space_idem uid

-- Once a context carries an authenticated user that is not blank, `ResolveUserID` returns that
-- user only, and only if the explicit id and the routed id (that of the query, whenever it was
-- put into the context) are each blank or that user's, up to surrounding space.
pub authenticated_prevails :
    (ctx : Trace.Context) (uid explicit : Text) {u : Text}
    → trim_space uid ≢ []
    → Trace.resolve_user_id (some (Trace.with_authenticated_user_id ctx uid)) explicit ≡ some u
    → (u ≡ trim_space uid)
      × NamesAtMost (trim_space uid) (trim_space explicit)
      × NamesAtMost (trim_space uid) (trim_space (Trace.user_id_from_context (some ctx)))
unfolding Trace.resolve_user_id Trace.with_authenticated_user_id Trace.user_id_from_context
authenticated_prevails ctx uid explicit named h =
    resolve_among-Names (trim_space uid) (trim_space explicit)
      (trim_space (Trace.user_id_from_context (some ctx))) named
      (ap
          (λ p.
            Trace.resolve_among p (trim_space explicit) (trim_space (Trace.or_blank ctx.user_id)))
          (sym (trim_space_idem uid))
        ∙ h)

named_to : (x : Text) → x ≢ [] → not (x == []) ≡ true
named_to x h = ground (arith, list_beq_iff x [])

named_from : (x : Text) → not (x == []) ≡ true → x ≢ []
named_from x h = ground (arith, list_beq_iff x [])

preferred_or-named :
    (n : Text) (preferred : List Text) → n ≢ [] → Trace.preferred_or n preferred ≢ []
unfolding Trace.preferred_or
preferred_or-named n [] h = h
preferred_or-named n (p ∷ preferred) h =
    ground (arith, list_beq_iff p [], preferred_or-named n preferred h)

-- `EnsureID` returns an id that is not empty, the context that it returns carries that id, and
-- `EnsureID` on that context changes nothing, whatever the ids it prefers, provided that `NewID`
-- returns an id that is not empty.
pub ensure_id_lem :
    (n m : Text) (ctx : Trace.Context) (preferred others : List Text)
    → n ≢ []
    → ((Trace.ensure_id n ctx preferred).1 ≢ [])
      × (Trace.id_from_context (some (Trace.ensure_id n ctx preferred).0)
          ≡ (Trace.ensure_id n ctx preferred).1)
      × (Trace.ensure_id m (Trace.ensure_id n ctx preferred).0 others
          ≡ Trace.ensure_id n ctx preferred)
unfolding Trace.ensure_id Trace.id_from_context Trace.with_id
ensure_id_lem n m ctx preferred others h =
    elim (Bool-cases (not (Trace.id_from_context (some ctx) == []))) [
      | inl e ↦ rw e (named_from (Trace.or_blank ctx.id) e, refl, rw e refl)
      | inr e ↦
          let new = preferred_or-named n preferred h in
          rw e (new, refl, rw (named_to (Trace.preferred_or n preferred) new) refl)
    ]
