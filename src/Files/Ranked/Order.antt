-- ===== src/Files/Ranked/Order.antt =====
-- The order of the results.
use xktmcp.Prelude.Text.{Text}
use xktmcp.Prelude.{refl, inr, arith, Bool-cases, true, false, ◌≡◌, nat_eq, list_eq}
use xktmcp.Prelude.{[], ◌∷◌, true, false}
use xktmcp.Files.Ranked
use xktmcp.Files.Ranked.{inl, ◌∷◌, true, false, Text, FileSearchResult}

text_ltb_irrefl : (s : Text) → Ranked.text_ltb s s ≡ false
unfolding Ranked.text_ltb
text_ltb_irrefl [] = refl
text_ltb_irrefl (c ∷ s) = ground (arith, text_ltb_irrefl s)

text_ltb_trans :
    (s t u : Text)
    → Ranked.text_ltb s t ≡ true
    → Ranked.text_ltb t u ≡ true
    → Ranked.text_ltb s u ≡ true
unfolding Ranked.text_ltb
text_ltb_trans [] [] u p q = absurd (ground (arith, p))
text_ltb_trans [] (d ∷ t) [] p q = absurd (ground (arith, q))
text_ltb_trans [] (d ∷ t) (e ∷ u) p q = refl
text_ltb_trans (c ∷ s) [] u p q = absurd (ground (arith, p))
text_ltb_trans (c ∷ s) (d ∷ t) [] p q = absurd (ground (arith, q))
text_ltb_trans (c ∷ s) (d ∷ t) (e ∷ u) p q = ground (arith, p, q, text_ltb_trans s t u)

-- A result stands before another one only if no third one stands between them the other way.
pub stands_before_trans :
    (x y z : FileSearchResult)
    → Ranked.stands_before x y ≡ true
    → Ranked.stands_before z y ≡ false
    → Ranked.stands_before z x ≡ false
unfolding Ranked.stands_before
stands_before_trans x y z p q = elim (Bool-cases (Ranked.text_ltb z.path x.path)) [
  | inl e ↦ ground (arith, p, q, e, text_ltb_trans z.path x.path y.path e)
  | inr e ↦ ground (arith, p, q, e)
]

pub stands_before_asym :
    (x y : FileSearchResult) → Ranked.stands_before x y ≡ true → Ranked.stands_before y x ≡ false
unfolding Ranked.stands_before
stands_before_asym x y p = elim (Bool-cases (Ranked.text_ltb y.path x.path)) [
  | inl e ↦ ground (arith, p, e, text_ltb_trans y.path x.path y.path e, text_ltb_irrefl y.path)
  | inr e ↦ ground (arith, p, e)
]
