-- ===== src/Files/Tokens/Full.antt =====
-- The tokenizer gives terms that the index can have.
use xktmcp.Prelude.{
  ◌++◌, ◌&&◌, length, not, ◌==◌, Bool, List, nat_eq, list_eq, [], ◌∷◌, true, ◌≡◌, ◌≢◌, arith,
  Bool-cases, inl, inr, list_beq_iff, ◌||◌,
}
use xktmcp.Prelude.Text.{Text, trim_space}
use xktmcp.Files.Content.{listed}
use xktmcp.Files.Tokens
use xktmcp.Files.Tokens.{length, not, Bool, List, Classes}
use xktmcp.Files.Index.Has.{listed-append}

-- No term is empty.
abbrev pub AllFull : List Text → Type 0
AllFull terms = (t : Text) → listed t terms ≡ true → t ≢ []

module _ (classes : Classes) (lower : Text → Text) (unique : Bool) where
  append_terms-AllFull :
      (words terms : List Text)
      → AllFull terms
      → AllFull (Tokens.append_terms classes lower unique words terms)
  unfolding Tokens.append_terms
  append_terms-AllFull [] terms full = full
  append_terms-AllFull (word ∷ words) terms full =
      let term = lower (trim_space word) in
      elim (Bool-cases (term == [] || not (Tokens.is_file_search_term classes term))) [
        | inl bad ↦ rw bad (append_terms-AllFull words terms full)
        | inr good ↦ elim (Bool-cases (unique && listed term terms)) [
          | inl old ↦ rw good (rw old (append_terms-AllFull words terms full))
          | inr new ↦ rw good (
              rw new (
                append_terms-AllFull words (terms ++ (term ∷ [])) (λ t h.
                  elim (Bool-cases (listed t terms)) [
                    | inl before ↦ full t before
                    | inr last ↦ ground (
                      arith,
                      h,
                      last,
                      good,
                      listed-append t terms (term ∷ []),
                      list_beq_iff term t,
                      list_beq_iff term [],
                    )
                  ])))
        ]
      ]

  -- The terms that the tokenizer gives for any text are not empty, whatever the segmenter does.
  pub gse_terms-AllFull :
      (cut_search : Text → List Text) (text : Text)
      → AllFull (Tokens.gse_terms classes lower unique cut_search text)
  unfolding Tokens.gse_terms
  gse_terms-AllFull cut_search raw =
      let text = lower (trim_space raw) in
      elim (Bool-cases (text == [])) [
        | inl blank ↦ rw blank (λ t h. absurd (ground (arith, h)))
        | inr some_text ↦
            elim (Bool-cases
              (length (Tokens.append_terms classes lower unique (cut_search text) []) == 0)) [
                | inl nothing ↦ rw some_text (
                    rw nothing (
                      append_terms-AllFull (Tokens.file_search_query_terms classes text) []
                        (λ t h. absurd (ground (arith, h)))))
                | inr terms ↦ rw some_text (
                    rw terms (
                      append_terms-AllFull (cut_search text) []
                        (λ t h. absurd (ground (arith, h)))))
              ]
      ]
