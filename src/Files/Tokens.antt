-- ===== src/Files/Tokens.antt =====
-- internal/service/file_service.go: the terms of a text. The segmenter of gse and the classes of unicode
-- are parameters.
pub mod Full
use xktmcp.Prelude.{
  ◌||◌, ◌&&◌, ◌==◌, length, not, if◌then◌else◌, ◌++◌, List, Bool, nat_eq, list_eq, ℕ, [], ◌∷◌, true,
  false,
}
use xktmcp.Prelude.Text.{Text, trim_space}
use xktmcp.Files.Content.{listed}

-- `breaks` is a space, punctuation or a symbol, `is_letter` a letter or a number.
pub record Classes : Type 0 where
  pub breaks : ℕ → Bool
  pub is_han : ℕ → Bool
  pub is_letter : ℕ → Bool

-- flush
abbrev pub flushed : Text → List Text → List Text
flushed [] terms = terms
flushed (c ∷ current) terms = (c ∷ current) ∷ terms

module _ (classes : Classes) where
  -- The loop of fileSearchQueryTerms.
  unfoldable pub query_terms_from : Text → Bool → Text → List Text
  query_terms_from current current_han [] = flushed current []
  query_terms_from current current_han (r ∷ rest) =
      let han = classes.is_han r in
      let broken = query_terms_from [] current_han rest in
      let started = query_terms_from (r ∷ []) han rest in
      let longer = query_terms_from (current ++ (r ∷ [])) han rest in
      if classes.breaks r
      then flushed current broken
      else if not (current == []) && not (same_bool han current_han)
      then flushed current started
      else longer
    where
      same_bool : Bool → Bool → Bool
      same_bool true true = true
      same_bool false false = true
      same_bool true false = false
      same_bool false true = false

  unfoldable pub file_search_query_terms : Text → List Text
  unfolding query_terms_from
  file_search_query_terms query =
      let terms = query_terms_from [] false query in if length terms == 0 then query ∷ [] else terms

  -- isFileSearchTerm
  unfoldable pub is_file_search_term : Text → Bool
  is_file_search_term [] = false
  is_file_search_term (r ∷ term) =
      let rest = is_file_search_term term in if classes.is_letter r then true else rest

  module _ (lower : Text → Text) (unique : Bool) where
    -- appendTerm on each word; `terms` holds what was appended, which is what was seen.
    unfoldable pub append_terms : List Text → List Text → List Text
    unfolding trim_space is_file_search_term
    append_terms [] terms = terms
    append_terms (word ∷ words) terms =
        let term = lower (trim_space word) in
        let skipped = append_terms words terms in
        let added = append_terms words (terms ++ (term ∷ [])) in
        if term == [] || not (is_file_search_term term)
        then skipped
        else if unique && listed term terms
        then skipped
        else added

    -- fileGSESearchTokenizer.terms; `cut_search` is the segmenter.
    unfoldable pub gse_terms : (Text → List Text) → Text → List Text
    unfolding trim_space append_terms file_search_query_terms
    gse_terms cut_search raw =
        let text = lower (trim_space raw) in
        let terms = append_terms (cut_search text) [] in
        if text == []
        then []
        else if length terms == 0
        then append_terms (file_search_query_terms text) []
        else terms
