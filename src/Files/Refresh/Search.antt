-- ===== src/Files/Refresh/Search.antt =====
-- The search by terms as a whole: the refresh of the index, the tokenizer, and the search over the index.
use mathlib.Core.Path.{subst}
use xktmcp.Files.Walk.{Nodes}
use xktmcp.Files.Content.{OpenedFile}
use xktmcp.Prelude.Text.{Text}
use xktmcp.Prelude.{
  Bool, Option, List, nat_eq, list_eq, ℕ, true, false, some, ◌≡◌, sym, ap, ◌∙◌, inr, take,
}
use xktmcp.Files.Index
use xktmcp.Files.Index.{FileSearchIndex}
use xktmcp.Files.Refresh
use xktmcp.Files.Refresh.{Nodes, Bool, OpenedFile, Option, Text, FileSearchTokenizer}
use xktmcp.Files.Refresh.Built.{IsBuilt, WasBuilt, ensure_file_search_index-IsBuilt}
use xktmcp.Files.Tokenized
use xktmcp.Files.Tokenized.Best.{results, search_tokenized-best}
use xktmcp.Files.Tokens
use xktmcp.Files.Tokens.{Classes}
use xktmcp.Files.Tokens.Full.{gse_terms-AllFull}
use xktmcp.Files.Ranked.{FileSearchResult}
use xktmcp.Files.Ranked.Insert.{IsRanked}
use mathlib.Core.List.{List, Permᴰ}

-- The tokenizer over gse.
abbrev pub gse_tokenizer : Classes → (Text → Text) → (Text → List Text) → FileSearchTokenizer
gse_tokenizer classes lower cut_search = record {
  terms = Tokens.gse_terms classes lower true cut_search;
  content_terms = Tokens.gse_terms classes lower false cut_search;
}

-- The results are the best of the documents of the index that match, in order and with their snippets.
abbrev pub IsBestOf :
    (Text → Text)
    → (Text → Option Text)
    → FileSearchIndex
    → Text
    → List Text
    → Text
    → ℕ
    → List FileSearchResult
    → Type 0
IsBestOf lower text_at index query terms search_in limit items =
    (all : List FileSearchResult) × Permᴰ all
      (results (Tokenized.result_of index query terms search_in) index.paths)
    × IsRanked all
    × (items ≡ Tokenized.with_snippets lower text_at query terms (take limit all))

module _ (classes : Classes) (lower : Text → Text) (cut_search : Text → List Text)
    (open_file : Text → Option OpenedFile) (text_of : Text → Option Text)
    (to_text : Text → Text) where
  -- Where the index before, if there was one, was built from its own files: a search by terms that
  -- refreshes the index and succeeds leaves an index that is built so too, and returns the best of all
  -- its documents that match, in order and up to the limit. None is missed for want of an entry.
  pub search_refreshed-IsBestOf :
      (canceled_at : Text → Bool) (root : Option Nodes) (opened : Bool)
      (previous : Option FileSearchIndex) (index : FileSearchIndex) (query search_in : Text)
      (limit : ℕ) (items : List FileSearchResult)
      → WasBuilt previous
      → Refresh.ensure_file_search_index lower open_file text_of
          (gse_tokenizer classes lower cut_search)
          canceled_at
          root
          previous
        ≡ some index
      → Tokenized.search_tokenized lower
          (Tokens.gse_terms classes lower true cut_search)
          open_file
          to_text
          canceled_at
          (some index)
          opened
          query
          search_in
          limit
        ≡ inr items
      → IsBuilt index
        × IsBestOf lower
            (Tokenized.content_of open_file to_text)
            index
            query
            (Tokens.gse_terms classes lower true cut_search query)
            search_in
            limit
            items
  unfolding IsBuilt
  search_refreshed-IsBestOf canceled_at root opened previous index query search_in limit items was
        refreshed h =
      let terms_of = Tokens.gse_terms classes lower true cut_search in
      let built : IsBuilt index =
        ensure_file_search_index-IsBuilt lower open_file text_of
          (gse_tokenizer classes lower cut_search) canceled_at root previous index was refreshed in
      let same : index ≡ Index.build_file_search_index index.files = built in
      (
        built,
        subst
            (λ i.
              IsBestOf lower (Tokenized.content_of open_file to_text) i query (terms_of query)
                search_in limit items)
            (sym same)
            (search_tokenized-best lower terms_of open_file to_text canceled_at opened index.files
              query search_in limit items (gse_terms-AllFull classes lower true cut_search query)
              (ap
                  (λ i.
                    Tokenized.search_tokenized lower terms_of open_file to_text canceled_at (some i)
                      opened query search_in limit)
                  (sym same)
                ∙ h)),
      )
