-- ===== src/Files/Tokenized.antt =====
-- internal/service/file_service.go: searchTokenized, the search over the index of terms. The tokenizer and
-- what is read of the files are parameters.
pub mod Complete
pub mod Best
use xktmcp.Prelude.Text.{codes, Text}
use xktmcp.Prelude.{
  inr, inl, ◌&&◌, ◌==◌, ◌⊎◌, ltb, not, ◌||◌, Bool, Option, if◌then◌else◌, keep, ◌++◌, List, nat_eq,
  list_eq, ℕ, [], ◌∷◌, true, false, some, none,
}
use xktmcp.Files.Find.{no_root, walk_failed, SearchError, contains, index_of}
use xktmcp.Files.Content.{listed, OpenedFile, read_search_file}
use xktmcp.Files.Ranked.{FileSearchResult, insert_ranked, matched_fields_of, snippet_at, trim_mark}
use xktmcp.Files.Index.{FileSearchIndex, document, names_of, term_in, document_matches}

-- addTermCandidates
unfoldable pub term_candidates : FileSearchIndex → List Text → List Text
term_candidates index [] = []
term_candidates index (term ∷ terms) = names_of term index.term_index ++ term_candidates index terms

-- The candidates for a search of the titles.
unfoldable pub title_candidates : FileSearchIndex → List Text → List Text
unfolding term_in
title_candidates index [] = []
title_candidates index (term ∷ terms) =
    keep
      (λ name.
        term_in (document index.files name).name_terms term
        || term_in (document index.files name).title_terms term)
      (names_of term index.term_index)
    ++ title_candidates index terms

unfoldable pub candidates : FileSearchIndex → Text → List Text → Text → List Text
unfolding index_of term_candidates title_candidates
candidates index query terms search_in =
    (if not (search_in == codes "title")
      then term_candidates index terms
      else title_candidates index terms)
    ++ keep
        (λ name.
          not (search_in == codes "content")
          && (contains (document index.files name).lower_name query
              || contains (document index.files name).lower_title query))
        index.paths

-- The result for a document, if it matches.
unfoldable pub result_of :
    FileSearchIndex → Text → List Text → Text → Text → Option FileSearchResult
unfolding document_matches
result_of index query terms search_in name =
    let found = document_matches (document index.files name) query terms search_in in
    if not found.0 && not found.1
    then none
    else some (record {
      path = name;
      title = (document index.files name).title;
      snippet = [];
      matched_fields = matched_fields_of found.0 found.1;
      size_bytes = (document index.files name).size;
    })

-- The loop of searchTokenized over the paths; `none` is the error of a canceled context.
unfoldable pub rank :
    (Text → Bool)
    → (Text → Bool)
    → (Text → Option FileSearchResult)
    → ℕ
    → List Text
    → List FileSearchResult
    → Option (List FileSearchResult)
unfolding insert_ranked
rank canceled_at is_candidate result limit [] items = some items
rank canceled_at is_candidate result limit (name ∷ names) items =
    let rest = rank canceled_at is_candidate result limit names items in
    if canceled_at name
    then none
    else if not (is_candidate name)
    then rest
    else elim (result name) [
      | none ↦ rest
      | some item ↦
          rank canceled_at is_candidate result limit names (insert_ranked limit item items)
    ]

-- The first of the places where a term stands, or a place before it.
unfoldable pub first_place : (Text → Option ℕ) → List Text → Option ℕ → Option ℕ
first_place place [] found = found
first_place place (term ∷ terms) found = first_place place terms (earlier (place term) found)
  where
    earlier : Option ℕ → Option ℕ → Option ℕ
    earlier none found = found
    earlier (some n) none = some n
    earlier (some n) (some m) = if ltb n m then some n else some m

-- fileSearchSnippetWithTerms
unfoldable pub snippet_with_terms : (Text → Text) → Text → Text → List Text → Text
unfolding index_of snippet_at first_place
snippet_with_terms lower content query terms =
    snippet_at content (elim (index_of (lower content) query) [
      | none ↦ first_place (index_of (lower content)) terms none
      | some n ↦ some n
    ])

-- The end of searchTokenized: each result whose file can be read gets its snippet.
unfoldable pub with_snippets :
    (Text → Text)
    → (Text → Option Text)
    → Text
    → List Text
    → List FileSearchResult
    → List FileSearchResult
unfolding snippet_with_terms
with_snippets lower text_at query terms [] = []
with_snippets lower text_at query terms (item ∷ items) =
    let rest = with_snippets lower text_at query terms items in
    (elim (text_at item.path) [
      | none ↦ item
      | some content ↦ record item { snippet = snippet_with_terms lower content query terms }
    ])
    ∷ rest

-- The text of a file that can be read; `to_text` is the conversion of its bytes.
unfoldable pub content_of : (Text → Option OpenedFile) → (Text → Text) → Text → Option Text
unfolding read_search_file
content_of open_file to_text path = elim (read_search_file open_file path) [
  | none ↦ none
  | some found ↦ elim found [ none ↦ none | some bytes ↦ some (trim_mark (to_text bytes)) ]
]

-- searchTokenized, with the index, or `none` where it cannot be had.
unfoldable pub search_tokenized :
    (Text → Text)
    → (Text → List Text)
    → (Text → Option OpenedFile)
    → (Text → Text)
    → (Text → Bool)
    → Option FileSearchIndex
    → Bool
    → Text
    → Text
    → ℕ
    → SearchError ⊎ List FileSearchResult
unfolding candidates result_of rank with_snippets content_of
search_tokenized lower terms_of open_file to_text canceled_at none opened query search_in limit =
    inl walk_failed
search_tokenized lower terms_of open_file to_text canceled_at (some index) opened query search_in
      limit =
    let terms = terms_of query in
    if not opened
    then inl no_root
    else elim (rank canceled_at (λ name. listed name (candidates index query terms search_in))
        (result_of index query terms search_in) limit index.paths []) [
          | none ↦ inl walk_failed
          | some items ↦ inr (with_snippets lower (content_of open_file to_text) query terms items)
        ]
