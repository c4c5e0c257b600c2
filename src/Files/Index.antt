-- ===== src/Files/Index.antt =====
-- internal/service/file_service.go: the index of terms, and what of a document matches.
pub mod Has
use xktmcp.Prelude.Text.{codes, Text}
use xktmcp.Prelude.{
  inr, inl, ◌&&◌, ◌⊎◌, ltb, ◌||◌, not, ◌==◌, Option, keep, ◌++◌, if◌then◌else◌, Bool, List, nat_eq,
  list_eq, ℕ, [], ◌∷◌, true, false, some, none,
}
use xktmcp.Lru.Assoc.{lookup}
use xktmcp.Files.Find.{no_root, walk_failed, SearchError, contains, index_of}
use xktmcp.Files.Content.{listed, OpenedFile, read_search_file}
use xktmcp.Files.Ranked.{trim_mark}
use xktmcp.Files.Ranked.{
  FileSearchResult, text_ltb, insert_ranked, matched_fields_of, position, snippet_at,
}

-- fileSearchDocument
pub record FileSearchDocument : Type 0 where
  pub name : Text
  pub title : Text
  pub lower_name : Text
  pub lower_title : Text
  pub size : ℕ
  pub mod_time : ℕ
  pub metadata : Text
  pub searchable : Bool
  pub name_terms : List Text
  pub title_terms : List Text
  pub content_terms : List Text

-- fileSearchIndex
pub record FileSearchIndex : Type 0 where
  pub files : List (Text × FileSearchDocument)
  pub paths : List Text
  pub term_index : List (Text × List Text)

-- sort.Strings
unfoldable pub insert_text : Text → List Text → List Text
unfolding text_ltb
insert_text s [] = s ∷ []
insert_text s (t ∷ ts) =
    let rest = insert_text s ts in if text_ltb t s then t ∷ rest else s ∷ t ∷ ts

unfoldable pub sort_texts : List Text → List Text
unfolding insert_text
sort_texts [] = []
sort_texts (s ∷ ts) = insert_text s (sort_texts ts)

-- The loop of uniqueSortedTerms: of equal neighbours one is kept.
unfoldable pub without_repeats : List Text → List Text
without_repeats [] = []
without_repeats (s ∷ []) = s ∷ []
without_repeats (s ∷ t ∷ ts) =
    let rest = without_repeats (t ∷ ts) in if t == s then rest else s ∷ rest

unfoldable pub unique_sorted_terms : List Text → List Text
unfolding sort_texts without_repeats
unique_sorted_terms terms = without_repeats (sort_texts terms)

-- fileSearchTermIn: sort.SearchStrings finds the first term that is not below the one wanted.
unfoldable pub term_in : List Text → Text → Bool
unfolding text_ltb
term_in [] want = false
term_in (t ∷ ts) want = let rest = term_in ts want in if text_ltb t want then rest else t == want

-- fileSearchHasAnyTerm
unfoldable pub has_any_term : List Text → List Text → Bool
unfolding term_in
has_any_term terms [] = false
has_any_term terms (want ∷ wants) =
    let rest = has_any_term terms wants in if term_in terms want then true else rest

-- fileSearchDocumentMatches
unfoldable pub document_matches : FileSearchDocument → Text → List Text → Text → Bool × Bool
unfolding index_of has_any_term
document_matches doc query terms search_in = if not doc.searchable then (false, false) else (
  not (search_in == codes "content")
      && (contains doc.lower_name query
          || contains doc.lower_title query
          || has_any_term doc.name_terms terms
          || has_any_term doc.title_terms terms),
  not (search_in == codes "title") && has_any_term doc.content_terms terms,
)

abbrev blank : FileSearchDocument
blank = record {
  name = [];
  title = [];
  lower_name = [];
  lower_title = [];
  size = 0;
  mod_time = 0;
  metadata = [];
  searchable = false;
  name_terms = [];
  title_terms = [];
  content_terms = [];
}

-- files[name]
abbrev pub document : List (Text × FileSearchDocument) → Text → FileSearchDocument
document files name = elim (lookup name files) [ none ↦ blank | some doc ↦ doc ]

-- termIndex[term]
abbrev pub names_of : Text → List (Text × List Text) → List Text
names_of term index = elim (lookup term index) [ none ↦ [] | some names ↦ names ]

-- termIndex[term] = append(termIndex[term], name)
unfoldable pub append_name : Text → Text → List (Text × List Text) → List (Text × List Text)
append_name term name [] = (term, name ∷ []) ∷ []
append_name term name ((t, names) ∷ index) =
    let rest = append_name term name index in
    if t == term then (t, names ++ (name ∷ [])) ∷ index else (t, names) ∷ rest

-- A turn of the loop of addTerms, on the terms seen and the index.
unfoldable pub add_term :
    Text → Text → List Text × List (Text × List Text) → List Text × List (Text × List Text)
unfolding append_name
add_term name term st =
    if term == []
    then st
    else if listed term st.0
    then st
    else (term ∷ st.0, append_name term name st.1)

unfoldable pub add_terms :
    Text → List Text → List Text × List (Text × List Text) → List Text × List (Text × List Text)
unfolding add_term
add_terms name [] st = st
add_terms name (term ∷ terms) st = add_terms name terms (add_term name term st)

-- A turn of the loop of buildFileSearchIndex.
unfoldable pub index_document :
    List (Text × FileSearchDocument) → Text → List (Text × List Text) → List (Text × List Text)
unfolding add_terms
index_document files name index =
    if not (document files name).searchable
    then index
    else (add_terms name (document files name).content_terms (
        add_terms name (document files name).title_terms
          (add_terms name (document files name).name_terms ([], index)))).1

unfoldable pub index_documents :
    List (Text × FileSearchDocument) → List Text → List (Text × List Text) → List (Text × List Text)
unfolding index_document
index_documents files [] index = index
index_documents files (name ∷ names) index =
    index_documents files names (index_document files name index)

abbrev pub keys : List (Text × FileSearchDocument) → List Text
keys [] = []
keys ((name, doc) ∷ files) = name ∷ keys files

unfoldable pub build_file_search_index : List (Text × FileSearchDocument) → FileSearchIndex
unfolding index_documents sort_texts
build_file_search_index files = record {
  files = files;
  paths = sort_texts (keys files);
  term_index = index_documents files (sort_texts (keys files)) [];
}
