-- ===== src/Files/Refresh.antt =====
-- internal/service/file_service.go: the refresh of the index of terms (ensureFileSearchIndex) and the loading
-- of a document. The lock is not part of the model: a refresh is one step.
pub mod Built
pub mod Search
use xktmcp.Prelude.Text.{codes, Text}
use xktmcp.Prelude.{
  ltb, ◌&&◌, ◌||◌, not, ◌==◌, length, if◌then◌else◌, Option, Bool, List, nat_eq, list_eq, ℕ, [],
  ◌∷◌, true, false, some, none,
}
use xktmcp.Lru.Assoc.{lookup}
use xktmcp.Files.Walk.{Nodes, Info, Step, more, stop, fail, walk, walk_calls}
use xktmcp.Files.Content.{
  OpenedFile, read_search_file, searched_text, searchable_text_extension, ext_of,
  max_search_file_bytes, extension,
}
use xktmcp.Files.Ranked.{file_markdown_title, title_from, trim_mark}
use xktmcp.Files.Index.{
  FileSearchDocument, FileSearchIndex, unique_sorted_terms, build_file_search_index,
}

-- fileSearchTokenizer
pub record FileSearchTokenizer : Type 0 where
  pub terms : Text → List Text
  pub content_terms : Text → List Text

-- The index as it is refreshed: the files so far, and if anything changed.
pub record Refreshed : Type 0 where
  pub files : List (Text × FileSearchDocument)
  pub changed : Bool

module _ (lower : Text → Text) (open_file : Text → Option OpenedFile) (text_of : Text → Option Text)
    (tokenizer : FileSearchTokenizer) where
  -- A document with its title and the terms of its content.
  unfoldable pub titled_document : Text → Info → Text → List Text → FileSearchDocument
  unfolding unique_sorted_terms
  titled_document name info title content_terms = record {
    name = name;
    title = title;
    lower_name = lower name;
    lower_title = lower title;
    size = info.size;
    mod_time = info.mod_time;
    metadata = info.metadata;
    searchable = true;
    name_terms = unique_sorted_terms (tokenizer.terms name);
    title_terms = unique_sorted_terms (tokenizer.terms title);
    content_terms = content_terms;
  }

  -- A document that is not searched.
  unfoldable pub hidden_document : Text → Info → FileSearchDocument
  hidden_document name info = record {
    name = name;
    title = name;
    lower_name = [];
    lower_title = [];
    size = info.size;
    mod_time = info.mod_time;
    metadata = info.metadata;
    searchable = false;
    name_terms = [];
    title_terms = [];
    content_terms = [];
  }

  -- loadFileSearchDocument; `none` is the error.
  unfoldable pub load_document : Text → Text → Info → Option FileSearchDocument
  unfolding read_search_file searched_text title_from extension titled_document hidden_document
  load_document path name info =
      if searchable_text_extension lower (ext_of path)
      then elim (searched_text text_of (read_search_file open_file path)) [
        | none ↦ none
        | some text ↦ elim text [
          | none ↦ some (hidden_document name info)
          | some t ↦
              let content = trim_mark t in
              let title =
                (if lower (ext_of path) == codes ".md" || lower (ext_of path) == codes ".markdown"
                  then file_markdown_title content name
                  else name) in
              some (
                titled_document name info title
                  (unique_sorted_terms (tokenizer.content_terms content)))
        ]
      ]
      else some (titled_document name info name [])

  -- The document that the index already has, if the file is as it was.
  unfoldable pub kept_document : Option FileSearchIndex → Text → Info → Option FileSearchDocument
  kept_document none path info = none
  kept_document (some previous) path info = elim (lookup path previous.files) [
    | none ↦ none
    | some old ↦
        if old.size == info.size && old.mod_time == info.mod_time && old.metadata == info.metadata
        then some old
        else none
  ]

  -- The callback of ensureFileSearchIndex on a regular file.
  unfoldable pub visit_index :
      Option FileSearchIndex → Text → Text → Info → Refreshed → Step Refreshed
  unfolding load_document kept_document
  visit_index previous path name info r =
      if not info.known
      then fail
      else if not info.regular || ltb max_search_file_bytes info.size
      then more r
      else elim (kept_document previous path info) [
        | some old ↦ more (record r { files = (path, old) ∷ r.files })
        | none ↦ elim (load_document path name info) [
          | none ↦ fail
          | some doc ↦ more (record { files = (path, doc) ∷ r.files; changed = true })
        ]
      ]

  abbrev pub count : Option FileSearchIndex → ℕ
  count none = 0
  count (some index) = length index.files

  -- The end of ensureFileSearchIndex.
  unfoldable pub refreshed_index : Option FileSearchIndex → Refreshed → FileSearchIndex
  unfolding build_file_search_index
  refreshed_index none r = build_file_search_index r.files
  refreshed_index (some previous) r =
      if r.changed || not (length r.files == length previous.files)
      then build_file_search_index r.files
      else previous

  -- ensureFileSearchIndex; `none` is an error.
  unfoldable pub ensure_file_search_index :
      (Text → Bool) → Option Nodes → Option FileSearchIndex → Option FileSearchIndex
  unfolding visit_index walk refreshed_index
  ensure_file_search_index canceled_at none previous = none
  ensure_file_search_index canceled_at (some tree) previous =
      elim (walk canceled_at (visit_index previous) (walk_calls tree)
        (record { files = []; changed = false })) [
          | none ↦ none
          | some r ↦ some (refreshed_index previous r)
        ]
