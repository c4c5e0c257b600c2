-- ===== src/Files/Content.antt =====
-- internal/service/file_service.go: SearchFileContent, and the reading of a file that it shares with the
-- other searches. A file's data are bytes; `text_of` stands for utf8.Valid and the conversion to text.
pub mod Hits
use xktmcp.Prelude.Split.{split, join}
use xktmcp.Prelude.Int.{pos, negsuc, ℤ}
use xktmcp.Prelude.Text.{has_prefix, codes, trim_space, Text}
use xktmcp.Prelude.{
  drop, take, ◌+◌, ◌-◌, min, length, inl, ◌&&◌, ltb, ◌⊎◌, suc, ◌||◌, not, if◌then◌else◌, [], none,
  some, ◌==◌, ◌∷◌, false, Option, List, Bool, nat_eq, list_eq, ℕ,
}
use xktmcp.Files.Walk.{Nodes, Info, Step, more, stop, fail, walk, walk_calls}
use xktmcp.Files.Find.{
  bad_context, too_long, invalid_query, no_root, SearchError, contains, append_below, limit_of,
  concluded, max_query_length, index_of,
}

-- What readSearchFile finds of a file that it opens: if it is regular, its size, and its data.
pub record OpenedFile : Type 0 where
  pub regular : Bool
  pub size : ℕ
  pub data_read : Option Text

abbrev pub max_search_file_bytes : ℕ
max_search_file_bytes = 2097152

-- readSearchFile; `none` is an error, and `some none` a file that is not searched. `open_file` gives
-- nothing where the file cannot be opened or asked for its size.
unfoldable pub read_search_file : (Text → Option OpenedFile) → Text → Option (Option Text)
read_search_file open_file name = elim (open_file name) [
  | none ↦ none
  | some f ↦
      if not f.regular || ltb max_search_file_bytes f.size then some none else elim f.data_read [
        | none ↦ none
        | some bytes ↦
            if ltb max_search_file_bytes (length bytes) then some none else some (some bytes)
      ]
]

-- strings.IndexByte(data, 0) >= 0
abbrev pub has_zero : Text → Bool
has_zero [] = false
has_zero (c ∷ s) = c == 0 || has_zero s

-- The text of a file that is searched; `some none` is one that is passed over.
unfoldable pub searched_text : (Text → Option Text) → Option (Option Text) → Option (Option Text)
searched_text text_of none = none
searched_text text_of (some none) = some none
searched_text text_of (some (some bytes)) = elim (text_of bytes) [
  | none ↦ some none
  | some t ↦ if has_zero t then some none else some (some t)
]

-- path.Ext: from the last dot after the last slash
unfoldable pub extension : Text → Option Text
extension [] = none
extension (c ∷ s) =
    let rest = extension s in
    elim rest [
      | some e ↦ some e
      | none ↦ if c == 46 && not (any_slash s) then some (c ∷ s) else none
    ]
  where
    any_slash : Text → Bool
    any_slash [] = false
    any_slash (d ∷ t) = d == 47 || any_slash t

abbrev pub ext_of : Text → Text
ext_of path = elim (extension path) [ none ↦ [] | some e ↦ e ]

abbrev pub listed : Text → List Text → Bool
listed e [] = false
listed e (x ∷ xs) = x == e || listed e xs

abbrev pub text_extensions : List Text
text_extensions =
    codes ".md"
    ∷ codes ".markdown"
    ∷ codes ".txt"
    ∷ codes ".text"
    ∷ codes ".csv"
    ∷ codes ".json"
    ∷ codes ".yaml"
    ∷ codes ".yml"
    ∷ codes ".xml"
    ∷ codes ".html"
    ∷ codes ".htm"
    ∷ []

-- searchableTextExtension
abbrev pub searchable_text_extension : (Text → Text) → Text → Bool
searchable_text_extension lower e = listed (lower e) text_extensions

-- The set of extensions, a list here.
unfoldable pub extension_set : (Text → Text) → List Text → List Text
unfolding trim_space has_prefix
extension_set lower [] = []
extension_set lower (v ∷ vs) =
    let rest = extension_set lower vs in
    let value = lower (trim_space v) in
    if value == []
    then rest
    else if has_prefix value (codes ".")
    then value ∷ rest
    else (46 ∷ value) ∷ rest

-- strings.TrimSuffix(data, "\n")
abbrev pub trim_newline : Text → Text
trim_newline [] = []
trim_newline (c ∷ []) = if c == 10 then [] else c ∷ []
trim_newline (c ∷ d ∷ s) = c ∷ trim_newline (d ∷ s)

-- model.FileContentSearchResult
pub record FileContentSearchResult : Type 0 where
  pub path : Text
  pub line : ℕ
  pub snippet : Text
  pub context : Text

module _ (lower : Text → Text) (query : Text) where
  -- The first line that contains the query, with its number from `i` on.
  unfoldable pub first_hit : ℕ → List Text → Option (ℕ × Text)
  unfolding index_of
  first_hit i [] = none
  first_hit i (line ∷ lines) =
      let rest = first_hit (suc i) lines in
      if not (contains (lower line) query) then rest else some (i, line)

  -- The result for a file with these lines.
  unfoldable pub content_hit : ℕ → Text → List Text → Option FileContentSearchResult
  unfolding first_hit trim_space join
  content_hit context_lines path lines = elim (first_hit 0 lines) [
    | none ↦ none
    | some hit ↦
        let start = hit.0 - context_lines in
        let end = min (length lines) (hit.0 + context_lines + 1) in
        some (record {
          path = path;
          line = hit.0 + 1;
          snippet = trim_space hit.1;
          context = join 10 (take (end - start) (drop start lines));
        })
  ]

  module _ (open_file : Text → Option OpenedFile) (text_of : Text → Option Text) where
    -- The callback of SearchFileContent on a regular file.
    unfoldable pub visit_content :
        List Text
        → ℕ
        → ℕ
        → Text
        → Text
        → Info
        → List FileContentSearchResult
        → Step (List FileContentSearchResult)
    unfolding extension read_search_file searched_text content_hit split
    visit_content exts context_lines limit path name info items =
        if not (searchable_text_extension lower (ext_of path))
          || ltb 0 (length exts) && not (listed (lower (ext_of path)) exts)
        then more items
        else elim (searched_text text_of (read_search_file open_file path)) [
          | none ↦ fail
          | some text ↦ elim text [
            | none ↦ more items
            | some t ↦ elim (content_hit context_lines path (split 10 (trim_newline t))) [
              | none ↦ more items
              | some item ↦ append_below limit item items
            ]
          ]
        ]

module _ (lower : Text → Text) (open_file : Text → Option OpenedFile)
    (text_of : Text → Option Text) where
  -- From the test of the context lines on.
  unfoldable pub search_content_lines :
      (Text → Bool)
      → Option Nodes
      → Text
      → List Text
      → ℕ
      → ℤ
      → SearchError ⊎ List FileContentSearchResult
  unfolding extension_set visit_content walk
  search_content_lines canceled_at root query extensions context_lines limit = elim root [
    | none ↦ inl no_root
    | some tree ↦ concluded (
        walk canceled_at
          (visit_content lower query open_file text_of (extension_set lower extensions)
            (min 10 context_lines) (limit_of limit))
          (walk_calls tree) [])
  ]

  unfoldable pub search_file_content :
      (Text → Bool)
      → Option Nodes
      → Text
      → List Text
      → ℤ
      → ℤ
      → SearchError ⊎ List FileContentSearchResult
  unfolding trim_space search_content_lines
  search_file_content canceled_at root raw_query extensions context_lines limit =
      let query = lower (trim_space raw_query) in
      if query == []
      then inl invalid_query
      else if ltb max_query_length (length query)
      then inl too_long
      else elim context_lines [
        | negsuc n ↦ inl bad_context
        | pos n ↦ search_content_lines canceled_at root query extensions n limit
      ]
