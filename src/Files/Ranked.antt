-- ===== src/Files/Ranked.antt =====
-- internal/service/file_service.go: Search without a tokenizer, with the title and the snippet of a file.
-- The search over an index of terms is a parameter.
pub mod Order
pub mod Insert
pub mod Best
use xktmcp.Prelude.Int.{ℤ}
use xktmcp.Prelude.Text.{codes, has_prefix, trim_space, Text}
use xktmcp.Prelude.{
  ◌+◌, length, min, inl, ◌&&◌, [], ◌-◌, drop, ◌||◌, ◌⊎◌, not, ltb, ◌++◌, suc, true, some, ◌==◌,
  take, if◌then◌else◌, false, Option, none, ◌∷◌, Bool, List, nat_eq, list_eq, ℕ,
}
use xktmcp.Prelude.Split.{split}
use xktmcp.Files.Walk.{Nodes, Info, Step, more, stop, fail, walk, walk_calls}
use xktmcp.Files.Find.{
  canceled, bad_scope, too_long, invalid_query, no_root, SearchError, contains, index_of, limit_of,
  concluded, max_query_length,
}
use xktmcp.Files.Content.{
  OpenedFile, read_search_file, searched_text, searchable_text_extension, ext_of,
  max_search_file_bytes, extension,
}

-- model.FileSearchResult
pub record FileSearchResult : Type 0 where
  pub path : Text
  pub title : Text
  pub snippet : Text
  pub matched_fields : List Text
  pub size_bytes : ℕ

-- strings.TrimLeft(s, " \t")
abbrev pub trim_blanks : Text → Text
trim_blanks [] = []
trim_blanks (c ∷ s) = let rest = trim_blanks s in if c == 32 || c == 9 then rest else c ∷ s

-- The loop of fileMarkdownTitle, with the fence that is open.
unfoldable pub title_from : Option Text → List Text → Text → Text
unfolding trim_space has_prefix
title_from fence [] fallback = fallback
title_from (some mark) (l ∷ lines) fallback =
    let closed = title_from none lines fallback in
    let fenced = title_from (some mark) lines fallback in
    if has_prefix (trim_space l) mark then closed else fenced
title_from none (l ∷ lines) fallback =
    let line = trim_space l in
    let fenced = title_from (some (take 3 line)) lines fallback in
    let rest = title_from none lines fallback in
    let title = trim_space (trim_blanks (drop 1 line)) in
    if has_prefix line (codes "```") || has_prefix line (codes "~~~")
    then fenced
    else if has_prefix line (codes "# ") || has_prefix line (35 ∷ 9 ∷ [])
    then (if not (title == []) then title else rest)
    else rest

-- fileMarkdownTitle. The line ends that strings.Lines keeps are trimmed in any case.
abbrev pub file_markdown_title : Text → Text → Text
file_markdown_title content fallback = title_from none (split 10 content) fallback

abbrev pub ellipsis : ℕ
ellipsis = 0x2026

-- fileSearchSnippetAt, with the place of the match in characters
unfoldable pub snippet_at : Text → Option ℕ → Text
snippet_at content found =
    let start : ℕ = elim found [ none ↦ 0 | some n ↦ n - 60 ] in
    let end = min (length content) (start + 240) in
    let snippet = take (end - start) (drop start content) in
    let headed = (if ltb 0 start then ellipsis ∷ snippet else snippet) in
    if ltb end (length content) then headed ++ (ellipsis ∷ []) else headed

-- strings.TrimPrefix(data, "\ufeff")
abbrev pub trim_mark : Text → Text
trim_mark [] = []
trim_mark (c ∷ s) = if c == 0xfeff then s else c ∷ s

-- The order of strings.
unfoldable pub text_ltb : Text → Text → Bool
text_ltb [] [] = false
text_ltb [] (d ∷ t) = true
text_ltb (c ∷ s) [] = false
text_ltb (c ∷ s) (d ∷ t) = ltb c d || c == d && text_ltb s t

-- items[i].MatchedFields[0] == "title"
abbrev pub is_titled : List Text → Bool
is_titled [] = false
is_titled (field ∷ fields) = field == codes "title"

-- The test of sort.Search: if a result with these fields and this path stands before another one.
unfoldable pub stands_before : FileSearchResult → FileSearchResult → Bool
unfolding text_ltb
stands_before item other =
    if is_titled item.matched_fields
    then (if is_titled other.matched_fields then text_ltb item.path other.path else true)
    else if is_titled other.matched_fields
    then false
    else text_ltb item.path other.path

-- The first index that passes the test, which sort.Search finds in a list that is in order.
unfoldable pub position : FileSearchResult → List FileSearchResult → ℕ
unfolding stands_before
position item [] = 0
position item (other ∷ items) =
    let rest = position item items in if stands_before item other then 0 else suc rest

-- Keep at most limit results, with title matches ahead of content matches.
unfoldable pub insert_ranked : ℕ → FileSearchResult → List FileSearchResult → List FileSearchResult
unfolding position
insert_ranked limit item items =
    let pos = position item items in
    let wider = take pos items ++ (item ∷ drop pos items) in
    if ltb pos limit then (if ltb limit (length wider) then take limit wider else wider) else items

-- What the search reads of a file: its title and content, or that it is passed over.
pub data Loaded : Type 0 where
  unread : Loaded
  skipped : Loaded
  loaded : Text → Text → Loaded

abbrev pub matched_fields_of : Bool → Bool → List Text
matched_fields_of title content =
    (if title then codes "title" ∷ [] else []) ++ (if content then codes "content" ∷ [] else [])

-- searchIn, with its default
abbrev pub scope_of : (Text → Text) → Text → Text
scope_of lower given =
    if lower (trim_space given) == [] then codes "all" else lower (trim_space given)

-- `canceled_after` says if ctx.Err() is set once the file at a path is read.
module _ (lower : Text → Text) (open_file : Text → Option OpenedFile) (text_of : Text → Option Text)
    (canceled_after : Text → Bool) where
  abbrev pub is_markdown : Text → Bool
  is_markdown ext = lower ext == codes ".md" || lower ext == codes ".markdown"

  unfoldable pub load : Text → Text → Info → Loaded
  unfolding read_search_file searched_text title_from extension
  load path name info =
      if not info.known
      then unread
      else if not info.regular || ltb max_search_file_bytes info.size
      then skipped
      else if searchable_text_extension lower (ext_of path)
      then elim (searched_text text_of (read_search_file open_file path)) [
        | none ↦ unread
        | some text ↦ elim text [
          | none ↦ skipped
          | some t ↦
              let content = trim_mark t in
              let title =
                (if is_markdown (ext_of path) then file_markdown_title content name else name) in
              if canceled_after path then unread else loaded title content
        ]
      ]
      else if canceled_after path
      then unread
      else loaded name []

  -- The result for a file, if it matches.
  unfoldable pub result_for :
      Text → Text → Text → Text → Info → Text → Text → Option FileSearchResult
  unfolding index_of snippet_at
  result_for query search_in path name info title content =
      let title_match =
        not (search_in == codes "content")
        && (contains (lower title) query || contains (lower name) query) in
      let content_match = not (search_in == codes "title") && contains (lower content) query in
      if not title_match && not content_match
      then none
      else some (record {
        path = path;
        title = title;
        snippet = snippet_at content (index_of (lower content) query);
        matched_fields = matched_fields_of title_match content_match;
        size_bytes = info.size;
      })

  -- The callback of Search on a regular file.
  unfoldable pub visit_ranked :
      Text → Text → ℕ → Text → Text → Info → List FileSearchResult → Step (List FileSearchResult)
  unfolding load result_for insert_ranked
  visit_ranked query search_in limit path name info items = elim (load path name info) [
    | unread ↦ fail
    | skipped ↦ more items
    | loaded title content ↦ elim (result_for query search_in path name info title content) [
      | none ↦ more items
      | some item ↦ more (insert_ranked limit item items)
    ]
  ]

  -- Search without a tokenizer, from the opening of the root on.
  unfoldable pub search_ranked :
      (Text → Bool) → Option Nodes → Text → Text → ℕ → SearchError ⊎ List FileSearchResult
  unfolding visit_ranked walk
  search_ranked canceled_at root query search_in limit = elim root [
    | none ↦ inl no_root
    | some tree ↦
        concluded (walk canceled_at (visit_ranked query search_in limit) (walk_calls tree) [])
  ]

  -- Search. `tokenized` is searchTokenized, where there is a tokenizer.
  unfoldable pub search :
      Option (Text → Text → ℕ → SearchError ⊎ List FileSearchResult)
      → Bool
      → (Text → Bool)
      → Option Nodes
      → Text
      → Text
      → ℤ
      → SearchError ⊎ List FileSearchResult
  unfolding trim_space search_ranked
  search tokenized canceled_now canceled_at root raw_query raw_scope limit =
      let query = lower (trim_space raw_query) in
      let search_in = scope_of lower raw_scope in
      if query == []
      then inl invalid_query
      else if ltb max_query_length (length query)
      then inl too_long
      else if not (search_in == codes "all")
          && not (search_in == codes "title")
          && not (search_in == codes "content")
      then inl bad_scope
      else if canceled_now
      then inl canceled
      else elim tokenized [
        | some by_terms ↦ by_terms query search_in (limit_of limit)
        | none ↦ search_ranked canceled_at root query search_in (limit_of limit)
      ]
