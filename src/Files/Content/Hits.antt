-- ===== src/Files/Content/Hits.antt =====
-- What a search of the contents returns.
use xktmcp.Files.Walk.Collect.{walk-All}
use xktmcp.Prelude.Int.{ℤ}
use xktmcp.Files.Find.{limit_of-positive, limit_of, append_below}
use xktmcp.Files.Walk.{Nodes, Info}
use xktmcp.Prelude.Text.{trim_space, Text}
use xktmcp.Prelude.{
  ◌≤◌, Bool, ◌&&◌, ltb, ◌||◌, not, ◌⊎◌, Option-cases, ap, suc, false, inr, [], All, true,
  Bool-cases, length, arith, ◌+◌, ◌∷◌, some, ◌++◌, ◌≡◌, List, nat_eq, list_eq, ℕ,
}
use mathlib.Core.Option.{some-injective}
use xktmcp.Prelude.{refl, ap, sym, ◌∙◌, Option, some, inl, inr}
use xktmcp.Prelude.{none, min}
use xktmcp.Prelude.Int.{pos, negsuc}
use xktmcp.Files.Walk.{walk, walk_calls, Nodes}
use xktmcp.Files.Content
use xktmcp.Files.Content.{
  limit_of, ℤ, Nodes, Bool, ltb, not, append_below, fail, stop, more, Info, trim_space, split, suc,
  false, [], inl, contains, length, some, List, Text, FileContentSearchResult, OpenedFile,
}

-- A line that contains the query, the first of the lines that does.
pub record IsFirst (lower : Text → Text) (query line : Text) (lines : List Text) (n : ℕ)
    : Type 0 where
  pub before : List Text
  pub after : List Text
  pub split_at : lines ≡ before ++ (line ∷ after)
  pub number : n ≡ length before
  pub contained : contains (lower line) query ≡ true
  pub none_before : All (λ l. contains (lower l) query ≡ false) before

first_hit-IsFirst :
    (lower : Text → Text) (query line : Text) (i n : ℕ) (lines : List Text)
    → Content.first_hit lower query i lines ≡ some (n, line)
    → (m : ℕ) × (n ≡ i + m) × IsFirst lower query line lines m
unfolding Content.first_hit
first_hit-IsFirst lower query line i n [] h = absurd (ground (arith, h))
first_hit-IsFirst lower query line i n (l ∷ lines) h =
    elim (Bool-cases (contains (lower l) query)) [
      | inl hit ↦
          let e : Path (Option (ℕ × Text)) (some (i, l)) (some (n, line)) =
            ground (arith, h, hit) in
          (
            0,
            omega (arith, ap (λ p. p.0) (some-injective _ _ e)),
            record {
              before = [];
              after = lines;
              split_at = ap (λ p. p.1 ∷ lines) (some-injective _ _ e);
              number = refl;
              contained = ap (λ p. contains (lower p.1) query) (sym (some-injective _ _ e)) ∙ hit;
              none_before = tt;
            },
          )
      | inr miss ↦
          let (m, e, first) =
            first_hit-IsFirst lower query line (suc i) n lines (ground (arith, h, miss)) in
          (
            suc m,
            omega (arith, e),
            record {
              before = l ∷ first.before;
              after = first.after;
              split_at = ap (◌∷◌ l) first.split_at;
              number = omega (arith, first.number);
              contained = first.contained;
              none_before = (miss, first.none_before);
            },
          )
    ]

-- A result of a search of the contents: the file is read as text, the line is the first of its lines that
-- contains the query, and the snippet is that line.
pub record IsHit (lower : Text → Text) (open_file : Text → Option OpenedFile)
    (text_of : Text → Option Text) (query : Text) (item : FileContentSearchResult) : Type 0 where
  pub text : Text
  pub line : Text
  pub number : ℕ
  pub read :
      Content.searched_text text_of (Content.read_search_file open_file item.path)
      ≡ some (some text)
  pub first : IsFirst lower query line (split 10 (Content.trim_newline text)) number
  pub numbered : item.line ≡ number + 1
  pub shown : item.snippet ≡ trim_space line

content_hit-IsFirst :
    (lower : Text → Text) (query : Text) (context_lines : ℕ) (path : Text) (lines : List Text)
    (item : FileContentSearchResult)
    → Content.content_hit lower query context_lines path lines ≡ some item
    → (number : ℕ) × (line : Text) × IsFirst lower query line lines number
      × (item.path ≡ path)
      × (item.line ≡ number + 1)
      × (item.snippet ≡ trim_space line)
unfolding Content.content_hit
content_hit-IsFirst lower query context_lines path lines item h =
    elim (Option-cases (Content.first_hit lower query 0 lines)) [
      | inl p ↦ absurd (ground (arith, h, p))
      | inr ((n, line), p) ↦
          let (m, e, first) = first_hit-IsFirst lower query line 0 n lines p in
          (m, line, first, ground (arith, h, p), ground (arith, h, p, e), ground (arith, h, p))
    ]

module _ (lower : Text → Text) (query : Text) (open_file : Text → Option OpenedFile)
    (text_of : Text → Option Text) where
  -- What the callback does with a file: nothing, an error, or one more result.
  visit_content-cases :
      (exts : List Text) (context_lines limit : ℕ) (path name : Text) (info : Info)
      (a : List FileContentSearchResult)
      → (Content.visit_content lower query open_file text_of exts context_lines limit path name info
            a
          ≡ more a)
        ⊎ (Content.visit_content lower query open_file text_of exts context_lines limit path name
              info a
            ≡ fail)
        ⊎ ((item : FileContentSearchResult) × IsHit lower open_file text_of query item
            × (Content.visit_content lower query open_file text_of exts context_lines limit path
                  name info a
                ≡ append_below limit item a))
  unfolding Content.visit_content
  visit_content-cases exts context_lines limit path name info a =
      elim (Bool-cases (
        not (Content.searchable_text_extension lower (Content.ext_of path))
        || ltb 0 (length exts) && not (Content.listed (lower (Content.ext_of path)) exts))) [
          | inl other ↦ inl (rw other refl)
          | inr searched ↦
              elim (Option-cases
                (Content.searched_text text_of (Content.read_search_file open_file path))) [
                  | inl broken ↦ inr (inl (rw searched (rw broken refl)))
                  | inr (none, p) ↦ inl (rw searched (rw p refl))
                  | inr (some t, p) ↦
                      elim (Option-cases (
                        Content.content_hit lower query context_lines path
                          (split 10 (Content.trim_newline t)))) [
                            | inl miss ↦ inl (rw searched (rw p (rw miss refl)))
                            | inr (item, hit) ↦
                                let (number, line, first, at, numbered, shown) =
                                  content_hit-IsFirst lower query context_lines path
                                    (split 10 (Content.trim_newline t)) item hit in
                                inr (
                                  inr (
                                    item,
                                    record {
                                      text = t;
                                      line = line;
                                      number = number;
                                      first = first;
                                      numbered = numbered;
                                      shown = shown;
                                      read =
                                          ap
                                            (λ q.
                                              Content.searched_text text_of
                                                (Content.read_search_file open_file q))
                                            at
                                          ∙ p;
                                    },
                                    rw searched (rw p (rw hit refl)),
                                  ))
                          ]
                ]
        ]

  search_content_lines-IsHit :
      (canceled_at : Text → Bool) (root : Option Nodes) (extensions : List Text) (context_lines : ℕ)
      (limit : ℤ) (items : List FileContentSearchResult)
      → Content.search_content_lines lower open_file text_of canceled_at root query extensions
          context_lines limit
        ≡ inr items
      → (length items ≤ limit_of limit) × All (IsHit lower open_file text_of query) items
  unfolding Content.search_content_lines
  search_content_lines-IsHit canceled_at none extensions context_lines limit items h =
      absurd (ground (arith, h))
  search_content_lines-IsHit canceled_at (some tree) extensions context_lines limit items h =
      let visit =
        Content.visit_content lower query open_file text_of (Content.extension_set lower extensions)
          (min 10 context_lines) (limit_of limit) in
      elim (Option-cases (walk canceled_at visit (walk_calls tree) [])) [
        | inl failed ↦ absurd (ground (arith, h, failed))
        | inr (found, p) ↦
            let same : found ≡ items = ground (arith, h, p) in
            walk-All (limit_of limit) (IsHit lower open_file text_of query) canceled_at visit
              (visit_content-cases (Content.extension_set lower extensions) (min 10 context_lines)
                (limit_of limit))
              (limit_of-positive limit) (walk_calls tree) items (p ∙ ap some same)
      ]

-- Each result of a search of the contents is a hit: its file is text without a zero byte, its line is
-- the first of that text that contains the query in lower case, and there are no more than the limit.
pub search_file_content-IsHit :
    (lower : Text → Text) (open_file : Text → Option OpenedFile) (text_of : Text → Option Text)
    (canceled_at : Text → Bool) (root : Option Nodes) (query : Text) (extensions : List Text)
    (context_lines limit : ℤ) (items : List FileContentSearchResult)
    → Content.search_file_content lower open_file text_of canceled_at root query extensions
        context_lines limit
      ≡ inr items
    → (length items ≤ limit_of limit)
      × All (IsHit lower open_file text_of (lower (trim_space query))) items
unfolding Content.search_file_content
search_file_content-IsHit lower open_file text_of canceled_at root query extensions (negsuc n) limit
      items h =
    absurd (ground (arith, h))
search_file_content-IsHit lower open_file text_of canceled_at root query extensions (pos n) limit
      items h =
    search_content_lines-IsHit lower (lower (trim_space query)) open_file text_of canceled_at root
      extensions n limit items (ground (arith, h))
