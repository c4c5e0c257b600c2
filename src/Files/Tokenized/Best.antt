-- ===== src/Files/Tokenized/Best.antt =====
-- A search over the index returns the best of all documents that match.
use xktmcp.Prelude.Text.{Text}
use xktmcp.Files.Tokenized.{Bool, Text}
use xktmcp.Prelude.{
  ==-refl, Bool, Option, List, nat_eq, list_eq, ℕ, [], ◌∷◌, true, false, some, none, refl, ◌≡◌, ◌≢◌,
  arith, Bool-cases, Option-cases, inl, inr, ◌||◌, take, length-take, sym, ap, ◌∙◌,
}
use xktmcp.Files.Index
use xktmcp.Files.Tokenized
use xktmcp.Files.Index.{document, FileSearchDocument, FileSearchIndex}
use xktmcp.Files.Tokenized.Complete.{document_matches-Reason, candidates-listed}
use xktmcp.Files.Content.{OpenedFile, listed}
use xktmcp.Files.Ranked.{FileSearchResult, insert_ranked}
use xktmcp.Files.Ranked.Insert.{
  insert, insert_all, IsRanked, insert_ranked-take, take-insert, insert_all-Permᴰ,
  insert_all-IsRanked, nil-Permᴰ, nil-IsRanked, take_nil,
}
use mathlib.Core.List.{List, Permᴰ}
use mathlib.Core.Option.{Option, some-injective}

-- The results for some paths.
unfoldable pub results : (Text → Option FileSearchResult) → List Text → List FileSearchResult
results result [] = []
results result (name ∷ names) = elim (result name) [
  | none ↦ results result names
  | some item ↦ item ∷ results result names
]

-- Where the candidates leave out no result, the loop keeps the best results of all paths.
rank-take :
    (canceled_at is_candidate : Text → Bool) (result : Text → Option FileSearchResult) (limit : ℕ)
    (names : List Text) (l b : List FileSearchResult)
    → ((name : Text) → listed name names ≡ true → is_candidate name ≡ false → result name ≡ none)
    → Tokenized.rank canceled_at is_candidate result limit names (take limit l) ≡ some b
    → b ≡ take limit (insert_all (results result names) l)
unfolding Tokenized.rank results insert_all
rank-take canceled_at is_candidate result limit [] l b misses h = sym (some-injective _ _ h)
rank-take canceled_at is_candidate result limit (name ∷ names) l b misses h =
    let later = λ (n : Text) (m : listed n names ≡ true) (q : is_candidate n ≡ false).
      misses n (ground (arith, m)) q in
    elim (Bool-cases (canceled_at name)) [
      | inl end ↦ absurd (ground (arith, h, end))
      | inr on ↦ elim (Bool-cases (is_candidate name)) [
        | inr out ↦
            let nothing = misses name (ground (arith, ==-refl name)) out in
            rank-take canceled_at is_candidate result limit names l b later
              (ground (arith, h, on, out))
            ∙ rw (nothing, results) refl
        | inl in_it ↦ elim (Option-cases (result name)) [
          | inl nothing ↦
              rank-take canceled_at is_candidate result limit names l b later
                (ground (arith, h, on, in_it, nothing))
              ∙ rw (nothing, results) refl
          | inr (x, hit) ↦
              let best : insert_ranked limit x (take limit l) ≡ take limit (insert x l) =
                insert_ranked-take limit x (take limit l) (omega (arith, length-take limit l))
                ∙ take-insert limit x l in
              rank-take canceled_at is_candidate result limit names (insert x l) b later (
                ap (Tokenized.rank canceled_at is_candidate result limit names) (sym best)
                ∙ ground (arith, h, on, in_it, hit))
              ∙ rw (hit, results) refl
        ]
      ]
    ]

result_of-none :
    (files : List (Text × FileSearchDocument)) (query : Text) (terms : List Text)
    (search_in name : Text)
    → listed name (Index.build_file_search_index files).paths ≡ true
    → ((t : Text) → listed t terms ≡ true → t ≢ [])
    → listed name (Tokenized.candidates (Index.build_file_search_index files) query terms search_in)
      ≡ false
    → Tokenized.result_of (Index.build_file_search_index files) query terms search_in name ≡ none
unfolding Tokenized.result_of Index.build_file_search_index
result_of-none files query terms search_in name known full out =
    let found = Index.document_matches (document files name) query terms search_in in
    elim (Bool-cases (found.0 || found.1)) [
      | inr nothing ↦ ground (arith, nothing)
      | inl match ↦
          let (searchable, why) =
            document_matches-Reason (document files name) query terms search_in match in
          absurd (
            ground (
              arith,
              out,
              candidates-listed files query terms search_in name known searchable full why,
            ))
    ]

-- A search over the index of some documents that succeeds returns the best of all the documents that
-- match, in order, with their snippets: none is missed for want of an entry in the index. The tokenizer
-- gives no empty term.
pub search_tokenized-best :
    (lower : Text → Text) (terms_of : Text → List Text) (open_file : Text → Option OpenedFile)
    (to_text : Text → Text) (canceled_at : Text → Bool) (opened : Bool)
    (files : List (Text × FileSearchDocument)) (query search_in : Text) (limit : ℕ)
    (items : List FileSearchResult)
    → ((t : Text) → listed t (terms_of query) ≡ true → t ≢ [])
    → Tokenized.search_tokenized lower terms_of open_file to_text canceled_at
        (some (Index.build_file_search_index files))
        opened
        query
        search_in
        limit
      ≡ inr items
    → (all : List FileSearchResult) × Permᴰ all (
        results
          (Tokenized.result_of
            (Index.build_file_search_index files)
            query
            (terms_of query)
            search_in)
          (Index.build_file_search_index files).paths)
      × IsRanked all
      × (items
          ≡ Tokenized.with_snippets lower
              (Tokenized.content_of open_file to_text)
              query
              (terms_of query)
              (take limit all))
unfolding Tokenized.search_tokenized
search_tokenized-best lower terms_of open_file to_text canceled_at opened files query search_in
      limit items full h =
    let index = Index.build_file_search_index files in
    let terms = terms_of query in
    let is_candidate =
      λ (name : Text). listed name (Tokenized.candidates index query terms search_in) in
    let result = Tokenized.result_of index query terms search_in in
    let found = results result index.paths in
    elim (Option-cases (Tokenized.rank canceled_at is_candidate result limit index.paths [])) [
      | inl failed ↦ absurd (ground (arith, h, failed))
      | inr (b, p) ↦
          let best : b ≡ take limit (insert_all found []) =
            rank-take canceled_at is_candidate result limit index.paths [] b
              (λ name m out. result_of-none files query terms search_in name m full out)
              (ap (Tokenized.rank canceled_at is_candidate result limit index.paths)
                  (take_nil limit)
                ∙ p) in
          (
            insert_all found [],
            Permᴰ.trans (insert_all-Permᴰ found []) (nil-Permᴰ found),
            insert_all-IsRanked found [] nil-IsRanked,
            ground (arith, h, p, best),
          )
    ]
