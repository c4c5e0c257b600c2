-- ===== src/Files/Ranked/Best.antt =====
-- The results of a search are the best of its matches.
use xktmcp.Files.Find.{limit_of}
use xktmcp.Prelude.Int.{ℤ}
use xktmcp.Files.Content.{OpenedFile}
use xktmcp.Prelude.Text.{trim_space, Text}
use xktmcp.Prelude.{
  length-take, ◌∙◌, ap, sym, Option-cases, take, ◌⊎◌, List, Bool, Option, nat_eq, list_eq, ℕ, [],
  ◌∷◌, refl, arith, inl, inr, none, some, Bool-cases, ◌≡◌,
}
use xktmcp.Files.Ranked
use xktmcp.Files.Walk
use xktmcp.Files.Walk.{Visit, Info, found, broken, passed_over, more, fail, walk_calls, Nodes}
use xktmcp.Files.Walk.Collect.{walk_found, picked}
use xktmcp.Files.Ranked.Insert.{
  take_nil, nil-Permᴰ, nil-IsRanked, insert, insert_all, IsRanked, insert_ranked-take, take-insert,
  insert_all-Permᴰ, insert_all-IsRanked,
}
use xktmcp.Files.Ranked.{limit_of, FileSearchResult, loaded, skipped, unread, Loaded}
use mathlib.Core.List.{Permᴰ}
use mathlib.Core.Option.{some-injective}

module _ (lower : Text → Text) (open_file : Text → Option OpenedFile) (text_of : Text → Option Text)
    (canceled_after : Text → Bool) (query search_in : Text) where
  -- The result that the search makes of a file, if it reads the file and the file matches.
  abbrev pub match_of : Text → Text → Info → Option FileSearchResult
  match_of path name info =
      elim (Ranked.load lower open_file text_of canceled_after path name info) [
        | unread ↦ none
        | skipped ↦ none
        | loaded title content ↦
            Ranked.result_for lower open_file text_of canceled_after query search_in path name info
              title content
      ]

  -- What the callback does with a file: nothing, an error, or an insertion.
  visit_ranked-cases :
      (limit : ℕ) (path name : Text) (info : Info) (a : List FileSearchResult)
      → (Ranked.visit_ranked lower open_file text_of canceled_after query search_in limit path name
            info a
          ≡ fail)
        ⊎ ((match_of path name info ≡ none)
            × (Ranked.visit_ranked lower open_file text_of canceled_after query search_in limit path
                  name info a
                ≡ more a))
        ⊎ ((x : FileSearchResult) × (match_of path name info ≡ some x)
            × (Ranked.visit_ranked lower open_file text_of canceled_after query search_in limit path
                  name info a
                ≡ more (Ranked.insert_ranked limit x a)))
  unfolding Ranked.visit_ranked
  visit_ranked-cases limit path name info a =
      go (Ranked.load lower open_file text_of canceled_after path name info) refl
    where
      go :
          (o : Loaded)
          → Ranked.load lower open_file text_of canceled_after path name info ≡ o
          → (Ranked.visit_ranked lower open_file text_of canceled_after query search_in limit path
                name info a
              ≡ fail)
            ⊎ ((match_of path name info ≡ none)
                × (Ranked.visit_ranked lower open_file text_of canceled_after query search_in limit
                      path name info a
                    ≡ more a))
            ⊎ ((x : FileSearchResult) × (match_of path name info ≡ some x)
                × (Ranked.visit_ranked lower open_file text_of canceled_after query search_in limit
                      path name info a
                    ≡ more (Ranked.insert_ranked limit x a)))
      go unread e = inl (rw (e, Ranked.visit_ranked) refl)
      go skipped e = inr (inl (rw (e, match_of) refl, rw (e, Ranked.visit_ranked) refl))
      go (loaded title content) e =
          elim (Option-cases (
            Ranked.result_for lower open_file text_of canceled_after query search_in path name info
              title content)) [
                | inl q ↦ inr (inl (rw (e, match_of) q, rw (e, Ranked.visit_ranked) (rw q refl)))
                | inr (x, q) ↦
                    inr (inr (x, rw (e, match_of) q, rw (e, Ranked.visit_ranked) (rw q refl)))
              ]

  -- The walk keeps the best results of what it has seen.
  walk-take :
      (canceled_at : Text → Bool) (limit : ℕ) (vs : List Visit) (l b : List FileSearchResult)
      → Walk.walk canceled_at
          (Ranked.visit_ranked lower open_file text_of canceled_after query search_in limit)
          vs
          (take limit l)
        ≡ some b
      → b ≡ take limit (insert_all (picked match_of vs) l)
  unfolding Walk.walk Walk.call_back picked insert_all
  walk-take canceled_at limit [] l b h = sym (some-injective _ _ h)
  walk-take canceled_at limit (found path name info ∷ vs) l b h =
      let visit =
        Ranked.visit_ranked lower open_file text_of canceled_after query search_in limit in
      elim (walk_found canceled_at visit path name info vs (take limit l) b h) [
        | inl e ↦ elim (visit_ranked-cases limit path name info (take limit l)) [
          | inl bad ↦ absurd (ground (arith, e, bad))
          | inr (inl (skip, q)) ↦ absurd (ground (arith, e, q))
          | inr (inr (x, hit, q)) ↦ absurd (ground (arith, e, q))
        ]
        | inr (next, e, rest) ↦ elim (visit_ranked-cases limit path name info (take limit l)) [
          | inl bad ↦ absurd (ground (arith, e, bad))
          | inr (inl (skip, q)) ↦
              let same : next ≡ take limit l = ground (arith, e, q) in
              walk-take canceled_at limit vs l b
                (ap (Walk.walk canceled_at visit vs) (sym same) ∙ rest)
              ∙ rw (skip, picked) refl
          | inr (inr (x, hit, q)) ↦
              let same : next ≡ Ranked.insert_ranked limit x (take limit l) =
                ground (arith, e, q) in
              let best : next ≡ take limit (insert x l) =
                same
                ∙ insert_ranked-take limit x (take limit l) (omega (arith, length-take limit l))
                ∙ take-insert limit x l in
              walk-take canceled_at limit vs (insert x l) b
                (ap (Walk.walk canceled_at visit vs) (sym best) ∙ rest)
              ∙ rw (hit, picked) refl
        ]
      ]
  walk-take canceled_at limit (broken path ∷ vs) l b h = absurd (ground (arith, h))
  walk-take canceled_at limit (passed_over path ∷ vs) l b h = elim (Bool-cases (canceled_at path)) [
    | inl late ↦ absurd (ground (arith, h, late))
    | inr calm ↦ walk-take canceled_at limit vs l b (ground (arith, h, calm))
  ]

  search_ranked-best :
      (canceled_at : Text → Bool) (tree : Nodes) (limit : ℕ) (items : List FileSearchResult)
      → Ranked.search_ranked lower open_file text_of canceled_after canceled_at
          (some tree)
          query
          search_in
          limit
        ≡ inr items
      → (all : List FileSearchResult) × Permᴰ all (picked match_of (walk_calls tree))
        × IsRanked all
        × (items ≡ take limit all)
  unfolding Ranked.search_ranked
  search_ranked-best canceled_at tree limit items h =
      elim (Option-cases (
        Walk.walk canceled_at
          (Ranked.visit_ranked lower open_file text_of canceled_after query search_in limit)
          (walk_calls tree) [])) [
            | inl failed ↦ absurd (ground (arith, h, failed))
            | inr (b, p) ↦
                let found = picked match_of (walk_calls tree) in
                let same : b ≡ items = ground (arith, h, p) in
                (
                  insert_all found [],
                  Permᴰ.trans (insert_all-Permᴰ found []) (nil-Permᴰ found),
                  insert_all-IsRanked found [] nil-IsRanked,
                  sym same
                      ∙ walk-take canceled_at limit (walk_calls tree) [] b (
                          ap
                            (Walk.walk canceled_at
                              (Ranked.visit_ranked lower open_file text_of canceled_after query
                                search_in limit)
                              (walk_calls tree))
                            (take_nil limit)
                          ∙ p),
                )
          ]

-- A search without a tokenizer that succeeds returns the best of the files that match, in order: those
-- whose title or name matches before the others, each by path, the limit of them or all if they are fewer.
pub search-best :
    (lower : Text → Text) (open_file : Text → Option OpenedFile) (text_of : Text → Option Text)
    (canceled_after : Text → Bool) (canceled_now : Bool) (canceled_at : Text → Bool) (tree : Nodes)
    (query scope : Text) (limit : ℤ) (items : List FileSearchResult)
    → Ranked.search lower open_file text_of canceled_after none canceled_now canceled_at
        (some tree)
        query
        scope
        limit
      ≡ inr items
    → (all : List FileSearchResult) × Permᴰ all (
        picked
          (match_of lower open_file text_of canceled_after
            (lower (trim_space query))
            (Ranked.scope_of lower scope))
          (walk_calls tree))
      × IsRanked all
      × (items ≡ take (limit_of limit) all)
unfolding Ranked.search
search-best lower open_file text_of canceled_after canceled_now canceled_at tree query scope limit
      items h =
    search_ranked-best lower open_file text_of canceled_after (lower (trim_space query))
      (Ranked.scope_of lower scope) canceled_at tree (limit_of limit) items (ground (arith, h))
