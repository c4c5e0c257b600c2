-- ===== src/Files/SearchTests.antt =====
-- The searches on a small directory.
use xktmcp.Files.Tokenized
use xktmcp.Files.Index
use xktmcp.Files.Index.{FileSearchDocument}
use xktmcp.Files.Content.{listed}
use xktmcp.Prelude.{not}
use xktmcp.Files.Tokens
use xktmcp.Files.Refresh
use xktmcp.Files.Tokens.{Classes}
use xktmcp.Files.Refresh.{FileSearchTokenizer}
use xktmcp.Files.Index.{FileSearchIndex}
use xktmcp.Files.Refresh.Built.{IsBuilt, WasBuilt}
use xktmcp.Files.Refresh.Search.{IsBestOf, gse_tokenizer, search_refreshed-IsBestOf}
use xktmcp.Files.Find.Names.{search_file_names-picked}
use xktmcp.Files.Ranked.Insert.{IsRanked}
use xktmcp.Files.Ranked.Best.{search-best, match_of}
use xktmcp.Files.Content.Hits.{search_file_content-IsHit, IsHit}
use mathlib.Core.List.{Permᴰ}
use xktmcp.Files.Find.{contains}
use xktmcp.Prelude.{Option, Bool, List, length, take, All, arith, inr, ◌≤◌, if◌then◌else◌}
use xktmcp.Files.Walk.{walk_calls}
use xktmcp.Files.Content.{OpenedFile, FileContentSearchResult}
use xktmcp.Files.Ranked.{FileSearchResult}
use xktmcp.Files.Walk.Collect.{picked, IsCalm}
use xktmcp.Prelude.{nat_eq, list_eq, refl, true, false, some, none, [], ◌∷◌, ◌≡◌, ◌==◌}
use xktmcp.Prelude.Int.{pos}
use xktmcp.Prelude.Text.{trim_space, Text, codes}
use xktmcp.Prelude.Split.{split}
use xktmcp.Files.Walk
use xktmcp.Files.Walk.{Nodes, Info, entry, empty, directory, file}
use xktmcp.Files.Find
use xktmcp.Files.Content
use xktmcp.Files.Ranked

abbrev info : Info
info = record { known = true; regular = true; size = 9; mod_time = 1; metadata = [] }

abbrev tree : Nodes
tree = entry (codes ".git") (directory (entry (codes "plan.md") (file info) empty)) (
    entry (codes "old") (directory (entry (codes "plan.txt") (file info) empty))
      (entry (codes "plan.md") (file info) empty))

abbrev open_plan : Text → Option OpenedFile
open_plan path =
    if path == codes "plan.md"
    then some (record { regular = true; size = 9; data_read = some (codes "# To do\nb plan") })
    else some (record { regular = true; size = 9; data_read = some (codes "a\nplan b\nplan c") })

abbrev is_plan : Text → Bool
is_plan name = contains name (codes "plan")

search_file_names-picked_example :
    Find.search_file_names
      (λ query. none)
      (λ t. t)
      (λ path. false)
      (some tree)
      (codes " plan")
      false
      (pos 1)
    ≡ inr (record { path = codes "old/plan.txt"; name = codes "plan.txt" } ∷ [])
unfolding Find.name_test picked Walk.visits IsCalm trim_space
search_file_names-picked_example =
    search_file_names-picked (λ query. none) (λ t. t) (λ path. false) tree (codes " plan") false
      (pos 1) is_plan (ground arith) (omega arith) refl (refl, (refl, (refl, (refl, (refl, tt)))))

abbrev hits : List FileContentSearchResult
hits =
    record {
      path = codes "old/plan.txt";
      line = 2;
      snippet = codes "plan b";
      context = codes "plan b";
    }
    ∷ record {
      path = codes "plan.md";
      line = 2;
      snippet = codes "b plan";
      context = codes "b plan";
    }
    ∷ []

search_file_content-IsHit_example :
    (length hits ≤ 20) × All (IsHit (λ t. t) open_plan some (codes "plan")) hits
unfolding Content.search_file_content Walk.visits
search_file_content-IsHit_example =
    search_file_content-IsHit (λ t. t) open_plan some (λ path. false) (some tree) (codes "plan ") []
      (pos 0) (pos 0) hits refl

abbrev best : List FileSearchResult
best =
    record {
      path = codes "old/plan.txt";
      title = codes "plan.txt";
      snippet = codes "a\nplan b\nplan c";
      matched_fields = codes "title" ∷ codes "content" ∷ [];
      size_bytes = 9;
    }
    ∷ []

search-best_example :
    (all : List FileSearchResult) × Permᴰ all (
      picked
        (match_of (λ t. t) open_plan some (λ path. false) (codes "plan") (codes "all"))
        (walk_calls tree))
    × IsRanked all
    × (best ≡ take 1 all)
unfolding Ranked.search Walk.visits split
search-best_example =
    search-best (λ t. t) open_plan some (λ path. false) false (λ path. false) tree (codes "plan") []
      (pos 1) best refl

abbrev ascii : Classes
ascii = record { breaks = λ c. c == 32; is_han = λ c. false; is_letter = λ c. not (c == 32) }

abbrev by_line : Text → List Text
by_line t = split 10 t

abbrev tokenizer : FileSearchTokenizer
tokenizer = gse_tokenizer ascii (λ t. t) by_line

abbrev plan_terms : List Text
plan_terms = codes "# To do" ∷ codes "b plan" ∷ []

abbrev old_terms : List Text
old_terms = codes "a" ∷ codes "plan b" ∷ codes "plan c" ∷ []

abbrev index : FileSearchIndex
index = Index.build_file_search_index (
    (
      codes "plan.md",
      Refresh.titled_document (λ t. t) open_plan some tokenizer (codes "plan.md") info
          (codes "To do") plan_terms,
    )
    ∷ (
      codes "old/plan.txt",
      Refresh.titled_document (λ t. t) open_plan some tokenizer (codes "plan.txt") info
          (codes "plan.txt") old_terms,
    )
    ∷ [])

abbrev by_term : FileSearchResult
by_term = record {
  path = codes "old/plan.txt";
  title = codes "plan.txt";
  snippet = codes "a\nplan b\nplan c";
  matched_fields = codes "content" ∷ [];
  size_bytes = 9;
}

search_refreshed-IsBestOf_example :
    IsBuilt index
    × IsBestOf
        (λ t. t)
        (Tokenized.content_of open_plan (λ bytes. bytes))
        index
        (codes "plan b")
        (Tokens.gse_terms ascii (λ t. t) true by_line (codes "plan b"))
        (codes "all")
        5
        (by_term ∷ [])
unfolding Refresh.ensure_file_search_index Tokenized.search_tokenized Tokens.gse_terms Walk.visits
    split Index.build_file_search_index WasBuilt
search_refreshed-IsBestOf_example =
    search_refreshed-IsBestOf ascii (λ t. t) by_line open_plan some (λ bytes. bytes) (λ path. false)
      (some tree) true none index (codes "plan b") (codes "all") 5 (by_term ∷ []) tt refl refl
