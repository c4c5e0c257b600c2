-- ===== src/Files/Find/Names.antt =====
-- The files that a search by name finds.
use xktmcp.Prelude.Int.{ℤ}
use xktmcp.Prelude.Text.{trim_space, Text}
use xktmcp.Prelude.{
  refl, Bool-cases, list_beq_iff, arith, take, inr, ◌≡◌, ◌≤◌, length, ◌≢◌, none, some,
  if◌then◌else◌, Option, Bool, nat_eq, list_eq, [],
}
use xktmcp.Files.Find
use xktmcp.Files.Find.{
  limit_of-positive, inl, arith, inr, walk_calls, length, trim_space, none, ℤ, some, Nodes, Option,
  Bool, Text, SearchError, FileNameSearchResult,
}
use xktmcp.Files.Walk.{walk_calls, Nodes, Info}
use xktmcp.Files.Walk.Collect.{IsCalm, picked, walk-picked}

-- The files whose names pass a test, in the order of the walk.
abbrev pub named : (Text → Bool) → Text → Text → Info → Option FileNameSearchResult
named test path name info = if test name then some (record { path = path; name = name }) else none

-- Where the walk meets no error, a search by name returns the first of the files whose names match, in
-- the order of the walk, and as many as there are up to the limit: 20 if none is given, and 100 at most.
pub search_file_names-picked :
    (regex : Text → Option (Text → Bool)) (lower : Text → Text) (canceled_at : Text → Bool)
    (tree : Nodes) (query : Text) (use_regex : Bool) (limit : ℤ) (test : Text → Bool)
    → trim_space query ≢ []
    → length (trim_space query) ≤ 256
    → Find.name_test regex lower (trim_space query) use_regex ≡ some test
    → IsCalm canceled_at (walk_calls tree)
    → Find.search_file_names regex lower canceled_at (some tree) query use_regex limit
      ≡ inr (take (Find.limit_of limit) (picked (named test) (walk_calls tree)))
unfolding Find.search_file_names Find.visit_name
search_file_names-picked regex lower canceled_at tree query use_regex limit test full short ready
      calm =
    ground (
      arith,
      full,
      short,
      ready,
      list_beq_iff (trim_space query) [],
      walk-picked (named test) canceled_at (Find.limit_of limit)
          (Find.visit_name test (Find.limit_of limit))
          (λ path name info items. elim (Bool-cases (test name)) [
            | inl hit ↦ rw hit refl
            | inr miss ↦ rw miss refl
          ])
          (walk_calls tree) [] calm (limit_of-positive limit),
    )
