-- ===== src/Files/Find.antt =====
-- internal/service/file_service.go: SearchFileNames, SearchFileContent and what they read of a file.
-- regexp.Compile, strings.ToLower, utf8.Valid and the opened root are parameters.
pub mod Names
use xktmcp.Prelude.Int.{negsuc, pos, positive_or, ℤ}
use xktmcp.Prelude.Text.{trim_space, Text, has_prefix}
use xktmcp.Prelude.{
  zero, arith, ◌<◌, true, suc, ltb, ◌++◌, false, ◌∷◌, [], inr, length, none, some, inl, leb, ◌==◌,
  ◌⊎◌, min, Bool, if◌then◌else◌, Option, List, nat_eq, list_eq, ℕ,
}
use xktmcp.Files.Walk.{Nodes, Info, Step, more, stop, fail, walk, walk_calls}

pub data SearchError : Type 0 where
  invalid_query too_long bad_regex bad_context bad_scope canceled no_root walk_failed : SearchError

-- strings.Index(s, sub), counted in characters
unfoldable pub index_of : Text → Text → Option ℕ
unfolding has_prefix
index_of [] sub = if sub == [] then some 0 else none
index_of (c ∷ s) sub =
    let rest = index_of s sub in
    if has_prefix (c ∷ s) sub then some 0 else elim rest [ none ↦ none | some n ↦ some (suc n) ]

-- strings.Contains(s, sub)
abbrev pub contains : Text → Text → Bool
contains s sub = elim (index_of s sub) [ none ↦ false | some n ↦ true ]

abbrev pub max_query_length : ℕ
max_query_length = 256

-- The limit of the results: 20 where there is none, and 100 at most.
abbrev pub limit_of : ℤ → ℕ
limit_of limit = min 100 (positive_or limit 20)

-- The item is appended, and the walk stops at the limit.
abbrev pub append_below {ℓ} : {A : Type ℓ} → ℕ → A → List A → Step (List A)
append_below limit item items =
    if leb limit (length (items ++ (item ∷ [])))
    then stop (items ++ (item ∷ []))
    else more (items ++ (item ∷ []))

-- model.FileNameSearchResult
pub record FileNameSearchResult : Type 0 where
  pub path : Text
  pub name : Text

module _ (matched : Text → Bool) (limit : ℕ) where
  -- The callback of SearchFileNames on a regular file.
  unfoldable pub visit_name :
      Text → Text → Info → List FileNameSearchResult → Step (List FileNameSearchResult)
  visit_name path name info items =
      if matched name
      then append_below limit (record { path = path; name = name }) items
      else more items

-- The end of a search: the results, or the error of the walk.
abbrev pub concluded {ℓ} : {A : Type ℓ} → Option (List A) → SearchError ⊎ List A
concluded none = inl walk_failed
concluded (some items) = inr items

module _ (regex : Text → Option (Text → Bool)) (lower : Text → Text) where
  -- The test of a name, `none` for an error in the regular expression.
  unfoldable pub name_test : Text → Bool → Option (Text → Bool)
  unfolding index_of
  name_test query use_regex =
      if use_regex then regex query else some (λ name. contains (lower name) (lower query))

  unfoldable pub search_file_names :
      (Text → Bool) → Option Nodes → Text → Bool → ℤ → SearchError ⊎ List FileNameSearchResult
  unfolding trim_space name_test visit_name walk
  search_file_names canceled_at root query use_regex limit =
      if trim_space query == []
      then inl invalid_query
      else if ltb max_query_length (length (trim_space query))
      then inl too_long
      else elim (name_test (trim_space query) use_regex) [
        | none ↦ inl bad_regex
        | some matched ↦ elim root [
          | none ↦ inl no_root
          | some tree ↦
              concluded
                (walk canceled_at (visit_name matched (limit_of limit)) (walk_calls tree) [])
        ]
      ]

pub limit_of-positive : (limit : ℤ) → 0 < limit_of limit
limit_of-positive (pos zero) = omega arith
limit_of-positive (pos (suc n)) = omega arith
limit_of-positive (negsuc n) = omega arith
