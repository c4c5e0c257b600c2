-- ===== src/Files/Refresh/Built.antt =====
-- A refreshed index is complete.
use mathlib.Core.Path.{subst}
use xktmcp.Files.Content.{OpenedFile}
use xktmcp.Prelude.Text.{Text}
use xktmcp.Prelude.{
  ◌==◌, length, not, Bool, ◌||◌, Option, nat_eq, list_eq, [], false, some, none, refl, ◌≡◌, arith,
  Bool-cases, Option-cases, inl, inr,
}
use xktmcp.Files.Index
use xktmcp.Files.Index.{FileSearchDocument, FileSearchIndex}
use xktmcp.Files.Refresh
use xktmcp.Files.Refresh.{length, not, Bool, OpenedFile, Text, FileSearchTokenizer, Refreshed}
use xktmcp.Files.Walk.{Nodes, walk, walk_calls}
use mathlib.Core.Option.{Option}

-- An index that was built from its own files.
unfoldable pub IsBuilt : FileSearchIndex → Type 0
IsBuilt index = index ≡ Index.build_file_search_index index.files

-- The index before, if there was one.
unfoldable pub WasBuilt : Option FileSearchIndex → Type 0
WasBuilt none = Unit
WasBuilt (some index) = IsBuilt index

module _ (lower : Text → Text) (open_file : Text → Option OpenedFile) (text_of : Text → Option Text)
    (tokenizer : FileSearchTokenizer) where
  refreshed_index-IsBuilt :
      (previous : Option FileSearchIndex) (r : Refreshed)
      → WasBuilt previous
      → IsBuilt (Refresh.refreshed_index lower open_file text_of tokenizer previous r)
  unfolding Refresh.refreshed_index WasBuilt IsBuilt Index.build_file_search_index
  refreshed_index-IsBuilt none r was = refl
  refreshed_index-IsBuilt (some old) r was =
      elim (Bool-cases (r.changed || not (length r.files == length old.files))) [
        | inl new ↦ rw new refl
        | inr same ↦ rw same was
      ]

  pub ensure_file_search_index-IsBuilt :
      (canceled_at : Text → Bool) (root : Option Nodes) (previous : Option FileSearchIndex)
      (index : FileSearchIndex)
      → WasBuilt previous
      → Refresh.ensure_file_search_index lower open_file text_of tokenizer canceled_at root previous
        ≡ some index
      → IsBuilt index
  unfolding Refresh.ensure_file_search_index
  ensure_file_search_index-IsBuilt canceled_at none previous index was h =
      absurd (ground (arith, h))
  ensure_file_search_index-IsBuilt canceled_at (some tree) previous index was h =
      elim (Option-cases (
        walk canceled_at (Refresh.visit_index lower open_file text_of tokenizer previous)
          (walk_calls tree) (record { files = []; changed = false }))) [
            | inl failed ↦ absurd (ground (arith, h, failed))
            | inr (r, p) ↦
                let same : Refresh.refreshed_index lower open_file text_of tokenizer previous r
                    ≡ index =
                  ground (arith, h, p) in
                subst IsBuilt same (refreshed_index-IsBuilt previous r was)
          ]
