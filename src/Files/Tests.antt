-- ===== src/Files/Tests.antt =====
-- A preview of a small file.
use xktmcp.Prelude.{ℕ, ◌≡◌, refl, true, false, some, [], ◌∷◌, nat_eq, list_eq}
use xktmcp.Prelude.Int.{pos}
use xktmcp.Prelude.Text.{Text, codes, trim_space}
use xktmcp.Files.Preview
use xktmcp.Files.Preview.{Outcome, ok, File, FilePreview, scan, joined_size, conclude}
use native.Mathlib.Omega.{arith}
use xktmcp.Files.Preview.Success.{read_file_preview_succeeds}
use xktmcp.Files.Preview.Range.{numbered, Shows, read_file_preview-Shows}

abbrev notes : File
notes = record {
  lines = codes "one" ∷ codes "two" ∷ codes "three" ∷ [];
  broken = false;
  held = λ n. false;
}

abbrev shown : FilePreview
shown = record {
  path = codes "notes.md";
  start_line = 2;
  end_line = 3;
  content = codes "two" ∷ codes "three" ∷ [];
}

read_file_preview-Shows_example :
    (s : ℕ) × (m : ℕ) × (name : Text) × (file : File) × (pos 2 ≡ pos s)
    × (pos 9 ≡ pos m)
    × (Preview.clean_file_path (λ path. path) (codes " notes.md") ≡ some name)
    × (ok notes ≡ ok file)
    × Shows name s m file shown
unfolding Preview.read_file_preview Preview.preview_lines Preview.clean_file_path scan joined_size
    conclude trim_space
read_file_preview-Shows_example =
    read_file_preview-Shows (λ path. path) (λ name. ok notes) (λ line. true) false
      (codes " notes.md") (pos 2) (pos 9) shown refl

read_file_preview_succeeds_example :
    (p : FilePreview) × (Preview.read_file_preview
        (λ path. path)
        (λ name. ok notes)
        (λ line. true)
        false
        (codes " notes.md")
        (pos 2)
        (pos 9)
      ≡ ok p)
unfolding numbered joined_size Preview.clean_file_path trim_space
read_file_preview_succeeds_example =
    read_file_preview_succeeds (λ path. path) (λ name. ok notes) (λ line. true) (codes " notes.md")
      (codes "notes.md") 2 9 notes refl refl refl (omega arith) (omega arith) (omega arith)
      (omega arith) ((refl, refl), ((refl, refl), tt)) (omega arith)
