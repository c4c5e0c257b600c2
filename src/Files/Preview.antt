-- ===== src/Files/Preview.antt =====
-- internal/service/file_service.go: ReadFilePreview and cleanFilePath. What is not the repository's
-- is a parameter: path.Clean, the opened root, and utf8.ValidString. Lines are byte strings here.
pub mod Range
pub mod Success
use xktmcp.Prelude.{
  ℕ, zero, suc, ◌+◌, ◌-◌, ◌*◌, Bool, true, false, not, ◌&&◌, ◌||◌, Option, none, some, List, [],
  ◌∷◌, ◌++◌, leb, ltb, min, ◌==◌, nat_eq, list_eq, if◌then◌else◌, length,
}
use xktmcp.Prelude.Int.{ℤ, pos, negsuc}
use xktmcp.Prelude.Text.{Text, codes, has_prefix, trim_space}

-- strings.Contains and strings.IndexByte, for a single byte
abbrev has_byte : ℕ → Text → Bool
has_byte b [] = false
has_byte b (c ∷ s) = c == b || has_byte b s

-- `none` is the error. `clean` is path.Clean; path.IsAbs is the test for a leading slash.
unfoldable pub clean_file_path : (Text → Text) → Text → Option Text
unfolding trim_space has_prefix
clean_file_path clean value =
    if trim_space value == [] || has_byte 92 (trim_space value)
    then none
    else if clean (trim_space value) == codes "."
        || clean (trim_space value) == codes ".."
        || has_prefix (clean (trim_space value)) (codes "../")
        || has_prefix (clean (trim_space value)) (codes "/")
    then none
    else some (clean (trim_space value))

pub data Failure : Type 0 where
  bad_range too_many_lines bad_path not_regular not_text too_large scan_failed past_end canceled :
      Failure

pub data Outcome {ℓ} (A : Type ℓ) : Type ℓ where
  ok : A → Outcome A
  failed : Failure → Outcome A

-- What the scanner reads from a file: its lines, and whether reading it fails after them. The scanner
-- reads ahead: `held n` tells whether it has that error already when it has returned n lines.
pub record File : Type 0 where
  pub lines : List Text
  pub broken : Bool
  pub held : ℕ → Bool

-- len(strings.Join(lines, "\n"))
unfoldable pub joined_size : List Text → ℕ
joined_size [] = 0
joined_size (l ∷ []) = length l
joined_size (l ∷ m ∷ ls) = length l + 1 + joined_size (m ∷ ls)

abbrev pub max_preview_bytes : ℕ
max_preview_bytes = 262144

module _ (valid : Text → Bool) (start end : ℕ) where
  -- The loop over the scanner: `line_no` lines are read, and `kept` of them kept. The result is the
  -- final line number, whether the loop ended for want of lines, and what was kept.
  unfoldable pub scan : List Text → ℕ → List Text → Outcome (ℕ × Bool × List Text)
  unfolding joined_size
  scan [] line_no kept = ok (line_no, true, kept)
  scan (l ∷ ls) line_no kept =
      let skipped = scan ls (line_no + 1) kept in
      let taken = scan ls (line_no + 1) (kept ++ (l ∷ [])) in
      if ltb (line_no + 1) start
      then skipped
      else if ltb end (line_no + 1)
      then ok (line_no + 1, false, kept)
      else if not (valid l) || has_byte 0 l
      then failed not_text
      else if ltb max_preview_bytes (joined_size (kept ++ (l ∷ [])))
      then failed too_large
      else taken

pub record FilePreview : Type 0 where
  pub path : Text
  pub start_line : ℕ
  pub end_line : ℕ
  pub content : List Text

-- From the end of the loop on; scanner.Err() is the error that it has by then.
unfoldable pub conclude :
    File → Bool → Text → ℕ → ℕ → Outcome (ℕ × Bool × List Text) → Outcome FilePreview
conclude file done path start end (failed e) = failed e
conclude file done path start end (ok (line_no, exhausted, kept)) =
    if file.broken && (exhausted || file.held line_no)
    then failed scan_failed
    else if ltb line_no start
    then failed past_end
    else if done
    then failed canceled
    else ok (record {
      path = path;
      start_line = start;
      end_line = (if ltb line_no end then line_no else end);
      content = kept;
    })

-- `open` is what the root does with a name: Lstat, Open and Stat. `done` tells whether the context
-- has ended at the end. `content` is the list of lines that strings.Join joins.
module _ (clean : Text → Text) (open_file : Text → Outcome File) (valid : Text → Bool)
    (done : Bool) where
  unfoldable pub preview_lines : Text → ℕ → ℕ → Outcome FilePreview
  unfolding clean_file_path scan conclude
  preview_lines path start end = elim (clean_file_path clean path) [
    | none ↦ failed bad_path
    | some name ↦ elim (open_file name) [
      | failed e ↦ failed e
      | ok file ↦ conclude file done name start end (scan valid start end file.lines 0 [])
    ]
  ]

  -- The tests of the range: `startLine < 1 || endLine < startLine`, then the number of lines.
  unfoldable pub read_file_preview : Text → ℤ → ℤ → Outcome FilePreview
  unfolding preview_lines
  read_file_preview path (pos zero) end = failed bad_range
  read_file_preview path (negsuc n) end = failed bad_range
  read_file_preview path (pos (suc n)) (negsuc m) = failed bad_range
  read_file_preview path (pos (suc n)) (pos m) =
      if ltb m (suc n)
      then failed bad_range
      else if leb 200 (m - suc n)
      then failed too_many_lines
      else preview_lines path (suc n) m
