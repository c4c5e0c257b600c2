-- ===== src/Files/Preview/Success.antt =====
-- When a preview is returned.
use xktmcp.Prelude.{
  ℕ, zero, suc, ◌+◌, ◌≤◌, ◌<◌, ◌≡◌, sym, refl, inl, inr, Bool, true, false, some, List, [], ◌∷◌,
  ◌++◌, arith, ltb, length, if◌then◌else◌, Bool-cases, All,
}
use mathlib.Core.Path.{subst}
use xktmcp.Prelude.Text.{Text}
use xktmcp.Prelude.Int.{pos}
use xktmcp.Files.Preview
use xktmcp.Files.Preview.{
  Outcome, ok, failed, File, FilePreview, scan, conclude, joined_size, max_preview_bytes, has_byte,
}
use xktmcp.Files.Preview.Range.{numbered, append_assoc}

joined_size-append : (a b : List Text) → joined_size a ≤ joined_size (a ++ b)
unfolding joined_size
joined_size-append [] b = omega arith
joined_size-append (l ∷ []) [] = omega arith
joined_size-append (l ∷ []) (m ∷ b) = omega arith
joined_size-append (l ∷ m ∷ a) b = omega (arith, joined_size-append (m ∷ a) b)

-- A line that a preview can show.
abbrev pub IsText : (Text → Bool) → Text → Type 0
IsText valid l = (valid l ≡ true) × (has_byte 0 l ≡ false)

module _ (valid : Text → Bool) (start end : ℕ) where
  scan_succeeds :
      (ls : List Text) (line_no : ℕ) (kept : List Text)
      → All (IsText valid) (numbered start end line_no ls)
      → joined_size (kept ++ numbered start end line_no ls) ≤ max_preview_bytes
      → start ≤ line_no + length ls
      → (last : ℕ) × (exhausted : Bool) × (out : List Text) × (scan valid start end ls line_no kept
          ≡ ok (last, exhausted, out))
        × (start ≤ last)
  unfolding scan numbered
  scan_succeeds [] line_no kept text small reach = (line_no, true, kept, refl, omega arith)
  scan_succeeds (l ∷ ls) line_no kept text small reach =
      elim (Bool-cases (ltb (line_no + 1) start)) [
        | inl early ↦
            let skip : numbered start end line_no (l ∷ ls) ≡ numbered start end (line_no + 1) ls =
              ground (arith, early) in
            let (last, ex, out, p, q) =
              scan_succeeds ls (line_no + 1) kept (subst (All (IsText valid)) skip text)
                (subst (λ (n : List Text). joined_size (kept ++ n) ≤ max_preview_bytes) skip small)
                (omega arith) in
            (last, ex, out, rw early p, q)
        | inr reached ↦ elim (Bool-cases (ltb end (line_no + 1))) [
          | inl past ↦
              (line_no + 1, false, kept, rw reached (rw past refl), ground (arith, reached))
          | inr inside ↦
              let show : numbered start end line_no (l ∷ ls)
                  ≡ l ∷ numbered start end (line_no + 1) ls =
                ground (arith, reached, inside) in
              let here = subst (All (IsText valid)) show text in
              let all_small : joined_size
                    ((kept ++ (l ∷ [])) ++ numbered start end (line_no + 1) ls)
                  ≤ max_preview_bytes =
                subst (λ (n : List Text). joined_size n ≤ max_preview_bytes)
                  (sym (append_assoc kept l (numbered start end (line_no + 1) ls)))
                  (subst (λ (n : List Text). joined_size (kept ++ n) ≤ max_preview_bytes) show
                    small) in
              let (last, ex, out, p, q) =
                scan_succeeds ls (line_no + 1) (kept ++ (l ∷ [])) here.1 all_small (omega arith) in
              let fits : ltb max_preview_bytes (joined_size (kept ++ (l ∷ []))) ≡ false = ground (
                arith,
                all_small,
                joined_size-append (kept ++ (l ∷ [])) (numbered start end (line_no + 1) ls),
              ) in
              (last, ex, out, ground (arith, reached, inside, here.0.0, here.0.1, fits, p), q)
        ]
      ]

-- `ReadFilePreview` returns a preview if the path is accepted, the file can be opened and read, the
-- range begins at 1 or later, is not empty, has 200 lines at most and begins within the file, the
-- lines in it are text without a NUL byte and 256 KiB at most together, and the context has not ended.
pub read_file_preview_succeeds :
    (clean : Text → Text) (open_file : Text → Outcome File) (valid : Text → Bool) (path name : Text)
    (s m : ℕ) (file : File)
    → Preview.clean_file_path clean path ≡ some name
    → open_file name ≡ ok file
    → file.broken ≡ false
    → s ≤ m
    → m < s + 200
    → s ≤ length file.lines
    → 0 < s
    → All (IsText valid) (numbered s m 0 file.lines)
    → joined_size (numbered s m 0 file.lines) ≤ max_preview_bytes
    → (p : FilePreview) × (Preview.read_file_preview clean open_file valid false path
          (pos s)
          (pos m)
        ≡ ok p)
unfolding Preview.read_file_preview Preview.preview_lines conclude
read_file_preview_succeeds clean open_file valid path name zero m file a o sound order few within
      one text small =
    absurd (omega arith)
read_file_preview_succeeds clean open_file valid path name (suc n) m file a o sound order few within
      one text small =
    let (last, ex, out, q, far) =
      scan_succeeds valid (suc n) m file.lines 0 [] text small (omega arith) in
    (
      record {
        path = name;
        start_line = suc n;
        end_line = (if ltb last m then last else m);
        content = out;
      },
      ground (arith, a, o, sound, q, far),
    )
