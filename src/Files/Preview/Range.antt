-- ===== src/Files/Preview/Range.antt =====
-- Which lines a preview shows.
use xktmcp.Prelude.{
  ℕ, zero, suc, ◌+◌, ◌≤◌, ◌<◌, ◌≡◌, ◌⊎◌, min, ap, refl, inl, inr, Bool, true, false, ◌&&◌, some,
  List, [], ◌∷◌, ◌++◌, arith, leb, ltb, length, if◌then◌else◌, Bool-cases, Option-cases,
}
use xktmcp.Prelude.Text.{Text}
use xktmcp.Prelude.Int.{ℤ, pos, negsuc}
use xktmcp.Files.Preview
use xktmcp.Files.Preview.{
  Failure, Outcome, ok, failed, File, FilePreview, scan, conclude, joined_size, max_preview_bytes,
}

-- The lines whose numbers, counted from `line_no` + 1, lie between `start` and `end`.
unfoldable pub numbered : ℕ → ℕ → ℕ → List Text → List Text
numbered start end line_no [] = []
numbered start end line_no (l ∷ ls) =
    let rest = numbered start end (line_no + 1) ls in
    if leb start (line_no + 1) && leb (line_no + 1) end then l ∷ rest else rest

numbered_past :
    (start end line_no : ℕ) (ls : List Text) → end ≤ line_no → numbered start end line_no ls ≡ []
unfolding numbered
numbered_past start end line_no [] h = refl
numbered_past start end line_no (l ∷ ls) h =
    ground (arith, numbered_past start end (line_no + 1) ls)

append_nil : (l : List Text) → l ++ [] ≡ l
append_nil [] = refl
append_nil (x ∷ l) = ap (◌∷◌ x) (append_nil l)

pub append_assoc : (l : List Text) (x : Text) (m : List Text) → (l ++ (x ∷ [])) ++ m ≡ l ++ (x ∷ m)
append_assoc [] x m = refl
append_assoc (y ∷ l) x m = ap (◌∷◌ y) (append_assoc l x m)

-- What the loop has done when it ends without an error.
record IsScanned (start end line_no : ℕ) (ls kept : List Text) (last : ℕ) (exhausted : Bool)
    (out : List Text) : Type 0 where
  shown : out ≡ kept ++ numbered start end line_no ls
  at_end : exhausted ≡ true → last ≡ line_no + length ls
  cut : exhausted ≡ false → (last ≡ end + 1) × (end < line_no + length ls)
  fits : joined_size kept ≤ max_preview_bytes → joined_size out ≤ max_preview_bytes

module _ (valid : Text → Bool) (start end : ℕ) (proper : start ≤ end) where
  scan-IsScanned :
      (ls : List Text) (line_no : ℕ) (kept : List Text) (last : ℕ) (exhausted : Bool)
      (out : List Text)
      → line_no ≤ end
      → scan valid start end ls line_no kept ≡ ok (last, exhausted, out)
      → IsScanned start end line_no ls kept last exhausted out
  unfolding scan numbered
  scan-IsScanned [] line_no kept last exhausted out b h = record {
    shown = ground (arith, append_nil kept, h);
    at_end = ground (arith, h);
    cut = ground (arith, h);
    fits = ground (arith, h);
  }
  scan-IsScanned (l ∷ ls) line_no kept last exhausted out b h =
      elim (Bool-cases (ltb (line_no + 1) start)) [
        | inl early ↦
            let r =
              scan-IsScanned ls (line_no + 1) kept last exhausted out (ground (arith, early))
                (rw early at h) in
            record {
              shown = ground (arith, r.shown, early);
              at_end = ground (arith, r.at_end);
              cut = ground (arith, r.cut);
              fits = r.fits;
            }
        | inr reached ↦ elim (Bool-cases (ltb end (line_no + 1))) [
          | inl past ↦ record {
            shown = ground (
              arith,
              h,
              reached,
              past,
              append_nil kept,
              numbered_past start end (line_no + 1) ls,
            );
            at_end = ground (arith, h, reached, past);
            cut = ground (arith, h, reached, past);
            fits = ground (arith, h, reached, past);
          }
          | inr inside ↦
              let small : ltb max_preview_bytes (joined_size (kept ++ (l ∷ []))) ≡ false =
                ground (arith, h, reached, inside) in
              let step : scan valid start end ls (line_no + 1) (kept ++ (l ∷ []))
                  ≡ ok (last, exhausted, out) =
                ground (arith, h, reached, inside) in
              let r =
                scan-IsScanned ls (line_no + 1) (kept ++ (l ∷ [])) last exhausted out
                  (ground (arith, inside)) step in
              record {
                shown = ground (
                  arith,
                  r.shown,
                  reached,
                  inside,
                  append_assoc kept l (numbered start end (line_no + 1) ls),
                );
                at_end = ground (arith, r.at_end);
                cut = ground (arith, r.cut);
                fits = λ small_before. r.fits (ground (arith, small));
              }
        ]
      ]

Outcome-cases {ℓ} :
    {A : Type ℓ} (o : Outcome A) → ((e : Failure) × (o ≡ failed e)) ⊎ ((a : A) × (o ≡ ok a))
Outcome-cases (failed e) = inl (e, refl)
Outcome-cases (ok a) = inr (a, refl)

-- A preview of the lines `s` to `m` of a file.
pub record Shows (name : Text) (s m : ℕ) (file : File) (p : FilePreview) : Type 0 where
  pub named : p.path ≡ name
  pub from : p.start_line ≡ s
  pub to : p.end_line ≡ min m (length file.lines)
  pub within : (1 ≤ s) × (s ≤ p.end_line) × (p.end_line < s + 200)
  pub lines : p.content ≡ numbered s m 0 file.lines
  pub small : joined_size p.content ≤ max_preview_bytes

conclude-Shows :
    (valid : Text → Bool) (done : Bool) (name : Text) (s m : ℕ) (file : File) (p : FilePreview)
    → 1 ≤ s
    → s ≤ m
    → m < s + 200
    → conclude file done name s m (scan valid s m file.lines 0 []) ≡ ok p
    → Shows name s m file p
unfolding conclude joined_size
conclude-Shows valid done name s m file p one order few h =
    elim (Outcome-cases (scan valid s m file.lines 0 [])) [
      | inl (e, q) ↦ absurd (ground (arith, h, q))
      | inr ((last, exhausted, out), q) ↦
          let r =
            scan-IsScanned valid s m order file.lines 0 [] last exhausted out (omega arith) q in
          let same : p.content ≡ out = ground (arith, h, q) in
          record {
            named = ground (arith, h, q);
            from = ground (arith, h, q);
            to = ground (arith, h, q, r.at_end, r.cut);
            within = ground (arith, h, q);
            lines = ground (arith, h, q, r.shown);
            small = omega (arith, ap joined_size same, r.fits (omega arith));
          }
    ]

module _ (clean : Text → Text) (open_file : Text → Outcome File) (valid : Text → Bool)
    (done : Bool) where
  -- A preview that `ReadFilePreview` returns is of the file that the cleaned path names, and shows
  -- exactly the lines whose numbers lie in the range asked for, which begins at 1 or later and has
  -- 200 lines at most; its last line is the smaller of the range's and the file's, and it has
  -- 256 KiB at most.
  pub read_file_preview-Shows :
      (path : Text) (start end : ℤ) (p : FilePreview)
      → Preview.read_file_preview clean open_file valid done path start end ≡ ok p
      → (s : ℕ) × (m : ℕ) × (name : Text) × (file : File) × (start ≡ pos s)
        × (end ≡ pos m)
        × (Preview.clean_file_path clean path ≡ some name)
        × (open_file name ≡ ok file)
        × Shows name s m file p
  unfolding Preview.read_file_preview Preview.preview_lines
  read_file_preview-Shows path (pos zero) end p h = absurd (ground (arith, h))
  read_file_preview-Shows path (negsuc n) end p h = absurd (ground (arith, h))
  read_file_preview-Shows path (pos (suc n)) (negsuc m) p h = absurd (ground (arith, h))
  read_file_preview-Shows path (pos (suc n)) (pos m) p h =
      elim (Option-cases (Preview.clean_file_path clean path)) [
        | inl q ↦ absurd (ground (arith, h, q))
        | inr (name, q) ↦ elim (Outcome-cases (open_file name)) [
          | inl (e, r) ↦ absurd (ground (arith, h, q, r))
          | inr (file, r) ↦ (
            suc n,
            m,
            name,
            file,
            refl,
            refl,
            q,
            r,
            conclude-Shows valid done name (suc n) m file p (omega arith) (ground (arith, h))
                (ground (arith, h)) (ground (arith, h, q, r)),
          )
        ]
      ]
