-- ===== src/Files/Archive/Offset.antt =====
-- Where `getFileOffset` finds a file.
use sbu_operating_system.Prelude.{
  ℕ, zero, suc, ◌+◌, ◌<◌, ◌≡◌, ◌≢◌, refl, arith, ap, subst, false, some, List, [], ◌∷◌, length,
  ◌==◌, if◌then◌else◌, Bool-cases, inl, inr,
}
use sbu_operating_system.CString.{Memory}
use sbu_operating_system.CString.Layout.{Holds}
use sbu_operating_system.CString.Number.{char_to_int-from_digits}
use sbu_operating_system.CString.Read.{read_string-Holds, same_string}
use sbu_operating_system.Files.{octal_size, next_header}
use sbu_operating_system.Files.Size.{octal_size-from_octal}
use sbu_operating_system.Files.Archive.{offset_loop, get_file_offset}
use sbu_operating_system.Files.Archive.Layout.{Entry, size_of, IsArchive}
use sbu_operating_system.Files.Archive.Entered.{IsHeader-Fields}

-- The offset of the contents of the first entry with the name, where the first header stands at
-- `temp`; 999 if there is none.
abbrev pub contents_offset : ℕ → List ℕ → List Entry → ℕ
contents_offset temp filename [] = 999
contents_offset temp filename (e ∷ es) =
    if same_string e.name filename
    then temp + 512
    else contents_offset (next_header temp (size_of e)) filename es

not_empty-length : (s : List ℕ) → s ≢ [] → (length s == 0) ≡ false
not_empty-length [] ne = absurd (ne refl)
not_empty-length (c ∷ s) ne = ground arith

Holds-not_empty : (m : Memory) (p : ℕ) (s : List ℕ) → Holds m p s → s ≢ [] → (m p == 0) ≡ false
Holds-not_empty m p [] h ne = absurd (ne refl)
Holds-not_empty m p (c ∷ s) h ne = ground arith

offset_loop-contents_offset :
    (fuel : ℕ) (m : Memory) (start temp : ℕ) (filename : List ℕ) (es : List Entry)
    → IsArchive m start temp es
    → 93 + length es < fuel
    → offset_loop fuel m start temp filename ≡ some (contents_offset temp filename es)
unfolding offset_loop
offset_loop-contents_offset zero m start temp filename es h enough = elim enough [ ]
offset_loop-contents_offset (suc fuel) m start temp filename [] h enough =
    let no_digits =
      char_to_int-from_digits fuel m (start + temp + 124) [] h.1 (omega arith) (omega arith) in
    let nothing : octal_size 0 ≡ some 0 = octal_size-from_octal [] tt (omega arith) (omega arith) in
    rw
      (
        no_digits,
        nothing,
        read_string-Holds fuel m (start + temp) [] h.0 (omega arith),
        offset_loop,
      )
      refl
offset_loop-contents_offset (suc fuel) m start temp filename (e ∷ es) (h, hs) enough =
    let f = IsHeader-Fields fuel m (start + temp) e h (omega arith) in
    let shown = not_empty-length e.name h.not_empty in
    elim (Bool-cases (same_string e.name filename)) [
      | inl found ↦ rw (f.size_field, f.size, f.name, shown, found, offset_loop) refl
      | inr other ↦
          rw (f.size_field, f.size, f.name, shown, other, offset_loop)
            (offset_loop-contents_offset fuel m start (next_header temp (size_of e)) filename es hs
              (omega arith))
    ]

-- For an archive in memory whose first entry is empty, `getFileOffset` ends with enough fuel, and
-- gives the offset of the contents of the first entry with the name behind that one, or 999 if none
-- has it. The first entry is never found.
pub get_file_offset-contents_offset :
    (fuel : ℕ) (m : Memory) (start : ℕ) (filename : List ℕ) (e : Entry) (es : List Entry)
    → IsArchive m start 0 (e ∷ es)
    → size_of e ≡ 0
    → 93 + length es < fuel
    → get_file_offset fuel m start filename ≡ some (contents_offset 512 filename es)
unfolding get_file_offset
get_file_offset-contents_offset fuel m start filename e es (h, hs) none? enough =
    let here : start + 0 ≡ start = omega arith in
    let shown : (m start == 0) ≡ false =
      subst (λ p. (m p == 0) ≡ false) here
        (Holds-not_empty m (start + 0) e.name h.named h.not_empty) in
    let second : next_header 0 (size_of e) ≡ 512 = unfold next_header in ap (next_header 0) none? in
    rw (shown, get_file_offset)
      (offset_loop-contents_offset fuel m start 512 filename es
        (subst (λ t. IsArchive m start t es) second hs) enough)
