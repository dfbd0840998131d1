-- ===== src/Files/Archive/Entered.antt =====
-- The nodes that `tarfs_init` makes of an archive.
use sbu_operating_system.Prelude.{ℕ, ◌+◌, ◌≤◌, ◌≡◌, ◌∙◌, arith, ap, some, List, [], ◌∷◌, update}
use sbu_operating_system.CString.{Memory, char_to_int}
use sbu_operating_system.CString.Number.{char_to_int-from_digits, from_digits}
use sbu_operating_system.CString.Read.{read_string, read_string-Holds}
use sbu_operating_system.Files.{octal_size, next_header}
use sbu_operating_system.Files.Size.{octal_size-from_octal}
use sbu_operating_system.Files.Archive.{Node, make_node}
use sbu_operating_system.Files.Archive.Layout.{Entry, size_of, IsHeader}

-- What one header says, as the loops read it.
pub record Fields (fuel : ℕ) (m : Memory) (p : ℕ) (e : Entry) : Type 0 where
  pub name : read_string fuel m p ≡ some e.name
  pub digits : ℕ
  pub size_field : char_to_int fuel m (p + 124) ≡ some digits
  pub size : octal_size digits ≡ some (size_of e)
  pub flag : char_to_int fuel m (p + 156) ≡ some e.flag

pub IsHeader-Fields :
    (fuel : ℕ) (m : Memory) (p : ℕ) (e : Entry) → IsHeader m p e → 93 ≤ fuel → Fields fuel m p e
IsHeader-Fields fuel m p e h enough = record {
  name = read_string-Holds fuel m p e.name h.named (omega (arith, h.short));
  digits = from_digits 0 e.digits;
  size_field =
      char_to_int-from_digits fuel m (p + 124) e.digits h.sized (omega (arith, h.few))
        (omega (arith, h.fits));
  size = octal_size-from_octal e.digits h.octal h.few h.fits;
  flag =
      char_to_int-from_digits fuel m (p + 156) (e.flag ∷ []) h.typed (omega arith)
        (omega (arith, h.typed.0))
      ∙ ap some (omega arith);
}

-- The nodes of the entries in order, from node `i` on.
abbrev pub entered : ℕ → ℕ → ℕ → ℕ → (ℕ → Node) → List Entry → ℕ → Node
entered start temp i par nodes [] = nodes
entered start temp i par nodes (e ∷ es) =
    let n = make_node nodes e.name (size_of e) e.flag (start + temp) par in
    entered start (next_header temp (size_of e)) (i + 1) n.par (update nodes i n) es
