-- ===== src/Files/Archive/Layout.antt =====
-- An archive in memory, header by header.
use sbu_operating_system.Prelude.{ℕ, ◌+◌, ◌≤◌, ◌<◌, ◌≡◌, ◌≢◌, List, [], ◌∷◌, length, ◌^◌}
use sbu_operating_system.CString.{Memory}
use sbu_operating_system.CString.Layout.{Holds}
use sbu_operating_system.CString.Number.{HoldsDigits, from_digits}
use sbu_operating_system.Files.{next_header}
use sbu_operating_system.Files.Size.{AllOctal, from_octal}

-- A file or directory of the archive: its name, the octal digits of its size, and its type.
pub record Entry : Type 0 where
  pub name : List ℕ
  pub digits : List ℕ
  pub flag : ℕ

abbrev pub size_of : Entry → ℕ
size_of e = from_octal 0 e.digits

-- The fields of the header at `p` that the kernel reads. The size has at most 20 digits, and reads
-- as a decimal number that fits an `int`.
pub record IsHeader (m : Memory) (p : ℕ) (e : Entry) : Type 0 where
  pub named : Holds m p e.name
  pub not_empty : e.name ≢ []
  pub sized : HoldsDigits m (p + 124) e.digits
  pub typed : HoldsDigits m (p + 156) (e.flag ∷ [])
  pub octal : AllOctal e.digits
  pub few : length e.digits ≤ 20
  pub fits : from_digits 0 e.digits < 2 ^ 31
  pub short : length e.name < 93

-- The headers of `es` from offset `temp` on, each behind the contents of the one before; then an
-- empty name and an empty size.
abbrev pub IsArchive : Memory → ℕ → ℕ → List Entry → Type 0
IsArchive m start temp [] = (m (start + temp) ≡ 0) × HoldsDigits m (start + temp + 124) []
IsArchive m start temp (e ∷ es) =
    IsHeader m (start + temp) e × IsArchive m start (next_header temp (size_of e)) es
