-- ===== src/Syscalls/Written.antt =====
-- What `sys_write` puts on the screen.
use sbu_operating_system.Prelude.{
  ℕ, ◌<◌, ◌≡◌, refl, Bool, Bool-cases, inl, inr, ◌||◌, some, List, length, ◌==◌, if◌then◌else◌,
  codes,
}
use sbu_operating_system.CString.{Memory}
use sbu_operating_system.CString.Layout.{Holds}
use sbu_operating_system.CString.Read.{same_string, read_string-Holds}
use sbu_operating_system.Console.{Screen, print_chars, make_room}
use sbu_operating_system.Console.Text.{IsOneLine, line_ended, kprintf_text, kprintf_line}
use sbu_operating_system.Shell.Tokens.Search.{has, linearsearch-has}
use sbu_operating_system.Syscalls.{sys_write}

-- The texts that no new line follows: the prompt of the shell, and a text with an `@`.
abbrev pub stays_on_line : List ℕ → Bool
stays_on_line cs = same_string (codes "sbush:~$") cs || has b'@' cs

-- With fuel above the length of a string in memory that has no new line or return, `sys_write` to
-- descriptor 1 puts its characters on the screen one by one, after the test for room, and behind them
-- a space and a new line, unless the string is `sbush:~$` or has an `@`. To any other descriptor
-- it writes nothing.
pub sys_write-print_chars :
    (fuel : ℕ) (m : Memory) (s : Screen) (fd buf : ℕ) (cs : List ℕ)
    → Holds m buf cs
    → length cs < fuel
    → IsOneLine cs
    → sys_write fuel m s fd buf
      ≡ some (
          if fd == 1
          then (let shown = print_chars (make_room s) cs in
              if stays_on_line cs then shown else line_ended shown)
          else s)
unfolding sys_write
sys_write-print_chars fuel m s fd buf cs h lt plain =
    let text = read_string-Holds fuel m buf cs h lt in
    let at = linearsearch-has fuel m buf b'@' cs h lt in
    elim (Bool-cases (fd == 1)) [
      | inr another ↦ rw another refl
      | inl screen ↦ elim (Bool-cases (same_string (codes "sbush:~$") cs)) [
        | inl same ↦ rw (screen, text, at, same) (kprintf_text s cs plain)
        | inr other ↦ elim (Bool-cases (has b'@' cs)) [
          | inl sign ↦ rw (screen, text, at, other, sign) (kprintf_text s cs plain)
          | inr no_sign ↦ rw (screen, text, at, other, no_sign) (kprintf_line s cs plain)
        ]
      ]
    ]
