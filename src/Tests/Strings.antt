-- ===== src/Tests/Strings.antt =====
-- The string functions at two short strings: "ab" at address 10 and "a" at address 20.
use sbu_operating_system.Prelude.{ℕ, ◌≡◌, arith, ◌==◌, if◌then◌else◌, some, List, [], ◌∷◌}
use sbu_operating_system.CString.{Memory, strlen, memset}
use sbu_operating_system.Console.{Screen, print_chars, make_room}
use sbu_operating_system.Console.Text.{line_ended}
use sbu_operating_system.Syscalls.{sys_write}
use sbu_operating_system.Syscalls.Written.{stays_on_line, sys_write-print_chars}
use sbu_operating_system.CString.Layout.{Holds, strlen-length}
use sbu_operating_system.CString.Block.{memset_lem}

abbrev ab : List ℕ
ab = b'a' ∷ b'b' ∷ []

abbrev a : List ℕ
a = b'a' ∷ []

abbrev memory : Memory
memory p =
    if p == 10
    then b'a'
    else if p == 11
    then b'b'
    else if p == 20
    then b'a'
    else if p == 30
    then b'4'
    else if p == 31
    then b'2'
    else 0

memory-ab : Holds memory 10 ab
memory-ab = omega arith

memory-a : Holds memory 20 a
memory-a = omega arith

strlen-length_example : strlen 3 memory 10 ≡ some 2
strlen-length_example = strlen-length 3 memory 10 ab memory-ab (omega arith)

memset_lem_example : memset memory 10 0x141 2 11 ≡ 0x41
memset_lem_example = memset_lem 2 memory 10 0x141 11

abbrev screen : Screen
screen = record { cells = λ p. 0; cursor = 0; x = 0; y = 0 }

sys_write-print_chars_example :
    sys_write 3 memory screen 1 10
    ≡ some (
        let shown = print_chars (make_room screen) ab in
        if stays_on_line ab then shown else line_ended shown)
sys_write-print_chars_example =
    sys_write-print_chars 3 memory screen 1 10 ab memory-ab (omega arith) (omega arith)
