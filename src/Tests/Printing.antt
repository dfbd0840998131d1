-- ===== src/Tests/Printing.antt =====
-- Printing at small inputs.
use sbu_operating_system.Prelude.{◌*◌, ◌≡◌, arith, some, [], ◌∷◌}
use sbu_operating_system.Console.{Screen, kprintf}
use sbu_operating_system.Console.{print_chars}
use sbu_operating_system.Console.Position.{kprintf_with_pos}
use sbu_operating_system.Console.Position.Ignored.{IsPlainText, kprintf_with_pos-print_chars}
use sbu_operating_system.Console.Cursor.{Printed, kprintf-Printed}

abbrev blank : Screen
blank = record { cells = λ a. 0; cursor = 0; x = 0; y = 0 }

kprintf-Printed_example : Printed blank (kprintf blank (b'o' ∷ b'k' ∷ b'\n' ∷ []) [])
kprintf-Printed_example =
    kprintf-Printed blank (b'o' ∷ b'k' ∷ b'\n' ∷ []) (omega arith) (omega arith)

abbrev bottom : Screen
bottom = record { cells = λ a. 0; cursor = 23 * 160; x = 80; y = 22 }

abbrev screen_at_end : Screen
screen_at_end = record { cells = λ a. 0; cursor = 160; x = 80; y = 0 }

kprintf_with_pos-print_chars_example :
    kprintf_with_pos screen_at_end 70 24 (b'5' ∷ b's' ∷ []) []
    ≡ some (record (print_chars screen_at_end (b'5' ∷ b's' ∷ [])) { x = 80; y = 0 })
kprintf_with_pos-print_chars_example =
    kprintf_with_pos-print_chars screen_at_end 70 24 (b'5' ∷ b's' ∷ []) plain
  where
    plain : IsPlainText (b'5' ∷ b's' ∷ [])
    plain = (
      (λ e. absurd (omega arith)),
      (λ e. absurd (omega arith)),
      (λ e. absurd (omega arith)),
      ((λ e. absurd (omega arith)), (λ e. absurd (omega arith)), (λ e. absurd (omega arith)), tt),
    )
