-- ===== src/Tests/Keys.antt =====
-- The keyboard at small states.
use sbu_operating_system.Prelude.{◌≡◌, refl, arith, true, false, [], ◌∷◌, replicate}
use sbu_operating_system.Keyboard.{Keyboard, line, keyboard_handler, read_from_stdin}
use sbu_operating_system.Keyboard.Layout.{us_keyboard}
use sbu_operating_system.Keyboard.Valid.{IsValid, Ensures, keyboard_handler_inside}
use sbu_operating_system.Keyboard.Line.{AllPlain, read_from_stdin-line}

abbrev idle : Keyboard
idle = record {
  shift_flag = false;
  control_flag = false;
  scan_flag = false;
  scan_buffer = replicate 1024 0;
  scan_length = 0;
  screen = [];
}

abbrev reading : Keyboard
reading = record idle { scan_flag = true }

abbrev one_typed : Keyboard
one_typed = record reading { scan_length = 1 }

abbrev shifted : Keyboard
shifted = record reading { shift_flag = true }

idle-IsValid : IsValid idle
idle-IsValid = record { size = refl; fits = omega arith }

keyboard_handler_inside_example : Ensures IsValid (keyboard_handler 14 one_typed)
keyboard_handler_inside_example =
    keyboard_handler_inside 14 one_typed (record { size = refl; fits = omega arith }) (omega arith)
      (omega arith)

-- The keys of "hi".
hi-AllPlain : AllPlain (35 ∷ 23 ∷ [])
unfolding us_keyboard
hi-AllPlain = (omega arith, (omega arith, tt))

read_from_stdin-line_example :
    (k' : Keyboard) × (read_from_stdin (35 ∷ 23 ∷ 28 ∷ []) idle ≡ line (b'h' ∷ b'i' ∷ []) k')
unfolding us_keyboard
read_from_stdin-line_example =
    read_from_stdin-line (35 ∷ 23 ∷ []) idle refl refl refl refl hi-AllPlain (omega arith)
