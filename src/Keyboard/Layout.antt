-- ===== src/Keyboard/Layout.antt =====
-- The US layout: the character of each scan code, and what the handler makes of it under Shift.
use sbu_operating_system.Prelude.{ℕ, zero, suc, ◌+◌, List, [], ◌∷◌, ◌==◌, if◌then◌else◌, u8}

nth : List ℕ → ℕ → ℕ
nth [] i = 0
nth (c ∷ cs) zero = c
nth (c ∷ cs) (suc i) = nth cs i

-- `usKeyboard`; the codes behind the listed ones are 0.
abbrev pub key_table : List ℕ
key_table =
    0 ∷ 27 ∷ b'1' ∷ b'2' ∷ b'3' ∷ b'4' ∷ b'5' ∷ b'6' ∷ b'7' ∷ b'8' ∷ b'9' ∷ b'0' ∷ b'-' ∷ b'=' ∷ 8
    ∷ b'\t' ∷ b'q' ∷ b'w' ∷ b'e' ∷ b'r' ∷ b't' ∷ b'y' ∷ b'u' ∷ b'i' ∷ b'o' ∷ b'p' ∷ b'[' ∷ b']'
    ∷ b'\n' ∷ b'~' ∷ b'a' ∷ b's' ∷ b'd' ∷ b'f' ∷ b'g' ∷ b'h' ∷ b'j' ∷ b'k' ∷ b'l' ∷ b';' ∷ b'\''
    ∷ b'`' ∷ b'^' ∷ b'\\' ∷ b'z' ∷ b'x' ∷ b'c' ∷ b'v' ∷ b'b' ∷ b'n' ∷ b'm' ∷ b',' ∷ b'.' ∷ b'/'
    ∷ b'^' ∷ b'*' ∷ 0 ∷ b' ' ∷ 0 ∷ 0 ∷ 0 ∷ 0 ∷ 0 ∷ 0 ∷ 0 ∷ 0 ∷ 0 ∷ 0 ∷ 0 ∷ 0 ∷ 0 ∷ 0 ∷ 0 ∷ 0 ∷ b'-'
    ∷ 0 ∷ 0 ∷ 0 ∷ b'+' ∷ []

unfoldable pub us_keyboard : ℕ → ℕ
unfolding nth
us_keyboard scan_code = nth key_table scan_code

-- The `switch` of the handler, but for the comma. The default is the key less 32, as a byte.
unfoldable pub shift_symbol : ℕ → ℕ
shift_symbol key =
    if key == b'1'
    then b'!'
    else if key == b'2'
    then b'@'
    else if key == b'3'
    then b'#'
    else if key == b'4'
    then b'$'
    else if key == b'5'
    then b'%'
    else if key == b'6'
    then b'^'
    else if key == b'7'
    then b'&'
    else if key == b'8'
    then b'*'
    else if key == b'9'
    then b'('
    else if key == b'0'
    then b')'
    else if key == b'-'
    then b'_'
    else if key == b'='
    then b'+'
    else if key == b'`'
    then b'~'
    else if key == b'['
    then b'{'
    else if key == b']'
    then b'}'
    else if key == b';'
    then b':'
    else if key == b'\''
    then b'"'
    else if key == b'.'
    then b'>'
    else if key == b'/'
    then b'?'
    else u8 (key + 224)
