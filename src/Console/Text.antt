-- ===== src/Console/Text.antt =====
-- `kprintf` with the two formats that write one text.
use sbu_operating_system.Prelude.{
  ◌≡◌, ◌≢◌, ◌∙◌, ◌==◌, ap, arith, false, refl, Option, none, some, List, [], ◌∷◌, ◌>>=◌, ℕ, codes,
}
use sbu_operating_system.Console.{
  Screen, string, print_string, print_char, print_chars, new_line, make_room, kprintf, convert,
  plain_char, is_conversion,
}

-- No character starts a new line.
abbrev pub IsOneLine : List ℕ → Type 0
IsOneLine [] = Unit
IsOneLine (c ∷ cs) = (c ≢ b'\n') × (c ≢ b'\r') × IsOneLine cs

print_string-print_chars :
    (s : Screen) (cs : List ℕ) → IsOneLine cs → print_string s cs ≡ some (print_chars s cs)
unfolding print_string print_chars
print_string-print_chars s [] h = refl
print_string-print_chars s (c ∷ []) h =
    let line : (c == b'\n') ≡ false = ground (arith, h.0) in
    let return : (c == b'\r') ≡ false = ground (arith, h.1) in rw (line, return) refl
print_string-print_chars s (c ∷ d ∷ cs) h =
    let line : (c == b'\n') ≡ false = ground (arith, h.0) in
    let return : (c == b'\r') ≡ false = ground (arith, h.1) in
    rw (line, return) (print_string-print_chars (print_char s c) (d ∷ cs) h.2)

-- A space and then a new line.
abbrev pub line_ended : Screen → Screen
line_ended s = new_line (make_room (print_char (make_room s) b' '))

same_text : (o : Option Screen) → (o >>= λ s. some s) ≡ o
same_text none = refl
same_text (some s) = refl

pub kprintf_text :
    (s : Screen) (cs : List ℕ)
    → IsOneLine cs
    → kprintf s (codes "%s") (string cs ∷ []) ≡ some (print_chars (make_room s) cs)
unfolding kprintf convert is_conversion
kprintf_text s cs h =
    same_text (print_string (make_room s) cs) ∙ print_string-print_chars (make_room s) cs h

pub kprintf_line :
    (s : Screen) (cs : List ℕ)
    → IsOneLine cs
    → kprintf s (codes "%s \n") (string cs ∷ []) ≡ some (line_ended (print_chars (make_room s) cs))
unfolding kprintf convert is_conversion plain_char
kprintf_line s cs h =
    ap (λ o. o >>= λ s'. some (line_ended s')) (print_string-print_chars (make_room s) cs h)
