-- ===== src/Console.antt =====
-- sys/kprintf.c: the text screen at 0xb8000 and formatted printing. `cells` are the bytes from the
-- start of the video buffer, and `cursor` is `vPointer` less that start. `none` is an argument that
-- does not fit its format, a read behind the end of a string, or a write behind an array.
pub mod Digits
pub mod Hex
pub mod Cursor
pub mod Text
pub mod Position
use sbu_operating_system.Prelude.{
  ℕ, zero, suc, ◌+◌, ◌-◌, ◌*◌, ◌/◌, ◌%◌, ◌^◌, ◌≡◌, refl, Option, none, some, List, [], ◌∷◌, ◌++◌,
  ltb, leb, ◌==◌, if◌then◌else◌, update, ◌>>=◌, ℤ, pos, negsuc, u8,
}
use mathlib.Core.List
use sbu_operating_system.CString.{Memory, memcpy, memset}

pub record Screen : Type 0 where
  pub cells : Memory
  pub cursor : ℕ
  pub x : ℕ
  pub y : ℕ

pub print_char : Screen → ℕ → Screen
print_char s c = record s {
  cells = update (update s.cells s.cursor c) (s.cursor + 1) 7;
  cursor = s.cursor + 2;
  x = s.x + 1;
}

pub print_chars : Screen → List ℕ → Screen
unfolding print_char
print_chars s [] = s
print_chars s (c ∷ cs) = print_chars (print_char s c) cs

-- Lines 1 to 23 move up by one, and line 23 is cleared.
pub do_scroll : Screen → Screen
do_scroll s = record s {
  cells = memset (memcpy s.cells 0 160 (23 * 160)) (23 * 160) 0 160;
  cursor = 22 * 160;
  y = 22;
}

pub clear_screen : Screen → Screen
clear_screen s = record { cells = memset s.cells 0 0 (23 * 160); cursor = 0; x = 0; y = 0 }

-- The character before the cursor is wiped out. `none` is a write in front of the video buffer, or
-- a line number below 0.
pub clear_char : Screen → Option Screen
clear_char s =
    let wiped : Screen = record s {
      cells = update (update s.cells (s.cursor - 1) 0) (s.cursor - 2) 0;
      cursor = s.cursor - 2;
    } in
    if ltb s.cursor 2
    then none
    else if ltb 0 s.x
    then some (record wiped { x = s.x - 1 })
    else if s.y == 0
    then none
    else some (record wiped { x = 80; y = s.y - 1 })

-- The digit of a remainder by 16.
pub hex_digit : ℕ → ℕ
hex_digit r = if r / 10 == 0 then b'0' + r % 10 else if r / 10 == 1 then b'A' + r % 10 else 0

-- `printHex` as the characters that it prints; the recursion is as deep as there are digits.
pub print_hex : ℕ → ℕ → Option (List ℕ)
unfolding hex_digit
print_hex zero n = none
print_hex (suc fuel) n =
    let rest = print_hex fuel (n / 16) in
    if n / 16 == 0
    then some (hex_digit (n % 16) ∷ [])
    else rest >>= λ cs. some (cs ++ (hex_digit (n % 16) ∷ []))

-- `printPointer` prints `0x` in the innermost call.
pub print_pointer : ℕ → ℕ → Option (List ℕ)
unfolding hex_digit
print_pointer zero n = none
print_pointer (suc fuel) n =
    let rest = print_pointer fuel (n / 16) in
    if n / 16 == 0
    then some (b'0' ∷ b'x' ∷ hex_digit (n % 16) ∷ [])
    else rest >>= λ cs. some (cs ++ (hex_digit (n % 16) ∷ []))

-- The `do … while` of `printInt`: the characters of `a`, lowest digit first. The fuel is the room
-- that is left in `a`.
pub int_digits : ℕ → ℕ → Option (List ℕ)
int_digits zero n = none
int_digits (suc room) n =
    let rest = int_digits room (n / 10) in
    if ltb 0 (n / 10) then (rest >>= λ cs. some ((n % 10 + 48) ∷ cs)) else some ((n % 10 + 48) ∷ [])

-- A negative number makes one round, with a remainder that is not positive.
pub print_int : ℤ → Option (List ℕ)
unfolding int_digits
print_int (pos n) =
    if n == 0 then some (b'0' ∷ []) else int_digits 20 n >>= λ cs. some (List.reverse cs)
print_int (negsuc n) = some ((48 - suc n % 10) ∷ [])

pub data Arg : Type 0 where
  char : ℕ → Arg
  string : List ℕ → Arg
  int : ℤ → Arg
  long : ℕ → Arg

-- `%x` and `%p` put the argument into an `int`, and hand that on as `unsigned long`.
pub int_of_long : ℕ → ℕ
int_of_long n = let low = n % 2 ^ 32 in if ltb low (2 ^ 31) then low else low + (2 ^ 64 - 2 ^ 32)

pub new_line : Screen → Screen
new_line s = record s { cursor = s.cursor + 160 - 2 * s.x; x = 0; y = s.y + 1 }

-- The loop of `%s`. After `\n` and `\r` the next character is printed unseen; behind the last one
-- that is a read past the end.
pub print_string : Screen → List ℕ → Option Screen
unfolding print_char new_line
print_string s [] = some s
print_string s (c ∷ []) =
    if (c == b'\n') then none else if c == b'\r' then none else some (print_char s c)
print_string s (c ∷ d ∷ cs) =
    let broken = print_string (print_char (new_line s) d) cs in
    let returned = print_string (print_char (record s { x = 0 }) d) cs in
    let plain = print_string (print_char s c) (d ∷ cs) in
    if c == b'\n' then broken else if c == b'\r' then returned else plain

-- The two tests at the head of the loop of `kprintf`.
pub make_room : Screen → Screen
make_room s =
    let scrolled = if ltb 22 s.y then do_scroll (record s { x = 0 }) else s in
    if scrolled.x == 80 then record scrolled { x = 0; y = scrolled.y + 1 } else scrolled

-- One conversion: the argument that it takes and what it prints.
pub convert : Screen → ℕ → Arg → Option Screen
unfolding print_string print_chars print_int print_hex print_pointer
convert s c (char v) = if c == b'c' then some (print_char s (u8 v)) else none
convert s c (string cs) = if c == b's' then print_string s cs else none
convert s c (int v) = if c == b'd' then (print_int v >>= λ cs. some (print_chars s cs)) else none
convert s c (long v) =
    if c == b'x'
    then (print_hex 16 (int_of_long v) >>= λ cs. some (print_chars s cs))
    else if c == b'p'
    then (print_pointer 16 (int_of_long v) >>= λ cs. some (print_chars s cs))
    else none

pub is_conversion : ℕ → Option ℕ
is_conversion c =
    if c == b'c'
    then some c
    else if c == b's'
    then some c
    else if c == b'd'
    then some c
    else if c == b'x'
    then some c
    else if c == b'p'
    then some c
    else none

-- A character of the format that is no `%`.
pub plain_char : Screen → ℕ → Screen
unfolding print_char new_line
plain_char s c =
    if c == b'\n' then new_line s else if c == b'\r' then record s { x = 0 } else print_char s c

-- An unknown conversion takes nothing, and its letter is printed in the next round.
pub kprintf : Screen → List ℕ → List Arg → Option Screen
unfolding make_room do_scroll convert plain_char is_conversion
kprintf s [] args = some s
kprintf s (c ∷ []) args =
    if c == b'%' then some (make_room s) else some (plain_char (make_room s) c)
kprintf s (c ∷ d ∷ fmt) [] =
    let plain = kprintf (plain_char (make_room s) c) (d ∷ fmt) [] in
    let unknown = kprintf (make_room s) (d ∷ fmt) [] in
    if c == b'%' then elim (is_conversion d) [ none ↦ unknown | some _ ↦ none ] else plain
kprintf s (c ∷ d ∷ fmt) (arg ∷ args) =
    let plain = kprintf (plain_char (make_room s) c) (d ∷ fmt) (arg ∷ args) in
    let unknown = kprintf (make_room s) (d ∷ fmt) (arg ∷ args) in
    let converted = convert (make_room s) d arg >>= λ s'. kprintf s' fmt args in
    if c == b'%' then elim (is_conversion d) [ none ↦ unknown | some _ ↦ converted ] else plain
