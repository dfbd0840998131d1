-- ===== src/Printf.antt =====
-- libc/printf.c: `printf` of the user library, which collects its text in `read_buffer` and hands it
-- to `write`. Its printInt, printHex and printPointer are those of sys/kprintf.c once more, but for
-- where the characters go. `none` is a write behind the buffer, or an argument that does not fit.
pub mod Again
use sbu_operating_system.Prelude.{
  ℕ, zero, suc, ◌+◌, Option, none, some, List, [], ◌∷◌, ltb, ◌==◌, if◌then◌else◌, update, ◌>>=◌, u8,
}
use sbu_operating_system.CString.{Memory}
use sbu_operating_system.Console.{
  Arg, char, string, int, long, print_int, print_hex, print_pointer, int_of_long, is_conversion,
}

pub record Buffer : Type 0 where
  pub read_buffer : Memory
  pub buff_offset : ℕ

abbrev pub buffer_size : ℕ
buffer_size = 100

unfoldable pub put_char : Buffer → ℕ → Option Buffer
put_char b c =
    if ltb b.buff_offset buffer_size
    then some (record b {
      read_buffer = update b.read_buffer b.buff_offset c;
      buff_offset = b.buff_offset + 1;
    })
    else none

pub put_chars : Buffer → List ℕ → Option Buffer
unfolding put_char
put_chars b [] = some b
put_chars b (c ∷ cs) = put_char b c >>= λ b'. put_chars b' cs

-- What a conversion prints of its argument.
pub rendered : ℕ → Arg → Option (List ℕ)
rendered c (char v) = if c == b'c' then some (u8 v ∷ []) else none
rendered c (string cs) = if c == b's' then some cs else none
rendered c (int v) = if c == b'd' then print_int v else none
rendered c (long v) =
    if c == b'x'
    then print_hex 16 (int_of_long v)
    else if c == b'p'
    then print_pointer 16 (int_of_long v)
    else none

-- The loop over the format. `\n` and `\r` are printed as they are. An unknown conversion takes
-- nothing, and its letter is printed in the next round.
pub format_loop : Buffer → List ℕ → List Arg → Option Buffer
unfolding put_chars rendered
format_loop b [] args = some b
format_loop b (c ∷ []) args = if c == b'%' then some b else put_char b c
format_loop b (c ∷ d ∷ fmt) [] =
    let plain = put_char b c >>= λ b'. format_loop b' (d ∷ fmt) [] in
    let unknown = format_loop b (d ∷ fmt) [] in
    if c == b'%' then elim (is_conversion d) [ none ↦ unknown | some _ ↦ none ] else plain
format_loop b (c ∷ d ∷ fmt) (arg ∷ args) =
    let plain = put_char b c >>= λ b'. format_loop b' (d ∷ fmt) (arg ∷ args) in
    let unknown = format_loop b (d ∷ fmt) (arg ∷ args) in
    let converted = rendered d arg >>= λ cs. put_chars b cs >>= λ b'. format_loop b' fmt args in
    if c == b'%' then elim (is_conversion d) [ none ↦ unknown | some _ ↦ converted ] else plain

-- The zero byte at the end; the buffer and the offset are then handed to `write`.
pub printf : Buffer → List ℕ → List Arg → Option Buffer
unfolding format_loop
printf b fmt args = format_loop b fmt args >>= λ b'.
    if ltb b'.buff_offset buffer_size
    then some (record b' { read_buffer = update b'.read_buffer b'.buff_offset 0 })
    else none
