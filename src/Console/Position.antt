-- ===== src/Console/Position.antt =====
-- `kprintfWithPos` and the printing of times. The position goes to `x` and `y` alone, and the
-- characters to where `vPointer` stands.
pub mod Ignored
pub mod Time
use sbu_operating_system.Prelude.{
  ℕ, zero, suc, ◌+◌, ◌-◌, ◌*◌, ◌/◌, ◌%◌, Bool, true, false, ◌||◌, ◌&&◌, Option, none, some, List,
  [], ◌∷◌, ◌++◌, length, ltb, ◌==◌, if◌then◌else◌, ◌>>=◌, ℤ, pos, negsuc, u8,
}
use sbu_operating_system.Console.{
  Screen, Arg, char, string, int, long, print_char, print_chars, print_int, print_hex,
  print_pointer, int_of_long, is_conversion,
}

-- `printTimeSmall`, for an `int` that is not negative.
pub print_time_small : ℕ → List ℕ
print_time_small n =
    if n == 0 then b'0' ∷ b'0' ∷ [] else if ltb n 10 then b'0' ∷ (b'0' + n) ∷ [] else []

-- `printTime`, for an `int` that is not negative; the recursion is as deep as there are digits.
pub print_time : ℕ → ℕ → Option (List ℕ)
print_time zero n = none
print_time (suc fuel) n =
    let rest = print_time fuel (n / 10) in
    if n == 0
    then some (b'0' ∷ b'0' ∷ [])
    else if ltb n 10
    then some ((b'0' + n) ∷ [])
    else rest >>= λ cs. some (cs ++ ((b'0' + n % 10) ∷ []))

-- `printTime` of the negative number with the digits of `n`, which goes on to 0.
pub print_time_back : ℕ → ℕ → Option (List ℕ)
print_time_back zero n = none
print_time_back (suc fuel) n =
    let rest = print_time_back fuel (n / 10) in
    if n == 0 then some (b'0' ∷ b'0' ∷ []) else rest >>= λ cs. some (cs ++ ((b'0' - n % 10) ∷ []))

-- The conversion `%t`.
pub time_chars : ℤ → Option (List ℕ)
unfolding print_time_small print_time print_time_back
time_chars (pos n) = if ltb 0 n && ltb n 10 then some (print_time_small n) else print_time 11 n
time_chars (negsuc n) = print_time_back 12 (suc n)

pub convert_with_pos : Screen → ℕ → Arg → Option Screen
unfolding time_chars
convert_with_pos s c (char v) = if c == b'c' then some (print_char s (u8 v)) else none
convert_with_pos s c (string cs) = if c == b's' then some (print_chars s cs) else none
convert_with_pos s c (int v) =
    if c == b'd'
    then (print_int v >>= λ cs. some (print_chars s cs))
    else if c == b't'
    then (time_chars v >>= λ cs. some (print_chars s cs))
    else none
convert_with_pos s c (long v) =
    if c == b'x'
    then (print_hex 16 (int_of_long v) >>= λ cs. some (print_chars s cs))
    else if c == b'p'
    then (print_pointer 16 (int_of_long v) >>= λ cs. some (print_chars s cs))
    else none

abbrev takes_argument : ℕ → Bool
takes_argument c =
    (c == b'c') || (c == b's') || (c == b'd') || (c == b't') || (c == b'x') || (c == b'p')

abbrev pub wrap_line : Screen → Screen
wrap_line s = if s.x == 80 then record s { x = 0; y = s.y + 1 } else s

-- A newline moves no pointer.
abbrev pub skip_newline : Screen → List ℕ → Screen × List ℕ
skip_newline s [] = (s, [])
skip_newline s (c ∷ fmt) =
    if c == b'\n' then (record s { x = 0; y = s.y + 1 }, fmt) else (s, c ∷ fmt)

abbrev pub skip_return : Screen → List ℕ → Screen × List ℕ
skip_return s [] = (s, [])
skip_return s (c ∷ fmt) = if c == b'\r' then (record s { x = 0 }, fmt) else (s, c ∷ fmt)

-- A newline and then a return.
pub skip_breaks : Screen → List ℕ → Screen × List ℕ
skip_breaks s fmt = let (s', fmt') = skip_newline s fmt in skip_return s' fmt'

-- The loop of `kprintfWithPos`. A round takes a newline, a return and then one more character or
-- conversion, and reads on behind the end of a format that ends before.
pub with_pos_loop : ℕ → Screen → List ℕ → List Arg → Option Screen
unfolding convert_with_pos
with_pos_loop zero s fmt args = none
with_pos_loop (suc fuel) s [] args = some s
with_pos_loop (suc fuel) s (c ∷ cs) args =
    let (s2, f2) = skip_breaks (wrap_line s) (c ∷ cs) in
    elim f2 [
      | [] ↦ none
      | d ∷ f3 ↦ elim (d == b'%') [
        | false ↦ with_pos_loop fuel (print_char s2 d) f3 args
        | true ↦ elim f3 [
          | [] ↦ some s2
          | e ∷ f4 ↦ elim (takes_argument e) [
            | false ↦ with_pos_loop fuel s2 (e ∷ f4) args
            | true ↦ elim args [
              | [] ↦ none
              | arg ∷ rest ↦ elim (convert_with_pos s2 e arg) [
                | none ↦ none
                | some s3 ↦ with_pos_loop fuel s3 f4 rest
              ]
            ]
          ]
        ]
      ]
    ]

pub kprintf_with_pos : Screen → ℕ → ℕ → List ℕ → List Arg → Option Screen
unfolding with_pos_loop
kprintf_with_pos s x_cord y_cord fmt args =
    with_pos_loop (length fmt + 1) (record s { x = x_cord; y = y_cord }) fmt args >>= λ s'.
    some (record s' { x = s.x; y = s.y })
