-- ===== src/CString.antt =====
-- sys/string.c: strings that end in a zero byte, in a memory of bytes. A loop whose end depends on
-- what memory holds runs on fuel; `none` means that it went on longer than that.
pub mod Layout
pub mod Compare
pub mod Copy
pub mod Number
pub mod Block
pub mod Read
pub mod Strtok
use sbu_operating_system.Prelude.{
  ℕ, zero, suc, ◌+◌, ◌-◌, ◌*◌, Bool, true, false, ◌&&◌, ◌||◌, not, Option, none, some, leb, ltb,
  ◌==◌, if◌then◌else◌, update, u64, u8, ℤ, pos, minus_one, sub_ℕ,
}

-- The byte at each address.
abbrev pub Memory : Type 0
Memory = ℕ → ℕ

strlen_loop : ℕ → Memory → ℕ → ℕ → Option ℕ
strlen_loop zero m s len = none
strlen_loop (suc fuel) m s len =
    let rest = strlen_loop fuel m (s + 1) (len + 1) in if m s == 0 then some len else rest

pub strlen : ℕ → Memory → ℕ → Option ℕ
unfolding strlen_loop
strlen fuel m s = strlen_loop fuel m s 0

-- `strcmp` tells equal strings (0) from different ones (-1), and orders nothing.
pub strcmp : ℕ → Memory → ℕ → ℕ → Option ℤ
strcmp zero m str1 str2 = none
strcmp (suc fuel) m str1 str2 =
    let rest = strcmp fuel m (str1 + 1) (str2 + 1) in
    if not (m str1 == 0) || not (m str2 == 0)
    then if m str1 == m str2 then rest else some minus_one
    else some (pos 0)

-- The loop is bounded by `n`, so it needs no fuel.
pub strncmp : Memory → ℕ → ℕ → ℕ → ℤ
strncmp m str1 str2 zero = pos 0
strncmp m str1 str2 (suc n) =
    let rest = strncmp m (str1 + 1) (str2 + 1) n in
    if not (m str1 == 0) && (m str1 == m str2) then rest else sub_ℕ (m str1) (m str2)

pub strcpy : ℕ → Memory → ℕ → ℕ → Option Memory
strcpy zero m dest src = none
strcpy (suc fuel) m dest src =
    let rest = strcpy fuel (update m dest (m src)) (dest + 1) (src + 1) in
    if m src == 0 then some (update m dest 0) else rest

-- The first loop of `strcat`: the address of the zero byte.
find_end : ℕ → Memory → ℕ → Option ℕ
find_end zero m s = none
find_end (suc fuel) m s = let rest = find_end fuel m (s + 1) in if m s == 0 then some s else rest

-- The `do … while` of `strcat`: a byte is copied before the test.
append_loop : ℕ → Memory → ℕ → ℕ → Option Memory
append_loop zero m new original = none
append_loop (suc fuel) m new original =
    let m' : Memory = update m new (m original) in
    let rest = append_loop fuel m' (new + 1) (original + 1) in
    if m' (original + 1) == 0 then some (update m' (new + 1) 0) else rest

pub strcat : ℕ → Memory → ℕ → ℕ → Option Memory
unfolding find_end append_loop
strcat fuel m new original = elim (find_end fuel m new) [
  | none ↦ none
  | some end ↦ append_loop fuel m end original
]

abbrev pub is_digit : ℕ → Bool
is_digit c = leb b'0' c && leb c b'9'

char_to_int_loop : ℕ → Memory → ℕ → ℕ → Option ℕ
char_to_int_loop zero m s i = none
char_to_int_loop (suc fuel) m s i =
    let rest = char_to_int_loop fuel m (s + 1) (u64 (u64 (i * 10) + (m s - b'0'))) in
    if is_digit (m s) then rest else some i

pub char_to_int : ℕ → Memory → ℕ → Option ℕ
unfolding char_to_int_loop
char_to_int fuel m s = char_to_int_loop fuel m s 0

-- `memcpy` of `length` bytes, forwards.
pub memcpy : Memory → ℕ → ℕ → ℕ → Memory
memcpy m d s zero = m
memcpy m d s (suc length) = memcpy (update m d (m s)) (d + 1) (s + 1) length

-- `memset` and `memset1`, for a length that is not negative.
pub memset : Memory → ℕ → ℕ → ℕ → Memory
memset m p val zero = m
memset m p val (suc length) = memset (update m p (u8 val)) (p + 1) val length
