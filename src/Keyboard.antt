-- ===== src/Keyboard.antt =====
-- sys/keyboard.c: the interrupt handler that edits the line being read, and `readFromStdin`.
-- `none` is a write outside `scanBuffer`, which C leaves undefined. The screen is what was printed,
-- oldest last; interrupts come as the list of scan codes that the controller delivers.
pub mod Layout
pub mod Valid
pub mod Line
use sbu_operating_system.Prelude.{
  ℕ, zero, suc, ◌+◌, ◌-◌, Bool, true, false, ◌&&◌, Option, none, some, List, [], ◌∷◌, length, set,
  take, get_elem?, replicate, ltb, leb, ◌==◌, if◌then◌else◌, u8, ◌>>=◌, bit_and, not,
}
use sbu_operating_system.Keyboard.Layout.{us_keyboard, shift_symbol}

-- `kprintf` of one character, and `clearChar`.
pub data Output : Type 0 where
  printed : ℕ → Output
  cleared : Output

pub record Keyboard : Type 0 where
  pub shift_flag : Bool
  pub control_flag : Bool
  pub scan_flag : Bool
  pub scan_buffer : List ℕ
  pub scan_length : ℕ
  pub screen : List Output

abbrev pub print : ℕ → Keyboard → Keyboard
print c k = record k { screen = printed c ∷ k.screen }

-- `scanBuffer[i] = c`
pub poke : ℕ → ℕ → Keyboard → Option Keyboard
poke i c k =
    if ltb i (length k.scan_buffer)
    then some (record k { scan_buffer = set k.scan_buffer i c })
    else none

-- `scanBuffer[scanLength++] = c`, with the character shown, if a line is being read.
pub type_char : ℕ → Keyboard → Option Keyboard
unfolding poke
type_char c k =
    let typed : Option Keyboard = (do
      k' ← poke k.scan_length c k
      some (print c (record k' { scan_length = k.scan_length + 1 }))) in
    if k.scan_flag then typed else some k

-- The `case ','` has no `break`, and falls into `case '.'`.
pub shifted_key : ℕ → Keyboard → Option Keyboard
unfolding type_char
shifted_key key k =
    let both : Option Keyboard = (do k' ← type_char b'<' k; type_char b'>' k') in
    if key == b',' then both else type_char (shift_symbol key) k

-- The Enter key ends the line.
pub enter_key : Keyboard → Option Keyboard
unfolding poke
enter_key k =
    let ended : Option Keyboard = (do
      k' ← poke k.scan_length 0 k
      some (print b'\n' (record k' { scan_flag = false }))) in
    if k.scan_flag then ended else some k

-- The test `scanLength >= 0` always holds, so at length 0 the write is to `scanBuffer[-1]`.
pub backspace_key : Keyboard → Option Keyboard
unfolding poke
backspace_key k =
    let erased : Option Keyboard = (do
      k' ← poke (k.scan_length - 1) b' ' k
      some (record k' { scan_length = k.scan_length - 1; screen = cleared ∷ k.screen })) in
    if k.scan_flag then if k.scan_length == 0 then none else erased else some k

pub plain_key : ℕ → ℕ → Keyboard → Option Keyboard
unfolding backspace_key type_char
plain_key scan_code key k =
    if scan_code == 14
    then backspace_key k
    else if (scan_code == 83) && k.scan_flag
    then some (print b'?' (print b'^' k))
    else if (scan_code == 1) && k.scan_flag
    then some (print b'[' (print b'^' k))
    else type_char key k

-- A key that was let go.
pub key_up : ℕ → Keyboard → Keyboard
key_up scan_code k =
    if scan_code == 0xAA
    then record k { shift_flag = false }
    else if scan_code == 0x9D
    then record k { control_flag = false }
    else k

-- A key that was pressed, by its character.
pub key_down : ℕ → ℕ → Keyboard → Option Keyboard
unfolding shifted_key enter_key plain_key
key_down scan_code key k =
    if key == b'~'
    then some (record k { control_flag = true })
    else if key == b'^'
    then some (record k { shift_flag = true })
    else if key == b'\n'
    then enter_key k
    else if key == b'\t'
    then some (print b' ' k)
    else if k.shift_flag
    then shifted_key key k
    else if k.control_flag && k.scan_flag
    then some (print (u8 (key + 224)) (print b'^' k))
    else plain_key scan_code key k

unfoldable pub keyboard_handler : ℕ → Keyboard → Option Keyboard
unfolding key_up key_down
keyboard_handler scan_code k =
    if not (bit_and scan_code 0x80 == 0)
    then some (key_up scan_code k)
    else key_down scan_code (us_keyboard scan_code) k

-- `memset2(scanBuffer, '\0', n)`.
pub clear_front : ℕ → List ℕ → List ℕ
clear_front zero cs = cs
clear_front (suc n) [] = []
clear_front (suc n) (c ∷ cs) = 0 ∷ clear_front n cs

-- What a call of `readFromStdin` comes to: the bytes that it copies out, before the zero byte that
-- it adds; or it still waits; or an interrupt wrote outside the buffer. The number returned counts
-- the rounds of the busy wait, so it depends on timing and is left out.
pub data Read : Type 0 where
  line : List ℕ → Keyboard → Read
  waiting : Keyboard → Read
  fault : Read

pub finish : Keyboard → Read
unfolding clear_front
finish k = line (take k.scan_length k.scan_buffer) (record k {
  scan_buffer = clear_front k.scan_length k.scan_buffer;
  scan_flag = false;
  scan_length = 0;
})

-- The busy wait: interrupts come in until one clears `scanFlag`.
pub wait_loop : List ℕ → Keyboard → Read
unfolding keyboard_handler finish
wait_loop [] k = if k.scan_flag then waiting k else finish k
wait_loop (code ∷ codes) k = elim k.scan_flag [
  | false ↦ finish k
  | true ↦ elim (keyboard_handler code k) [ none ↦ fault | some k' ↦ wait_loop codes k' ]
]

unfoldable pub read_from_stdin : List ℕ → Keyboard → Read
unfolding wait_loop clear_front
read_from_stdin codes k =
    wait_loop codes (record k { scan_buffer = clear_front 1024 k.scan_buffer; scan_flag = true })
