-- ===== src/Keyboard/Valid.antt =====
-- The line buffer under any scan code: what is kept, and when a write could leave the buffer.
use sbu_operating_system.Prelude.{
  ℕ, ◌+◌, ◌-◌, ◌≤◌, ◌<◌, ◌≡◌, arith, true, false, Option, none, some, length, length-set, set,
  get_elem?, get_elem?-set_self, get_elem?-set_ne, ◌==◌, Bool-cases, inl, inr, some, ◌>>=◌,
}
use sbu_operating_system.Keyboard.{
  Keyboard, type_char, shifted_key, enter_key, backspace_key, keyboard_handler,
}
use sbu_operating_system.Keyboard.Layout.{us_keyboard, shift_symbol}

-- The buffer has its 1024 bytes, and the line fits into it.
pub record IsValid (k : Keyboard) : Type 0 where
  pub size : length k.scan_buffer ≡ 1024
  pub fits : k.scan_length ≤ 1024

-- A step that stays inside the buffer leaves a keyboard with `P`.
abbrev pub Allows : (Keyboard → Type 0) → Option Keyboard → Type 0
Allows P none = Unit {0}
Allows P (some k) = P k

-- A step stays inside the buffer, and leaves a keyboard with `P`.
abbrev pub Ensures : (Keyboard → Type 0) → Option Keyboard → Type 0
Ensures P none = ⊥
Ensures P (some k) = P k

Allows-bind :
    (P Q : Keyboard → Type 0) (r : Option Keyboard) (f : Keyboard → Option Keyboard)
    → Allows P r
    → ((k : Keyboard) → P k → Allows Q (f k))
    → Allows Q (r >>= f)
Allows-bind P Q none f h g = tt
Allows-bind P Q (some k) f h g = g k h

type_char-IsValid : (c : ℕ) (k : Keyboard) → IsValid k → Allows IsValid (type_char c k)
unfolding type_char
type_char-IsValid c k v = ground (arith, length-set k.scan_buffer k.scan_length c)

shifted_key-IsValid : (key : ℕ) (k : Keyboard) → IsValid k → Allows IsValid (shifted_key key k)
unfolding shifted_key
shifted_key-IsValid key k v = elim (Bool-cases (key == b',')) [
  | inl comma ↦
      rw (comma, shifted_key)
        (Allows-bind IsValid IsValid (type_char b'<' k) (λ k'. type_char b'>' k')
          (type_char-IsValid b'<' k v) (λ k' v'. type_char-IsValid b'>' k' v'))
  | inr other ↦ rw (other, shifted_key) (type_char-IsValid (shift_symbol key) k v)
]

enter_key-IsValid : (k : Keyboard) → IsValid k → Allows IsValid (enter_key k)
unfolding enter_key
enter_key-IsValid k v = ground (arith, length-set k.scan_buffer k.scan_length 0)

backspace_key-IsValid : (k : Keyboard) → IsValid k → Allows IsValid (backspace_key k)
unfolding backspace_key
backspace_key-IsValid k v = ground (arith, length-set k.scan_buffer (k.scan_length - 1) b' ')

-- The handler keeps the buffer valid, whatever key is hit and whenever, as long as it writes inside
-- the buffer.
pub keyboard_handler-IsValid :
    (c : ℕ) (k : Keyboard) → IsValid k → Allows IsValid (keyboard_handler c k)
unfolding keyboard_handler
keyboard_handler-IsValid c k v = ground (
  arith,
  shifted_key-IsValid (us_keyboard c) k v,
  enter_key-IsValid k v,
  backspace_key-IsValid k v,
  type_char-IsValid (us_keyboard c) k v,
)

-- With room for two characters and a line that is not empty, no key makes the handler write
-- outside the buffer.
pub keyboard_handler_inside :
    (c : ℕ) (k : Keyboard)
    → IsValid k
    → 0 < k.scan_length
    → k.scan_length + 2 ≤ 1024
    → Ensures IsValid (keyboard_handler c k)
unfolding keyboard_handler
keyboard_handler_inside c k v some_typed room = ground (
  arith,
  length-set k.scan_buffer k.scan_length 0,
  length-set k.scan_buffer k.scan_length (us_keyboard c),
  length-set k.scan_buffer k.scan_length (shift_symbol (us_keyboard c)),
  length-set k.scan_buffer k.scan_length b'<',
  length-set (set k.scan_buffer k.scan_length b'<') (k.scan_length + 1) b'>',
  length-set k.scan_buffer (k.scan_length - 1) b' ',
)

-- Nothing but the flags changes while no line is being read, whatever key is hit.
pub record Kept (k k' : Keyboard) : Type 0 where
  pub buffer : k'.scan_buffer ≡ k.scan_buffer
  pub same_length : k'.scan_length ≡ k.scan_length
  pub scan : k'.scan_flag ≡ k.scan_flag

pub keyboard_handler_idle :
    (c : ℕ) (k : Keyboard) → k.scan_flag ≡ false → Ensures (Kept k) (keyboard_handler c k)
unfolding keyboard_handler
keyboard_handler_idle c k idle = ground arith

-- Backspace on an empty line, with neither Shift nor Control, writes in front of the buffer: the
-- test `scanLength >= 0` does not guard against it.
pub backspace_empty :
    (k : Keyboard)
    → k.scan_flag ≡ true
    → k.scan_length ≡ 0
    → k.shift_flag ≡ false
    → k.control_flag ≡ false
    → keyboard_handler 14 k ≡ none
unfolding keyboard_handler us_keyboard
backspace_empty k scan empty shift control = ground arith

-- What the comma key leaves under Shift.
pub record TwoTyped (k k' : Keyboard) : Type 0 where
  pub first : get_elem? k'.scan_buffer k.scan_length ≡ some b'<'
  pub second : get_elem? k'.scan_buffer (k.scan_length + 1) ≡ some b'>'
  pub both : k'.scan_length ≡ k.scan_length + 2

-- Under Shift the comma key types both `<` and `>`, where there is room for two characters.
pub shifted_comma :
    (k : Keyboard)
    → IsValid k
    → k.scan_flag ≡ true
    → k.shift_flag ≡ true
    → k.scan_length + 2 ≤ 1024
    → Ensures (TwoTyped k) (keyboard_handler 51 k)
unfolding keyboard_handler us_keyboard
shifted_comma k v scan shift room =
    let n = k.scan_length in
    let one = set k.scan_buffer n b'<' in
    ground (
      arith,
      length-set k.scan_buffer n b'<',
      length-set one (n + 1) b'>',
      get_elem?-set_self one (n + 1) b'>',
      get_elem?-set_ne one (n + 1) n b'>' (omega arith),
      get_elem?-set_self k.scan_buffer n b'<',
    )
