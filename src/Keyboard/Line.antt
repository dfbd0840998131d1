-- ===== src/Keyboard/Line.antt =====
-- Reading a line from the keyboard, from the first key to the text that the caller gets.
use sbu_operating_system.Prelude.{
  ℕ, zero, suc, ◌+◌, ◌<◌, ◌≡◌, ◌≢◌, ◌∙◌, refl, ap, sym, arith, true, false, some, List, [], ◌∷◌,
  ◌++◌, map, length, length-set, set, take, bit_and, length-append,
}
use mathlib.Core.List.{append_assoc, append-nil}
use sbu_operating_system.Bits.{bit, bit_and-two_pow}
use sbu_operating_system.Keyboard.{
  Keyboard, line, printed, keyboard_handler, clear_front, finish, wait_loop, read_from_stdin,
}
use sbu_operating_system.Keyboard.Layout.{us_keyboard}

-- A key that types its own character: none of the modifiers, Enter, Tab, Escape, Backspace, Delete.
pub record IsPlain (code : ℕ) : Type 0 where
  pub pressed : code < 128
  pub not_escape : code ≢ 1
  pub not_backspace : code ≢ 14
  pub not_delete : code ≢ 83
  pub not_control : us_keyboard code ≢ b'~'
  pub not_shift : us_keyboard code ≢ b'^'
  pub not_enter : us_keyboard code ≢ b'\n'
  pub not_tab : us_keyboard code ≢ b'\t'

abbrev pub AllPlain : List ℕ → Type 0
AllPlain [] = Unit
AllPlain (code ∷ codes) = IsPlain code × AllPlain codes

take-set_next :
    (xs : List ℕ) (i c : ℕ) → i < length xs → take (suc i) (set xs i c) ≡ take i xs ++ (c ∷ [])
take-set_next [] i c h = elim h [ ]
take-set_next (x ∷ xs) zero c h = refl
take-set_next (x ∷ xs) (suc i) c h = ap (λ r. x ∷ r) (take-set_next xs i c (omega arith))

take-set_same : (xs : List ℕ) (i c : ℕ) → take i (set xs i c) ≡ take i xs
take-set_same [] i c = refl
take-set_same (x ∷ xs) zero c = refl
take-set_same (x ∷ xs) (suc i) c = ap (λ r. x ∷ r) (take-set_same xs i c)

-- The text `s` has been typed so far, with no modifier held.
record Typed (s : List ℕ) (k : Keyboard) : Type 0 where
  size : length k.scan_buffer ≡ 1024
  text : take k.scan_length k.scan_buffer ≡ s
  count : k.scan_length ≡ length s
  scanning : k.scan_flag ≡ true
  no_shift : k.shift_flag ≡ false
  no_control : k.control_flag ≡ false

low_code : (code : ℕ) → code < 128 → bit_and code 0x80 ≡ 0
low_code code h = omega (arith, bit_and-two_pow 7 code, digit)
  where
    digit : bit 7 code ≡ 0
    digit = omega arith

-- The keyboard after a plain key.
abbrev pressed_key : ℕ → Keyboard → Keyboard
pressed_key c k = record k {
  scan_buffer = set k.scan_buffer k.scan_length c;
  scan_length = k.scan_length + 1;
  screen = printed c ∷ k.screen;
}

press :
    (code : ℕ) (s : List ℕ) (k : Keyboard)
    → IsPlain code
    → Typed s k
    → length s < 1024
    → keyboard_handler code k ≡ some (pressed_key (us_keyboard code) k)
unfolding keyboard_handler
press code s k p t room = ground (arith, low_code code p.pressed)

pressed_key-Typed :
    (c : ℕ) (s : List ℕ) (k : Keyboard)
    → Typed s k
    → length s < 1024
    → Typed (s ++ (c ∷ [])) (pressed_key c k)
pressed_key-Typed c s k t room = record {
  size = length-set k.scan_buffer k.scan_length c ∙ t.size;
  text =
      let e : k.scan_length + 1 ≡ suc k.scan_length = omega arith in
      rw e (
        take-set_next k.scan_buffer k.scan_length c (omega (arith, t.size, t.count))
        ∙ ap (λ x. x ++ (c ∷ [])) t.text);
  count = omega (arith, t.count, length-append s (c ∷ []));
  scanning = t.scanning;
  no_shift = t.no_shift;
  no_control = t.no_control;
}

-- The keyboard after Enter.
abbrev entered : Keyboard → Keyboard
entered k = record k {
  scan_buffer = set k.scan_buffer k.scan_length 0;
  scan_flag = false;
  screen = printed b'\n' ∷ k.screen;
}

press_enter :
    (s : List ℕ) (k : Keyboard)
    → Typed s k
    → length s < 1024
    → keyboard_handler 28 k ≡ some (entered k)
unfolding keyboard_handler us_keyboard
press_enter s k t room = ground arith

wait_loop-step :
    (code : ℕ) (codes : List ℕ) (k k' : Keyboard)
    → k.scan_flag ≡ true
    → keyboard_handler code k ≡ some k'
    → wait_loop (code ∷ codes) k ≡ wait_loop codes k'
unfolding wait_loop
wait_loop-step code codes k k' e h = rw (e, h, wait_loop) refl

-- The keyboard after the line has been taken.
abbrev taken : Keyboard → Keyboard
taken k = record k {
  scan_buffer = clear_front k.scan_length k.scan_buffer;
  scan_flag = false;
  scan_length = 0;
}

-- Enter ends the wait, and the text goes to the caller.
wait_loop-enter :
    (s : List ℕ) (k : Keyboard)
    → Typed s k
    → length s < 1024
    → wait_loop (28 ∷ []) k ≡ line s (taken (entered k))
unfolding finish
wait_loop-enter s k t room =
    wait_loop-step 28 [] k (entered k) t.scanning (press_enter s k t room)
    ∙ unfold wait_loop in
      ap (λ x. line x (taken (entered k))) (take-set_same k.scan_buffer k.scan_length 0 ∙ t.text)

wait_loop-line :
    (codes s : List ℕ) (k : Keyboard)
    → AllPlain codes
    → Typed s k
    → length s + length codes < 1024
    → (k' : Keyboard) × (wait_loop (codes ++ (28 ∷ [])) k ≡ line (s ++ map us_keyboard codes) k')
wait_loop-line [] s k p t room = (
  taken (entered k),
  wait_loop-enter s k t (omega arith) ∙ ap (λ x. line x (taken (entered k))) (sym (append-nil s)),
)
wait_loop-line (code ∷ codes) s k (p, ps) t room =
    let c = us_keyboard code in
    let (k', run) =
      wait_loop-line codes (s ++ (c ∷ [])) (pressed_key c k) ps
        (pressed_key-Typed c s k t (omega arith)) (omega (arith, length-append s (c ∷ []))) in
    (
      k',
      wait_loop-step code (codes ++ (28 ∷ [])) k (pressed_key c k) t.scanning
            (press code s k p t (omega arith))
          ∙ run
          ∙ ap (λ x. line x k') (append_assoc s (c ∷ []) (map us_keyboard codes)),
    )

length-clear_front : (n : ℕ) (cs : List ℕ) → length (clear_front n cs) ≡ length cs
unfolding clear_front
length-clear_front zero cs = refl
length-clear_front (suc n) [] = refl
length-clear_front (suc n) (c ∷ cs) = ap suc (length-clear_front n cs)

-- From an idle keyboard with no modifier held, at most 1023 plain keys and then Enter make
-- `readFromStdin` return with exactly the characters of the keys, in order.
pub read_from_stdin-line :
    (codes : List ℕ) (k : Keyboard)
    → length k.scan_buffer ≡ 1024
    → k.scan_length ≡ 0
    → k.shift_flag ≡ false
    → k.control_flag ≡ false
    → AllPlain codes
    → length codes < 1024
    → (k' : Keyboard) × (read_from_stdin (codes ++ (28 ∷ [])) k ≡ line (map us_keyboard codes) k')
unfolding read_from_stdin
read_from_stdin-line codes k size idle shift control plain room =
    wait_loop-line codes []
      (record k { scan_buffer = clear_front 1024 k.scan_buffer; scan_flag = true }) plain
      (record {
        size = length-clear_front 1024 k.scan_buffer ∙ size;
        text = ap (λ n. take n (clear_front 1024 k.scan_buffer)) idle;
        count = idle;
        scanning = refl;
        no_shift = shift;
        no_control = control;
      })
      (omega arith)
