-- ===== src/Libc/Gets.antt =====
-- A line of the keyboard, on its way to the program that asks for it.
use sbu_operating_system.Prelude.{
  ℕ, suc, ◌+◌, ◌≤◌, ◌<◌, ◌≡◌, ◌≢◌, ◌∙◌, ◌⊎◌, inl, refl, arith, ap, sym, subst, true, false, ltb,
  ◌^◌, Option, none, some, List, [], ◌∷◌, ◌++◌, map, length, update, pos,
}
use sbu_operating_system.CString.{Memory, memset}
use sbu_operating_system.CString.Layout.{Holds, Holds-frame}
use sbu_operating_system.CString.Block.{memset_lem}
use sbu_operating_system.CString.Read.{read_string-Holds}
use sbu_operating_system.Files.Calls.{store_string}
use sbu_operating_system.Keyboard.{Keyboard, line, read_from_stdin}
use sbu_operating_system.Keyboard.Layout.{us_keyboard}
use sbu_operating_system.Keyboard.Line.{AllPlain, read_from_stdin-line}
use sbu_operating_system.Syscalls.{
  System, CallResult, returned, done, sys_read, my_syscalls_function,
}
use sbu_operating_system.Libc.{store_bytes, gets_call}

-- No byte of the text is 0.
abbrev pub AllShown : List ℕ → Type 0
AllShown [] = Unit
AllShown (c ∷ cs) = (c ≢ 0) × AllShown cs

store_bytes-outside :
    (m : Memory) (p : ℕ) (s : List ℕ) (a : ℕ)
    → (a < p) ⊎ (p + length s ≤ a)
    → store_bytes m p s a ≡ m a
unfolding store_bytes
store_bytes-outside m p [] a o = refl
store_bytes-outside m p (c ∷ s) a o =
    ground (arith, store_bytes-outside (update m p c) (p + 1) s a (omega arith))

store_bytes-Holds :
    (m : Memory) (p : ℕ) (s : List ℕ)
    → AllShown s
    → Holds (update (store_bytes m p s) (p + length s) 0) p s
unfolding store_bytes
store_bytes-Holds m p [] h = ground arith
store_bytes-Holds m p (c ∷ s) h =
    let next : p + suc (length s) ≡ p + 1 + length s = omega arith in
    let rest = store_bytes-Holds (update m p c) (p + 1) s h.1 in
    let m' = store_bytes (update m p c) (p + 1) s in
    (
      ground (arith, store_bytes-outside (update m p c) (p + 1) s p (inl (omega arith))),
      h.0,
      subst (λ e. Holds (update m' e 0) (p + 1) s) (sym next) rest,
    )

store_string-store_bytes :
    (m : Memory) (p : ℕ) (s : List ℕ)
    → store_string m p s ≡ update (store_bytes m p s) (p + length s) 0
unfolding store_string store_bytes
store_string-store_bytes m p [] = ap (λ e. update m e 0) (omega arith)
store_string-store_bytes m p (c ∷ s) =
    let next : p + 1 + length s ≡ p + suc (length s) = omega arith in
    store_string-store_bytes (update m p c) (p + 1) s
    ∙ ap (λ e. update (store_bytes (update m p c) (p + 1) s) e 0) next

pub store_string-Holds :
    (m : Memory) (p : ℕ) (s : List ℕ) → AllShown s → Holds (store_string m p s) p s
store_string-Holds m p s h =
    subst (λ m'. Holds m' p s) (sym (store_string-store_bytes m p s)) (store_bytes-Holds m p s h)

-- The typed text stands at `input`, and the array that it came through is empty again.
pub record Typed (s : System) (array input : ℕ) (text : List ℕ) (result : Option CallResult)
    : Type 0 where
  pub memory : Memory
  pub keyboard : Keyboard
  pub returns : result ≡ done (record s { memory = memory; keyboard = keyboard }) (pos input)
  pub held : Holds memory input text
  pub cleared : (a : ℕ) → array ≤ a → a ≤ array + length text → memory a ≡ 0
  pub others :
      (a : ℕ)
      → (a < array) ⊎ (array + length text < a)
      → (a < input) ⊎ (input + length text < a)
      → memory a ≡ s.memory a

read_call_line :
    (fuel : ℕ) (keys text : List ℕ) (s : System) (array : ℕ) (k : Keyboard)
    → array < 2 ^ 47
    → read_from_stdin keys s.keyboard ≡ line text k
    → my_syscalls_function fuel keys s 3 0 array 1000
      ≡ some (returned (record s { memory = store_string s.memory array text; keyboard = k }) none)
unfolding my_syscalls_function sys_read
read_call_line fuel keys text s array k user read =
    let here : ltb array (2 ^ 47) ≡ true = ground arith in
    rw (read, here, my_syscalls_function, sys_read) refl

pub length-map : (f : ℕ → ℕ) (cs : List ℕ) → length (map f cs) ≡ length cs
length-map f [] = refl
length-map f (c ∷ cs) = ap suc (length-map f cs)

-- From an idle keyboard with no modifier held, when at most 999 plain keys and then Enter are hit,
-- and each of the keys has a character, `gets` of the library returns with the characters of the
-- keys, in order, at its argument. The buffer and its own array, which lies in the user half of the
-- addresses, must not overlap, and the buffer must have room for them; the array is empty
-- afterwards, and no other memory changes.
pub gets_call-Typed :
    (fuel : ℕ) (keys : List ℕ) (s : System) (array input : ℕ)
    → length s.keyboard.scan_buffer ≡ 1024
    → s.keyboard.scan_length ≡ 0
    → s.keyboard.shift_flag ≡ false
    → s.keyboard.control_flag ≡ false
    → AllPlain keys
    → AllShown (map us_keyboard keys)
    → length keys < 1000
    → array < 2 ^ 47
    → length (map us_keyboard keys) < fuel
    → (array + length (map us_keyboard keys) < input)
      ⊎ (input + length (map us_keyboard keys) < array)
    → Typed s array input (map us_keyboard keys) (gets_call fuel (keys ++ (28 ∷ [])) s array input)
unfolding gets_call
gets_call-Typed fuel keys s array input size idle shift control plain shown few user enough apart =
    let text = map us_keyboard keys in
    let (k, read) =
      read_from_stdin-line keys s.keyboard size idle shift control plain (omega arith) in
    let room : ltb (length text) 1000 ≡ true =
      let same : length text ≡ length keys = length-map us_keyboard keys in ground (arith, same) in
    let m1 = store_string s.memory array text in
    let held = store_string-Holds s.memory array text shown in
    let found = read_string-Holds fuel m1 array text held enough in
    let stored : (a : ℕ)
        → m1 a ≡ update (store_bytes s.memory array text) (array + length text) 0 a =
      λ a. ap (λ m. m a) (store_string-store_bytes s.memory array text) in
    let m2 = store_bytes m1 input text in
    let m3 = memset m2 array 0 (length text) in
    let m4 = update m3 (input + length text) 0 in
    record {
      memory = m4;
      keyboard = k;
      returns =
          rw (read, room, read_call_line fuel (keys ++ (28 ∷ [])) text s array k user read, found)
            refl;
      held =
          Holds-frame (update m2 (input + length text) 0) m4 input text
            (λ a lo hi. ground (arith, memset_lem (length text) m2 array 0 a, apart))
            (store_bytes-Holds m1 input text shown);
      cleared = λ a lo hi. ground (
        arith,
        memset_lem (length text) m2 array 0 a,
        apart,
        store_bytes-outside m1 input text a (omega (arith, apart)),
        stored a,
      );
      others = λ a o o'. ground (
        arith,
        memset_lem (length text) m2 array 0 a,
        store_bytes-outside m1 input text a (omega arith),
        stored a,
        store_bytes-outside s.memory array text a (omega arith),
      );
    }
