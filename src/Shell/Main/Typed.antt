-- ===== src/Shell/Main/Typed.antt =====
-- From the keys to the command.
use sbu_operating_system.Prelude.{
  ℕ, suc, ◌+◌, ◌^◌, ◌<◌, ◌≡◌, ◌∙◌, ◌⊎◌, sym, subst, ap, arith, Bool, true, false, ltb,
  if◌then◌else◌, ◌>>=◌, Option, none, some, List, [], ◌∷◌, ◌++◌, map, length, pos,
}
use sbu_operating_system.CString.Layout.{Holds}
use sbu_operating_system.CString.Read.{read_string, read_string-Holds}
use sbu_operating_system.Keyboard.Layout.{us_keyboard}
use sbu_operating_system.Keyboard.Line.{AllPlain}
use sbu_operating_system.Shell.Tokens.Pieces.{first_word}
use sbu_operating_system.Shell.Environment.{EnvVars}
use sbu_operating_system.Shell.Main.{Round, main_round}
use sbu_operating_system.Shell.Main.Loop.{IsPlain, Executed, main_round-Executed}
use sbu_operating_system.Syscalls.{System, CallResult, returned, done}
use sbu_operating_system.Libc.{gets_call}
use sbu_operating_system.Libc.Gets.{AllShown, length-map, gets_call-Typed}

-- The room at `input`, and the number of `tokens`.
abbrev input_size : ℕ
input_size = 100

with_line : ℕ → EnvVars → ℕ → Option CallResult → Option Round
with_line fuel vars input (some (returned s v)) =
    let room : Option Bool =
      read_string fuel s.memory input >>= λ text. some (ltb (length text) input_size) in
    room >>= λ fit. if fit then main_round fuel s.memory vars input else none
with_line fuel vars input _ = none

-- A round of the loop with its `gets`. `none` also stands for a line that is not ended, and for one
-- that `gets` writes past the end of `input`.
pub shell_round : ℕ → List ℕ → System → EnvVars → ℕ → ℕ → Option Round
unfolding with_line
shell_round fuel keys s vars array input =
    with_line fuel vars input (gets_call fuel keys s array input)

-- At most 99 plain keys with characters and then Enter, hit while the shell waits in `gets` on an
-- idle keyboard: `gets` returns, and the round hands the typed line to `execute_binaries` in pieces
-- and empties the buffer, if the first word of the line is no keyword and has neither `|` nor `&`.
-- The array of `gets` lies in the user half of the addresses and apart from the buffer.
pub main_round_typed :
    (fuel : ℕ) (keys : List ℕ) (s : System) (vars : EnvVars) (array input c : ℕ) (cs : List ℕ)
    → length s.keyboard.scan_buffer ≡ 1024
    → s.keyboard.scan_length ≡ 0
    → s.keyboard.shift_flag ≡ false
    → s.keyboard.control_flag ≡ false
    → AllPlain keys
    → length keys < 100
    → array < 2 ^ 47
    → map us_keyboard keys ≡ c ∷ cs
    → AllShown (c ∷ cs)
    → suc (length cs) < fuel
    → (array + suc (length cs) < input) ⊎ (input + suc (length cs) < array)
    → IsPlain (first_word b' ' (c ∷ cs))
    → (s' : System) × (gets_call fuel (keys ++ (28 ∷ [])) s array input ≡ done s' (pos input))
      × Executed s'.memory vars input
          (c ∷ cs)
          (shell_round fuel (keys ++ (28 ∷ [])) s vars array input)
unfolding shell_round with_line
main_round_typed fuel keys s vars array input c cs size idle shift control plain few user text shown
      enough apart first =
    let same = sym text in
    let typed =
      gets_call-Typed fuel keys s array input size idle shift control plain
        (subst AllShown same shown) (omega arith) user (subst (λ t. length t < fuel) same enough)
        (subst (λ t. (array + length t < input) ⊎ (input + length t < array)) same apart) in
    let held = subst (Holds typed.memory input) text typed.held in
    let fit : ltb (suc (length cs)) input_size ≡ true =
      let counted : suc (length cs) ≡ length keys = ap length same ∙ length-map us_keyboard keys in
      ground (arith, counted) in
    (
      record s { memory = typed.memory; keyboard = typed.keyboard },
      typed.returns,
      rw (typed.returns, read_string-Holds fuel typed.memory input (c ∷ cs) held enough, fit)
          (main_round-Executed fuel typed.memory vars input c cs held enough first),
    )
