-- ===== src/Tests/Shell.antt =====
-- The shell at short lines: "ls |x" at address 10, "a/b" at 30 and "a|b" at 40.
use sbu_operating_system.Prelude.{ℕ, ◌≡◌, refl, arith, ◌==◌, if◌then◌else◌, List, [], ◌∷◌, ◌++◌}
use sbu_operating_system.CString.{Memory}
use sbu_operating_system.CString.Layout.{Holds}
use sbu_operating_system.CString.Strtok.{strtok}
use sbu_operating_system.Shell.Tokens.{tokenize_input}
use sbu_operating_system.Shell.Tokens.Pieces.{first_word}
use sbu_operating_system.Shell.Tokens.Cut.{IsCut, tokenize_input-IsCut}
use sbu_operating_system.Shell.Tokens.Kernel.{strtok-tokenize_input}
use sbu_operating_system.Shell.Pipe.{parse_pipe}
use sbu_operating_system.Shell.Pipe.Halves.{IsParted, parse_pipe-IsParted}
use sbu_operating_system.Shell.Environment.{strcmp1, matches}
use sbu_operating_system.Shell.Main.{initial_vars, main_round}
use sbu_operating_system.Shell.Main.Loop.{IsPlain, Executed, main_round-Executed}

abbrev memory : Memory
memory p =
    if p == 10
    then b'l'
    else if p == 11
    then b's'
    else if p == 12
    then b' '
    else if p == 13
    then b'|'
    else if p == 14
    then b'x'
    else if p == 30
    then b'a'
    else if p == 31
    then b'/'
    else if p == 32
    then b'b'
    else if p == 40
    then b'a'
    else if p == 41
    then b'|'
    else if p == 42
    then b'b'
    else 0

abbrev line : List ℕ
line = b'l' ∷ b's' ∷ b' ' ∷ b'|' ∷ b'x' ∷ []

abbrev path : List ℕ
path = b'a' ∷ b'/' ∷ b'b' ∷ []

memory-line : Holds memory 10 line
memory-line = omega arith

memory-path : Holds memory 30 path
memory-path = omega arith

memory-halves : Holds memory 40 ((b'a' ∷ []) ++ (b'|' ∷ b'b' ∷ []))
memory-halves = omega arith

tokenize_input-IsCut_example : IsCut memory 10 b' ' line (tokenize_input 6 memory 10 b' ')
tokenize_input-IsCut_example =
    tokenize_input-IsCut 6 memory 10 b' ' line (omega arith) memory-line (omega arith)

strtok-tokenize_input_example : strtok 4 memory 30 b'/' ≡ tokenize_input 4 memory 30 b'/'
strtok-tokenize_input_example =
    strtok-tokenize_input 4 memory 30 b'/' path (omega arith) memory-path refl (omega arith)

parse_pipe-IsParted_example : IsParted memory 40 (b'a' ∷ []) (b'b' ∷ []) (parse_pipe 4 memory 40)
parse_pipe-IsParted_example =
    parse_pipe-IsParted 4 memory 40 (b'a' ∷ []) (b'b' ∷ []) memory-halves ((λ e. cc e), refl, refl)
      ((λ e. cc e), refl, refl) (omega arith)

IsPlain-ls : IsPlain (first_word b' ' line)
unfolding matches strcmp1
IsPlain-ls = record {
  no_pipe = refl;
  no_amp = refl;
  no_cd = refl;
  no_script = refl;
  no_exit = refl;
  no_pwd = refl;
}

main_round-Executed_example :
    Executed memory initial_vars 10 line (main_round 7 memory initial_vars 10)
main_round-Executed_example =
    main_round-Executed 7 memory initial_vars 10 b'l' (b's' ∷ b' ' ∷ b'|' ∷ b'x' ∷ []) memory-line
      (omega arith) IsPlain-ls
