-- ===== src/Shell/Main/Loop.antt =====
-- What a round of the shell makes of a line.
use sbu_operating_system.Prelude.{
  ℕ, suc, ◌+◌, ◌<◌, ◌≡◌, ◌≤◌, refl, arith, subst, true, false, Option, none, some, List, ◌∷◌,
  length, ◌==◌, ◌>>=◌, codes,
}
use sbu_operating_system.CString.{Memory, memset}
use sbu_operating_system.CString.Layout.{Holds, strlen-length}
use sbu_operating_system.Shell.Tokens.Pieces.{
  pieces, pieces_of, first_word, behind_word, pieces-first_word,
}
use sbu_operating_system.Shell.Tokens.Cut.{AllHold, tokenize_input-IsCut}
use sbu_operating_system.Shell.Tokens.Search.{has, linearsearch-has}
use sbu_operating_system.Shell.Environment.{EnvVars, matches}
use sbu_operating_system.CString.Read.{read_strings}
use sbu_operating_system.Shell.Tokens.Words.{
  AllShort, AllShort-le, pieces-AllShort, read_strings-AllHold,
}
use sbu_operating_system.CString.Block.{memset_lem}
use sbu_operating_system.CString.Copy.{SameOutside}
use sbu_operating_system.Shell.Commands.{Action, say, execute_binaries}
use sbu_operating_system.Shell.Main.{Round, asking, is_script, dispatch, read_line, main_round}

-- A first word that is no keyword of `main`.
pub record IsPlain (w : List ℕ) : Type 0 where
  pub no_pipe : has b'|' w ≡ false
  pub no_amp : has b'&' w ≡ false
  pub no_cd : matches w (codes "cd") ≡ false
  pub no_script : is_script w ≡ false
  pub no_exit : matches w (codes "exit") ≡ false
  pub no_pwd : matches w (codes "pwd") ≡ false

-- The line was handed to `execute_binaries` in pieces, and the buffer is empty again.
pub record Executed (m : Memory) (vars : EnvVars) (p : ℕ) (cs : List ℕ) (result : Option Round)
    : Type 0 where
  pub memory : Memory
  pub returns : result ≡ (
      execute_binaries vars (pieces b' ' cs) >>= λ r.
      some (record { memory = memory; vars = r.0; actions = say vars.ps1 ∷ r.1; flag = true }))
  pub empty : (a : ℕ) → p ≤ a → a < p + length cs → memory a ≡ 0
  pub outside : SameOutside m memory p (length cs)

dispatch-plain :
    (fuel : ℕ) (m : Memory) (vars : EnvVars) (p : ℕ) (w : List ℕ) (ws : List (List ℕ))
    → IsPlain w
    → dispatch fuel m vars p (w ∷ ws) false false
      ≡ (execute_binaries vars (w ∷ ws) >>= λ r. some (asking m r.0 r.1))
unfolding dispatch
dispatch-plain fuel m vars p w ws h = rw (h.no_cd, h.no_script, h.no_exit, h.no_pwd) refl

finish_lem :
    (o : Option (EnvVars × List Action)) (m : Memory) (prompt : Action) (p len : ℕ)
    → (o
        >>= (λ r. some (asking m r.0 r.1))
        >>= (λ r. some (record r { memory = memset r.memory p 0 len }))
        >>= (λ r. some (record r { actions = prompt ∷ r.actions })))
      ≡ (o >>= λ r.
          some
            (record { memory = memset m p 0 len; vars = r.0; actions = prompt ∷ r.1; flag = true }))
finish_lem none m prompt p len = refl
finish_lem (some r) m prompt p len = refl

-- With fuel above its length, a line whose first word is no keyword and has neither `|` nor `&` goes
-- to `execute_binaries` in pieces, whatever stands in its other words, a pipe included: the spaces
-- are overwritten before `|` and `&` are looked for. Afterwards the buffer is empty.
pub main_round-Executed :
    (fuel : ℕ) (m : Memory) (vars : EnvVars) (p c : ℕ) (cs : List ℕ)
    → Holds m p (c ∷ cs)
    → suc (length cs) < fuel
    → IsPlain (first_word b' ' (c ∷ cs))
    → Executed m vars p (c ∷ cs) (main_round fuel m vars p)
unfolding main_round read_line
main_round-Executed fuel m vars p c cs h lt plain =
    let w = first_word b' ' (c ∷ cs) in
    let cut = tokenize_input-IsCut fuel m p b' ' (c ∷ cs) (omega arith) h lt in
    let (rest, starts) = cut.starts in
    let split = pieces-first_word b' ' c cs in
    let behind = pieces_of b' ' (behind_word b' ' (c ∷ cs)) in
    let held : AllHold cut.memory (p ∷ rest) (w ∷ behind) =
      subst (λ ts. AllHold cut.memory ts (w ∷ behind)) starts
        (subst (AllHold cut.memory cut.tokens) split cut.held) in
    let short : AllShort fuel (w ∷ behind) = subst (AllShort fuel) split (
      AllShort-le (suc (suc (length cs))) fuel (pieces b' ' (c ∷ cs)) (omega arith)
        (pieces-AllShort b' ' (c ∷ cs))) in
    let words : read_strings fuel cut.memory cut.tokens ≡ some (w ∷ behind) =
      read_strings-AllHold fuel cut.memory cut.tokens (w ∷ behind)
        (subst (AllHold cut.memory cut.tokens) split cut.held) short in
    let size : length w < fuel = short.0 in
    let pipe = linearsearch-has fuel cut.memory p b'|' w held.0 size in
    let amp = linearsearch-has fuel cut.memory p b'&' w held.0 size in
    let shown : (m p == 0) ≡ false = ground arith in
    let cleared = memset cut.memory p 0 (suc (length cs)) in
    record {
      memory = cleared;
      returns =
          rw
            (
              shown,
              strlen-length fuel m p (c ∷ cs) h lt,
              cut.returns,
              words,
              pipe,
              amp,
              plain.no_pipe,
              plain.no_amp,
              split,
              dispatch-plain fuel cut.memory vars p w behind plain,
            )
            (finish_lem (execute_binaries vars (w ∷ behind)) cut.memory (say vars.ps1) p
              (suc (length cs)));
      empty = λ a lo hi. ground (arith, memset_lem (suc (length cs)) cut.memory p 0 a);
      outside = λ a o. ground (arith, memset_lem (suc (length cs)) cut.memory p 0 a, cut.outside a);
    }
