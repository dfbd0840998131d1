-- ===== src/Shell/Scripts/Lines.antt =====
-- A script against the lines of its text.
use sbu_operating_system.Prelude.{
  ℕ, suc, ◌+◌, ◌≤◌, ◌<◌, ◌≡◌, ◌∙◌, subst, refl, arith, inl, inr, Option, none, some, List, [], ◌∷◌,
  ◌++◌, length, ltb, ◌&&◌, ap, if◌then◌else◌, ◌>>=◌, Bool-cases,
}
use sbu_operating_system.CString.{Memory}
use sbu_operating_system.CString.Layout.{Holds, Holds-frame}
use sbu_operating_system.CString.Read.{read_string-Holds, read_strings}
use sbu_operating_system.Shell.Tokens.{tokenize_input}
use sbu_operating_system.Shell.Tokens.Pieces.{pieces, places}
use sbu_operating_system.Shell.Tokens.Cut.{AllHold, tokenize_input-IsCut}
use sbu_operating_system.Shell.Tokens.Words.{
  AllShort, AllShort-le, pieces-AllShort, read_strings-AllHold,
}
use sbu_operating_system.Shell.Environment.{EnvVars, matches}
use sbu_operating_system.Shell.Commands.{Action, say}
use sbu_operating_system.Shell.Scripts.{
  header, find_header, run_words, run_lines, execute_scripts, parse_scripts,
}

-- The lines behind the first one that is the header; `none` if no line is.
abbrev pub behind_header : List (List ℕ) → Option (List (List ℕ))
behind_header [] = none
behind_header (l ∷ ls) = let rest = behind_header ls in if matches header l then some ls else rest

abbrev in_front : List Action → EnvVars × List Action → Option (EnvVars × List Action)
in_front actions r = some (r.0, actions ++ r.1)

-- The lines run one after the other, each cut up at spaces into at most 99 words.
abbrev pub run_texts : EnvVars → List (List ℕ) → Option (EnvVars × List Action)
run_texts vars [] = some (vars, [])
run_texts vars (l ∷ ls) = do
  r ← if ltb (length (pieces b' ' l)) 100 then run_words vars (pieces b' ' l) else none
  rest ← run_texts r.0 ls
  some (rest.0, r.1 ++ rest.1)

-- What the lines of a text ask for, as a script: at most 999 characters, in at most 99 lines.
abbrev pub run_script_text : EnvVars → List ℕ → Option (EnvVars × List Action)
run_script_text vars text =
    let lines = pieces b'\n' text in
    let run = behind_header lines >>= λ rest. run_texts vars rest in
    do
      r ← if ltb (length text) 1000 && ltb (length lines) 100 then run else none
      some (r.0, say text ∷ r.1)

AllHold-frame :
    (m m' : Memory) (p : ℕ) (ws : List (List ℕ))
    → ((a : ℕ) → p ≤ a → m' a ≡ m a)
    → AllHold m (places p ws) ws
    → AllHold m' (places p ws) ws
AllHold-frame m m' p [] same h = tt
AllHold-frame m m' p (w ∷ ws) same (h, hs) = (
  Holds-frame m m' p w (λ a lo hi. same a lo) h,
  AllHold-frame m m' (p + suc (length w)) ws (λ a lo. same a (omega arith)) hs,
)

run_line_words :
    (fuel : ℕ) (m : Memory) (p : ℕ) (l : List ℕ) {A : Type 0}
    (f : Memory → List (List ℕ) → Option A)
    → Holds m p l
    → length l < fuel
    → (m' : Memory) × ((a : ℕ) → p + suc (length l) ≤ a → m' a ≡ m a)
      × ((tokenize_input fuel m p b' ' >>= λ cut.
            read_strings fuel cut.0 cut.1 >>= λ words. f cut.0 words)
          ≡ f m' (pieces b' ' l))
run_line_words fuel m p l f h lt =
    let cut = tokenize_input-IsCut fuel m p b' ' l (omega arith) h lt in
    let short =
      AllShort-le (suc (length l)) fuel (pieces b' ' l) (omega arith) (pieces-AllShort b' ' l) in
    (
      cut.memory,
      λ a lo. cut.outside a (inr (omega arith)),
      rw
          (
            cut.returns,
            read_strings-AllHold fuel cut.memory cut.tokens (pieces b' ' l) cut.held short,
          )
          refl,
    )

after_same :
    (ls : List (List ℕ)) (o : Option (EnvVars × List Action))
    (f : EnvVars → Option (EnvVars × List Action))
    → ((vars : EnvVars) → f vars ≡ run_texts vars ls)
    → (o >>= λ r. f r.0 >>= in_front r.1) ≡ (o >>= λ r. run_texts r.0 ls >>= in_front r.1)
after_same ls none f h = refl
after_same ls (some r) f h = rw (h r.0) refl

run_lines-run_texts :
    (fuel : ℕ) (m : Memory) (vars : EnvVars) (p : ℕ) (ls : List (List ℕ))
    → AllHold m (places p ls) ls
    → AllShort fuel ls
    → run_lines fuel m vars (places p ls) ≡ run_texts vars ls
unfolding run_lines
run_lines-run_texts fuel m vars p [] h short = refl
run_lines-run_texts fuel m vars p (l ∷ ls) (h, hs) (short, shorts) =
    let q = p + suc (length l) in
    let (m', same, run) =
      run_line_words fuel m p l
        (λ m1 words. (do
          r ← if ltb (length words) 100 then run_words vars words else none
          rest ← run_lines fuel m1 r.0 (places q ls)
          some (rest.0, r.1 ++ rest.1)))
        h short in
    let held = AllHold-frame m m' q ls same hs in
    run
    ∙ after_same ls
        (if ltb (length (pieces b' ' l)) 100 then run_words vars (pieces b' ' l) else none)
        (λ vars'. run_lines fuel m' vars' (places q ls))
        (λ vars'. run_lines-run_texts fuel m' vars' q ls held shorts)

execute_scripts-run_texts :
    (fuel : ℕ) (m : Memory) (vars : EnvVars) (p : ℕ) (ls : List (List ℕ))
    → AllHold m (places p ls) ls
    → AllShort fuel ls
    → execute_scripts fuel m vars (places p ls) ≡ (behind_header ls >>= λ rest. run_texts vars rest)
unfolding execute_scripts find_header
execute_scripts-run_texts fuel m vars p [] h short = refl
execute_scripts-run_texts fuel m vars p (l ∷ ls) (h, hs) (short, shorts) =
    let read = read_string-Holds fuel m p l h short in
    elim (Bool-cases (matches header l)) [
      | inl here ↦
          rw (read, here, read, here, execute_scripts, find_header)
            (run_lines-run_texts fuel m vars (p + suc (length l)) ls hs shorts)
      | inr later ↦
          rw (read, later, execute_scripts, find_header)
            (execute_scripts-run_texts fuel m vars (p + suc (length l)) ls hs shorts)
    ]

length-places : (p : ℕ) (ls : List (List ℕ)) → length (places p ls) ≡ length ls
length-places p [] = refl
length-places p (l ∷ ls) = ap suc (length-places (p + suc (length l)) ls)

-- With fuel above the length of the text in the buffer, a script prints its text and then runs the
-- lines behind the first one that is the header, in order, each cut up at spaces. The result is `none`,
-- for undefined behaviour, exactly if the text has more than 999 characters or 99 lines, no line is
-- the header, or a line has more than 99 words or asks for a command that is `none` itself.
pub parse_scripts-run_script_text :
    (fuel : ℕ) (m : Memory) (vars : EnvVars) (buffer : ℕ) (text : List ℕ)
    → Holds m buffer text
    → length text < fuel
    → parse_scripts fuel m vars buffer ≡ run_script_text vars text
unfolding parse_scripts
parse_scripts-run_script_text fuel m vars buffer text h lt =
    let cut = tokenize_input-IsCut fuel m buffer b'\n' text (omega arith) h lt in
    let ls = pieces b'\n' text in
    let short =
      AllShort-le (suc (length text)) fuel ls (omega arith) (pieces-AllShort b'\n' text) in
    let held = subst (λ ts. AllHold cut.memory ts ls) cut.placed cut.held in
    let run = execute_scripts-run_texts fuel cut.memory vars buffer ls held short in
    rw
      (
        read_string-Holds fuel m buffer text h lt,
        cut.returns,
        cut.placed,
        length-places buffer ls,
        run,
      )
      refl
