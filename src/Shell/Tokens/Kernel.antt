-- ===== src/Shell/Tokens/Kernel.antt =====
-- The shell's `tokenize_input` and the kernel's `strtok`.
use sbu_operating_system.Prelude.{
  ℕ, zero, suc, ◌+◌, ◌<◌, ◌≡◌, ◌≢◌, refl, arith, subst, false, none, some, List, [], ◌∷◌, length,
  update, ◌==◌, Bool-cases, Option-cases, inl, inr,
}
use sbu_operating_system.CString.{Memory}
use sbu_operating_system.CString.Layout.{Holds, Holds-frame}
use sbu_operating_system.CString.Strtok.{skip_blanks, strtok_loop, strtok}
use sbu_operating_system.Shell.Tokens.{tokenize_input}
use sbu_operating_system.Shell.Tokens.Pieces.{first_word, behind_word}
use sbu_operating_system.Shell.Tokens.Cut.{
  Follows, skip_word-Skipped, length-first_word, behind_length,
}
use sbu_operating_system.Shell.Tokens.Search.{has}

has-behind_word :
    (sep d : ℕ) (cs r : List ℕ) → behind_word sep cs ≡ some r → has d cs ≡ false → has d r ≡ false
has-behind_word sep d [] r e none? = absurd (cc e)
has-behind_word sep d (c ∷ cs) r e none? = elim (Bool-cases (c == sep)) [
  | inl same ↦
      let tail : has d cs ≡ false = ground arith in
      subst (λ o. elim o as (λ x. Type 0) [ none ↦ Unit {0} | some l ↦ has d l ≡ false ])
        (rw same at e) tail
  | inr differ ↦ has-behind_word sep d cs r (rw differ at e) (ground arith)
]

no_blank :
    (fuel : ℕ) (m : Memory) (p : ℕ) (cs : List ℕ)
    → Holds m p cs
    → has b' ' cs ≡ false
    → skip_blanks (suc fuel) m p ≡ some p
unfolding skip_blanks
no_blank fuel m p [] h none? = ground arith
no_blank fuel m p (c ∷ cs) h none? = ground arith

strtok_loop-tokenize_input :
    (fuel : ℕ) (m : Memory) (p sep : ℕ) (cs : List ℕ)
    → sep ≢ 0
    → Holds m p cs
    → has b' ' cs ≡ false
    → length cs < fuel
    → strtok_loop fuel m p sep ≡ tokenize_input fuel m p sep
unfolding strtok_loop tokenize_input
strtok_loop-tokenize_input zero m p sep cs ne h none? lt = elim lt [ ]
strtok_loop-tokenize_input (suc fuel) m p sep [] ne h none? lt =
    rw (h, strtok_loop, tokenize_input) refl
strtok_loop-tokenize_input (suc fuel) m p sep (c ∷ cs) ne h none? lt =
    let s = skip_word-Skipped (suc fuel) m p sep (c ∷ cs) ne h lt in
    let shown : (m p == 0) ≡ false = ground arith in
    let start = no_blank fuel m p (c ∷ cs) h none? in
    let size = length-first_word sep (c ∷ cs) in
    elim (Option-cases (behind_word sep (c ∷ cs))) [
      | inl last ↦
          let ended : m s.end ≡ 0 = subst (Follows m s.end sep) last s.follows in
          rw (shown, start, s.returns, ended, strtok_loop, tokenize_input) refl
      | inr (r, more) ↦
          let followed = subst (Follows m s.end sep) more s.follows in
          let going : (m s.end == 0) ≡ false = ground (arith, followed.0) in
          let total : length (first_word sep (c ∷ cs)) + suc (length r) ≡ suc (length cs) =
            subst (λ o. length (first_word sep (c ∷ cs)) + behind_length o ≡ suc (length cs)) more
              size in
          let m1 : Memory = update m s.end 0 in
          let kept : Holds m1 (s.end + 1) r =
            Holds-frame m m1 (s.end + 1) r (λ a lo hi. ground arith) followed.1 in
          rw
            (
              shown,
              start,
              s.returns,
              going,
              strtok_loop-tokenize_input fuel m1 (s.end + 1) sep r ne kept
                  (has-behind_word sep b' ' (c ∷ cs) r more none?) (omega arith),
              strtok_loop,
              tokenize_input,
            )
            refl
    ]

-- On a string with no space and with fuel above its length, `strtok` of the kernel and
-- `tokenize_input` of the shell do the same.
pub strtok-tokenize_input :
    (fuel : ℕ) (m : Memory) (p sep : ℕ) (cs : List ℕ)
    → sep ≢ 0
    → Holds m p cs
    → has b' ' cs ≡ false
    → length cs < fuel
    → strtok fuel m p sep ≡ tokenize_input fuel m p sep
unfolding strtok
strtok-tokenize_input zero m p sep cs ne h none? lt = elim lt [ ]
strtok-tokenize_input (suc fuel) m p sep cs ne h none? lt =
    rw (no_blank fuel m p cs h none?, strtok)
      (strtok_loop-tokenize_input (suc fuel) m p sep cs ne h none? lt)
