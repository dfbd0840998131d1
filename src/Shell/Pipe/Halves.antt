-- ===== src/Shell/Pipe/Halves.antt =====
-- `parse_pipe` on two words.
use sbu_operating_system.Prelude.{
  ℕ, zero, suc, ◌+◌, ◌<◌, ◌≡◌, ◌≢◌, ◌∙◌, refl, arith, ap, sym, subst, true, false, Option, some,
  List, [], ◌∷◌, ◌++◌, length, update, ◌==◌,
}
use sbu_operating_system.CString.{Memory}
use sbu_operating_system.CString.Layout.{Holds, Holds-frame}
use sbu_operating_system.CString.Strtok.{skip_word}
use sbu_operating_system.Shell.Tokens.Cut.{Bytes, Holds-Bytes}
use sbu_operating_system.Shell.Tokens.Search.{has}
use sbu_operating_system.Shell.Pipe.{
  skip_spaces, word_end, drop_space, first_half, second_half, parse_pipe,
}

-- A string around one of its characters.
Holds-around :
    (m : Memory) (p x : ℕ) (s t : List ℕ)
    → Holds m p (s ++ (x ∷ t))
    → Bytes m p s × (m (p + length s) ≡ x) × Holds m (p + length s + 1) t
Holds-around m p x [] t h =
    let here : p + 0 ≡ p = omega arith in
    (tt, ap m here ∙ h.0, subst (λ a. Holds m (a + 1) t) (sym here) h.2)
Holds-around m p x (c ∷ s) t h =
    let r = Holds-around m (p + 1) x s t h.2 in
    let here : p + 1 + length s ≡ p + suc (length s) = omega arith in
    ((h.0, h.1, r.0), subst (λ a. m a ≡ x) here r.1, subst (λ a. Holds m (a + 1) t) here r.2)

word_end-length :
    (fuel : ℕ) (m : Memory) (p : ℕ) (s : List ℕ)
    → Bytes m p s
    → has b' ' s ≡ false
    → has b'|' s ≡ false
    → m (p + length s) ≡ b'|'
    → length s < fuel
    → word_end fuel m p ≡ some (p + length s)
unfolding word_end
word_end-length zero m p s h no_space no_pipe end lt = elim lt [ ]
word_end-length (suc fuel) m p [] h no_space no_pipe end lt =
    let here : p + 0 ≡ p = omega arith in ground (arith, end, ap m here)
word_end-length (suc fuel) m p (c ∷ s) h no_space no_pipe end lt =
    let next : p + 1 + length s ≡ p + suc (length s) = omega arith in
    let rest =
      word_end-length fuel m (p + 1) s h.2 (ground arith) (ground arith) (ap m next ∙ end)
        (omega arith) in
    ground (arith, rest)

skip_word-length :
    (fuel : ℕ) (m : Memory) (p : ℕ) (s : List ℕ)
    → Holds m p s
    → has b' ' s ≡ false
    → length s < fuel
    → (skip_word fuel m p b' ' ≡ some (p + length s)) × (m (p + length s) ≡ 0)
unfolding skip_word
skip_word-length zero m p s h no_space lt = elim lt [ ]
skip_word-length (suc fuel) m p [] h no_space lt =
    let here : p + 0 ≡ p = omega arith in (ground arith, ap m here ∙ h)
skip_word-length (suc fuel) m p (c ∷ s) h no_space lt =
    let next : p + 1 + length s ≡ p + suc (length s) = omega arith in
    let rest = skip_word-length fuel m (p + 1) s h.2 (ground arith) (omega arith) in
    (ground (arith, rest.0), ap m (sym next) ∙ rest.1)

-- The outcome for the words `s` and `t`.
pub record IsParted (m : Memory) (p : ℕ) (s t : List ℕ) (result : Option (Memory × List ℕ × List ℕ))
    : Type 0 where
  pub memory : Memory
  pub returns : result ≡ some (memory, p ∷ [], (p + length s + 1) ∷ [])
  pub front : Holds memory p s
  pub behind : Holds memory (p + length s + 1) t
  pub outside : (a : ℕ) → a ≢ p + length s → memory a ≡ m a

-- A word is not empty and has neither a space nor a pipe.
abbrev pub IsWord : List ℕ → Type 0
IsWord s = (s ≢ []) × (has b' ' s ≡ false) × (has b'|' s ≡ false)

first_half-word :
    (fuel : ℕ) (m : Memory) (p c : ℕ) (s : List ℕ)
    → Bytes m p (c ∷ s)
    → has b' ' (c ∷ s) ≡ false
    → has b'|' (c ∷ s) ≡ false
    → m (p + suc (length s)) ≡ b'|'
    → suc (length s) < fuel
    → let end = p + suc (length s) in
      first_half (suc fuel) m p ≡ some (update m end 0, end + 1, p ∷ [])
unfolding first_half
first_half-word zero m p c s h no_space no_pipe at lt = elim lt [ ]
first_half-word (suc fuel) m p c s h no_space no_pipe at lt =
    let bar : (m p == b'|') ≡ false = ground arith in
    let plain : (m p == b' ') ≡ false = ground arith in
    let dropped : drop_space m (p + suc (length s)) ≡ (m, p + suc (length s)) =
      unfold drop_space in
      (let end_space : (m (p + suc (length s)) == b' ') ≡ false = ground arith in
        rw end_space refl) in
    let end_bar : (m (p + suc (length s)) == b'|') ≡ true = ground arith in
    let here : skip_spaces (suc fuel) m p ≡ some (m, p) = unfold skip_spaces in rw plain refl in
    rw
      (
        bar,
        here,
        word_end-length (suc fuel) m p (c ∷ s) h no_space no_pipe at lt,
        dropped,
        end_bar,
        first_half,
      )
      (ap (λ (q : Memory × ℕ). some (update q.0 q.1 0, q.1 + 1, p ∷ [])) dropped)

second_half-word :
    (fuel : ℕ) (m : Memory) (p c : ℕ) (s : List ℕ)
    → Holds m p (c ∷ s)
    → has b' ' (c ∷ s) ≡ false
    → suc (length s) < fuel
    → second_half (suc fuel) m p ≡ some (m, p ∷ [])
unfolding second_half
second_half-word zero m p c s h no_space lt = elim lt [ ]
second_half-word (suc fuel) m p c s h no_space lt =
    let shown : (m p == 0) ≡ false = ground arith in
    let plain : (m p == b' ') ≡ false = ground arith in
    let here : skip_spaces (suc fuel) m p ≡ some (m, p) = unfold skip_spaces in rw plain refl in
    let (stops, end) = skip_word-length (suc fuel) m p (c ∷ s) h no_space lt in
    rw (shown, here, stops, end, second_half) refl

-- With enough fuel, a line of two words with a pipe and nothing else between them is cut in place:
-- each half has the one word, ended by a zero byte, and only the pipe is overwritten.
pub parse_pipe-IsParted :
    (fuel : ℕ) (m : Memory) (p : ℕ) (s t : List ℕ)
    → Holds m p (s ++ (b'|' ∷ t))
    → IsWord s
    → IsWord t
    → length s + length t + 1 < fuel
    → IsParted m p s t (parse_pipe fuel m p)
unfolding parse_pipe
parse_pipe-IsParted zero m p s t h ws wt lt = elim lt [ ]
parse_pipe-IsParted (suc fuel) m p [] t h ws wt lt = absurd (ws.0 refl)
parse_pipe-IsParted (suc fuel) m p (c ∷ s) [] h ws wt lt = absurd (wt.0 refl)
parse_pipe-IsParted (suc fuel) m p (c ∷ s) (d ∷ t) h ws wt lt =
    let end = p + suc (length s) in
    let (word, at, rest) = Holds-around m p b'|' (c ∷ s) (d ∷ t) h in
    let m1 : Memory = update m end 0 in
    let kept : Holds m1 (end + 1) (d ∷ t) =
      Holds-frame m m1 (end + 1) (d ∷ t) (λ a lo hi. ground arith) rest in
    record {
      memory = m1;
      returns =
          rw
            (
              first_half-word fuel m p c s word ws.1 ws.2 at (omega arith),
              second_half-word fuel m1 (end + 1) d t kept wt.1 (omega arith),
              parse_pipe,
            )
            refl;
      front = Holds-Bytes m m1 p (c ∷ s) word (λ a lo hi. ground arith) (ground arith);
      behind = kept;
      outside = λ a ne. ground arith;
    }
