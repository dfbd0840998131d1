-- ===== src/Shell/Tokens/Cut.antt =====
-- What `tokenize_input` leaves in memory.
use sbu_operating_system.Prelude.{
  ℕ, zero, suc, ◌+◌, ◌≤◌, ◌<◌, ◌≡◌, ◌≢◌, ◌∙◌, inl, inr, refl, arith, ap, sym, subst, Option, none,
  some, List, [], ◌∷◌, length, update, ◌==◌, false, Bool-cases, Option-cases,
}
use sbu_operating_system.CString.{Memory}
use sbu_operating_system.CString.Layout.{Holds, Holds-frame}
use sbu_operating_system.CString.Copy.{SameOutside}
use sbu_operating_system.CString.Strtok.{skip_word}
use sbu_operating_system.Shell.Tokens.{tokenize_input}
use sbu_operating_system.Shell.Tokens.Pieces.{
  pieces, pieces_of, places, first_word, behind_word, pieces-first_word,
}

-- What stands at the end of the first word: a separator and the rest of the string, or its end.
abbrev pub Follows : Memory → ℕ → ℕ → Option (List ℕ) → Type 0
Follows m p sep none = m p ≡ 0
Follows m p sep (some cs) = (m p ≡ sep) × Holds m (p + 1) cs

-- The first word without its end.
abbrev pub Bytes : Memory → ℕ → List ℕ → Type 0
Bytes m p [] = Unit
Bytes m p (c ∷ cs) = (m p ≡ c) × (c ≢ 0) × Bytes m (p + 1) cs

pub record Skipped (m : Memory) (p sep : ℕ) (cs : List ℕ) (fuel : ℕ) : Type 0 where
  pub end : ℕ
  pub at : end ≡ p + length (first_word sep cs)
  pub returns : skip_word fuel m p sep ≡ some end
  pub word : Bytes m p (first_word sep cs)
  pub follows : Follows m end sep (behind_word sep cs)

pub skip_word-Skipped :
    (fuel : ℕ) (m : Memory) (p sep : ℕ) (cs : List ℕ)
    → sep ≢ 0
    → Holds m p cs
    → length cs < fuel
    → Skipped m p sep cs fuel
unfolding skip_word
skip_word-Skipped zero m p sep cs ne h lt = elim lt [ ]
skip_word-Skipped (suc fuel) m p sep [] ne h lt = record {
  end = p;
  at = omega arith;
  returns = ground arith;
  word = tt;
  follows = h;
}
skip_word-Skipped (suc fuel) m p sep (c ∷ cs) ne h lt = elim (Bool-cases (c == sep)) [
  | inl same ↦ record {
    end = p;
    at = rw same (omega arith);
    returns = ground arith;
    word = rw same tt;
    follows = rw same (ground arith, h.2);
  }
  | inr differ ↦
      let s = skip_word-Skipped fuel m (p + 1) sep cs ne h.2 (omega arith) in
      record {
        end = s.end;
        at = rw differ (omega (arith, s.at));
        returns = ground (arith, s.returns);
        word = rw differ (h.0, h.1, s.word);
        follows = rw differ s.follows;
      }
]

-- What stands behind the word, its separator included.
abbrev pub behind_length : Option (List ℕ) → ℕ
behind_length none = 0
behind_length (some cs) = suc (length cs)

pub length-first_word :
    (sep : ℕ) (cs : List ℕ)
    → length (first_word sep cs) + behind_length (behind_word sep cs) ≡ length cs
length-first_word sep [] = refl
length-first_word sep (c ∷ cs) = ground (arith, length-first_word sep cs)

pub Holds-Bytes :
    (m m' : Memory) (p : ℕ) (w : List ℕ)
    → Bytes m p w
    → ((a : ℕ) → p ≤ a → a < p + length w → m' a ≡ m a)
    → m' (p + length w) ≡ 0
    → Holds m' p w
Holds-Bytes m m' p [] b same end = let here : p + 0 ≡ p = omega arith in ground (arith, end)
Holds-Bytes m m' p (c ∷ w) b same end = (
  same p (omega arith) (omega arith) ∙ b.0,
  b.1,
  Holds-Bytes m m' (p + 1) w b.2 (λ a lo hi. same a (omega arith) (omega arith))
      (subst (λ a. m' a ≡ 0) (omega arith) end),
)

-- The tokens point to the pieces, one by one.
abbrev pub AllHold : Memory → List ℕ → List (List ℕ) → Type 0
AllHold m [] [] = Unit
AllHold m [] (w ∷ ws) = ⊥
AllHold m (t ∷ ts) [] = ⊥
AllHold m (t ∷ ts) (w ∷ ws) = Holds m t w × AllHold m ts ws

-- The first token of a line that is not empty is the line itself.
abbrev pub StartsAt : ℕ → List ℕ → List ℕ → Type 0
StartsAt p tokens [] = Unit
StartsAt p tokens (c ∷ cs) = (rest : List ℕ) × (tokens ≡ p ∷ rest)

-- The outcome of cutting the string `cs` at `p`.
pub record IsCut (m : Memory) (p sep : ℕ) (cs : List ℕ) (result : Option (Memory × List ℕ))
    : Type 0 where
  pub memory : Memory
  pub tokens : List ℕ
  pub returns : result ≡ some (memory, tokens)
  pub held : AllHold memory tokens (pieces sep cs)
  pub placed : tokens ≡ places p (pieces sep cs)
  pub starts : StartsAt p tokens cs
  pub outside : SameOutside m memory p (length cs)

-- With fuel above the length of the line, `tokenize_input` ends. The tokens are the pieces of the
-- line between separators, each in the place where it stood, and no byte outside the line changes.
pub tokenize_input-IsCut :
    (fuel : ℕ) (m : Memory) (p sep : ℕ) (cs : List ℕ)
    → sep ≢ 0
    → Holds m p cs
    → length cs < fuel
    → IsCut m p sep cs (tokenize_input fuel m p sep)
unfolding tokenize_input
tokenize_input-IsCut zero m p sep cs ne h lt = elim lt [ ]
tokenize_input-IsCut (suc fuel) m p sep [] ne h lt = record {
  memory = m;
  tokens = [];
  returns = rw (h, tokenize_input) refl;
  held = tt;
  placed = refl;
  starts = tt;
  outside = λ a o. refl;
}
tokenize_input-IsCut (suc fuel) m p sep (c ∷ cs) ne h lt =
    let s = skip_word-Skipped (suc fuel) m p sep (c ∷ cs) ne h lt in
    let word = first_word sep (c ∷ cs) in
    let size = length-first_word sep (c ∷ cs) in
    let shown : (m p == 0) ≡ false = ground arith in
    elim (Option-cases (behind_word sep (c ∷ cs))) [
      | inl last ↦
          let cut_up = pieces-first_word sep c cs ∙ ap (λ o. word ∷ pieces_of sep o) last in
          let ended : m s.end ≡ 0 = subst (Follows m s.end sep) last s.follows in
          record {
            memory = m;
            tokens = p ∷ [];
            returns = rw (shown, s.returns, ended, tokenize_input) refl;
            held = subst (AllHold m (p ∷ [])) (sym cut_up) (
              Holds-Bytes m m p word s.word (λ a lo hi. refl) (subst (λ a. m a ≡ 0) s.at ended),
              tt,
            );
            placed = ap (places p) (sym cut_up);
            starts = ([], refl);
            outside = λ a o. refl;
          }
      | inr (r, more) ↦
          let cut_up = pieces-first_word sep c cs ∙ ap (λ o. word ∷ pieces_of sep o) more in
          let followed = subst (Follows m s.end sep) more s.follows in
          let going : (m s.end == 0) ≡ false = ground (arith, followed.0) in
          let total : length word + suc (length r) ≡ suc (length cs) =
            subst (λ o. length word + behind_length o ≡ suc (length cs)) more size in
          let m1 : Memory = update m s.end 0 in
          let kept : Holds m1 (s.end + 1) r =
            Holds-frame m m1 (s.end + 1) r (λ a lo hi. ground arith) followed.1 in
          let rest = tokenize_input-IsCut fuel m1 (s.end + 1) sep r ne kept (omega arith) in
          record {
            memory = rest.memory;
            tokens = p ∷ rest.tokens;
            returns = rw (shown, s.returns, going, rest.returns, tokenize_input) refl;
            held = subst (AllHold rest.memory (p ∷ rest.tokens)) (sym cut_up) (
              Holds-Bytes m rest.memory p word s.word
                  (λ a lo hi. ground (arith, rest.outside a, s.at))
                  (ground (arith, rest.outside s.end, s.at)),
              rest.held,
            );
            placed =
                ap (λ ts. p ∷ ts)
                  (rest.placed ∙ ap (λ q. places q (pieces sep r)) (omega (arith, s.at)))
                ∙ ap (places p) (sym cut_up);
            starts = (rest.tokens, refl);
            outside = λ a o. ground (arith, rest.outside a, s.at);
          }
    ]
