-- ===== src/CString/Copy.antt =====
-- `strcpy` and `strcat`: what they write, and that they write nowhere else.
use sbu_operating_system.Prelude.{
  ℕ, zero, suc, ◌+◌, ◌≤◌, ◌<◌, ◌≡◌, ◌∙◌, ◌⊎◌, inl, refl, arith, List, [], ◌∷◌, ◌++◌, length, Option,
  some, update, subst,
}
use sbu_operating_system.CString.{Memory, strcpy, find_end, append_loop, strcat}
use sbu_operating_system.CString.Layout.{Holds, Holds-frame}

-- `n + 1` bytes from `p` and `k + 1` bytes from `q` have none in common.
abbrev pub Apart : ℕ → ℕ → ℕ → ℕ → Type 0
Apart p n q k = (p + n < q) ⊎ (q + k < p)

-- `m'` is `m` but for the bytes from `p` up to and including `p + n`.
abbrev pub SameOutside : Memory → Memory → ℕ → ℕ → Type 0
SameOutside m m' p n = (a : ℕ) → (a < p) ⊎ (p + n < a) → m' a ≡ m a

-- The outcome of a call that leaves the string `s` at `dest` and writes at most `n + 1` bytes.
pub record Wrote (m : Memory) (dest : ℕ) (s : List ℕ) (from n : ℕ) (result : Option Memory)
    : Type 0 where
  pub memory : Memory
  pub returns : result ≡ some memory
  pub holds : Holds memory dest s
  pub outside : SameOutside m memory from n

-- With fuel above the length and no overlap, `strcpy` ends with the string copied, and changes
-- only the bytes of the copy.
pub strcpy-Wrote :
    (fuel : ℕ) (m : Memory) (dest src : ℕ) (s : List ℕ)
    → Holds m src s
    → Apart dest (length s) src (length s)
    → length s < fuel
    → Wrote m dest s dest (length s) (strcpy fuel m dest src)
unfolding strcpy
strcpy-Wrote zero m dest src s h apart lt = elim lt [ ]
strcpy-Wrote (suc fuel) m dest src [] h apart lt = record {
  memory = update m dest 0;
  returns = ground arith;
  holds = ground arith;
  outside = λ a o. ground arith;
}
strcpy-Wrote (suc fuel) m dest src (c ∷ s) h apart lt =
    let m1 : Memory = update m dest (m src) in
    let kept : Holds m1 (src + 1) s = Holds-frame m m1 (src + 1) s (λ a lo hi. ground arith) h.2 in
    let w = strcpy-Wrote fuel m1 (dest + 1) (src + 1) s kept (omega arith) (omega arith) in
    record {
      memory = w.memory;
      returns = ground (arith, w.returns);
      holds = (ground (arith, w.outside dest), h.1, w.holds);
      outside = λ a o. ground (arith, w.outside a);
    }

find_end-length :
    (fuel : ℕ) (m : Memory) (p end : ℕ) (s : List ℕ)
    → Holds m p s
    → length s < fuel
    → p + length s ≡ end
    → find_end fuel m p ≡ some end
unfolding find_end
find_end-length zero m p end s h lt e = elim lt [ ]
find_end-length (suc fuel) m p end [] h lt e = ground arith
find_end-length (suc fuel) m p end (c ∷ s) h lt e =
    ground (arith, find_end-length fuel m (p + 1) end s h.2 (omega arith) (omega arith))

-- The copying loop, for a string that is not empty.
append_loop-Wrote :
    (fuel : ℕ) (m : Memory) (new original c : ℕ) (t : List ℕ)
    → Holds m original (c ∷ t)
    → Apart new (suc (length t)) original (suc (length t))
    → length t < fuel
    → Wrote m new (c ∷ t) new (suc (length t)) (append_loop fuel m new original)
unfolding append_loop
append_loop-Wrote zero m new original c t h apart lt = elim lt [ ]
append_loop-Wrote (suc fuel) m new original c [] h apart lt = record {
  memory = update (update m new (m original)) (new + 1) 0;
  returns = ground arith;
  holds = (ground arith, h.1, ground arith);
  outside = λ a o. ground arith;
}
append_loop-Wrote (suc fuel) m new original c (d ∷ t) h apart lt =
    let m1 : Memory = update m new (m original) in
    let kept : Holds m1 (original + 1) (d ∷ t) =
      Holds-frame m m1 (original + 1) (d ∷ t) (λ a lo hi. ground arith) h.2 in
    let w =
      append_loop-Wrote fuel m1 (new + 1) (original + 1) d t kept (omega arith) (omega arith) in
    record {
      memory = w.memory;
      returns = ground (arith, w.returns, kept.0, kept.1);
      holds = (ground (arith, w.outside new), h.1, w.holds);
      outside = λ a o. ground (arith, w.outside a);
    }

-- A string and one that follows it are one string.
Holds-append :
    (m m' : Memory) (p end : ℕ) (s t : List ℕ)
    → Holds m p s
    → ((a : ℕ) → p ≤ a → a < p + length s → m' a ≡ m a)
    → p + length s ≡ end
    → Holds m' end t
    → Holds m' p (s ++ t)
Holds-append m m' p end [] t h same e k =
    let here : end ≡ p = omega arith in subst (λ x. Holds m' x t) here k
Holds-append m m' p end (c ∷ s) t h same e k = (
  same p (omega arith) (omega arith) ∙ h.0,
  h.1,
  Holds-append m m' (p + 1) end s t h.2 (λ a lo hi. same a (omega arith) (omega arith))
      (omega arith) k,
)

-- With enough fuel and no overlap, `strcat` of a string that is not empty ends with the two strings
-- joined, and writes only from the end of the first one on.
pub strcat-Wrote :
    (fuel : ℕ) (m : Memory) (new original c : ℕ) (s t : List ℕ)
    → Holds m new s
    → Holds m original (c ∷ t)
    → Apart new (length s + suc (length t)) original (suc (length t))
    → length s + length t < fuel
    → Wrote m new (s ++ (c ∷ t)) (new + length s) (suc (length t)) (strcat fuel m new original)
unfolding strcat
strcat-Wrote fuel m new original c s t h k apart lt =
    let end = new + length s in
    let w = append_loop-Wrote fuel m end original c t k (omega arith) (omega arith) in
    rw (find_end-length fuel m new end s h (omega arith) refl, strcat)
      (record {
        memory = w.memory;
        returns = w.returns;
        holds =
            Holds-append m w.memory new end s (c ∷ t) h (λ a lo hi. w.outside a (inl hi)) refl
              w.holds;
        outside = w.outside;
      })
