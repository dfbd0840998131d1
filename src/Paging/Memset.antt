-- ===== src/Paging/Memset.antt =====
-- What clearing a block of words leaves.
use sbu_operating_system.Prelude.{
  ℕ, zero, suc, ◌+◌, ◌*◌, ◌≤◌, ◌<◌, ◌≡◌, ◌⊎◌, arith, inl, ◌==◌, refl, if◌then◌else◌,
}
use sbu_operating_system.Paging.{zero_words}

pub zero_words_outside :
    (n a : ℕ) (ram : ℕ → ℕ) (x : ℕ) → (x < a) ⊎ (a + 8 * n ≤ x) → zero_words n a ram x ≡ ram x
unfolding zero_words
zero_words_outside zero a ram x h = refl
zero_words_outside (suc n) a ram x h =
    ground (arith, zero_words_outside n (a + 8) (λ j. if j == a then 0 else ram j) x (omega arith))

pub zero_words_inside : (n a : ℕ) (ram : ℕ → ℕ) (i : ℕ) → i < n → zero_words n a ram (a + 8 * i) ≡ 0
unfolding zero_words
zero_words_inside zero a ram i h = elim h [ ]
zero_words_inside (suc n) a ram zero h = ground (
  arith,
  zero_words_outside n (a + 8) (λ j. if j == a then 0 else ram j) (a + 8 * 0) (inl (omega arith)),
)
zero_words_inside (suc n) a ram (suc i) h =
    let place : a + 8 * suc i ≡ a + 8 + 8 * i = omega arith in
    rw place (zero_words_inside n (a + 8) (λ j. if j == a then 0 else ram j) i (omega arith))
