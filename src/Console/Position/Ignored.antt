-- ===== src/Console/Position/Ignored.antt =====
-- Where `kprintfWithPos` prints.
use sbu_operating_system.Prelude.{
  ℕ, suc, ◌+◌, ◌≡◌, ◌≢◌, ◌∙◌, refl, arith, ap, sym, subst, Option, some, List, [], ◌∷◌, length,
  ◌==◌, Bool-cases, inl, inr, false,
}
use sbu_operating_system.Console.{Screen, print_char, print_chars}
use sbu_operating_system.Console.Position.{wrap_line, skip_breaks, with_pos_loop, kprintf_with_pos}

-- A text with neither `%` nor a newline nor a return.
abbrev pub IsPlainText : List ℕ → Type 0
IsPlainText [] = Unit
IsPlainText (c ∷ cs) = (c ≢ b'%') × (c ≢ b'\n') × (c ≢ b'\r') × IsPlainText cs

-- Printing does not look at line and column.
print_chars-place :
    (s : Screen) (x y : ℕ) (cs : List ℕ)
    → let s' = print_chars (record s { x = x; y = y }) cs in
      (s'.cells ≡ (print_chars s cs).cells) × (s'.cursor ≡ (print_chars s cs).cursor)
unfolding print_chars print_char
print_chars-place s x y [] = (refl, refl)
print_chars-place s x y (c ∷ cs) = print_chars-place (print_char s c) (x + 1) y cs

print_chars-wrap :
    (s : Screen) (cs : List ℕ)
    → ((print_chars (wrap_line s) cs).cells ≡ (print_chars s cs).cells)
      × ((print_chars (wrap_line s) cs).cursor ≡ (print_chars s cs).cursor)
print_chars-wrap s cs = elim (Bool-cases (s.x == 80)) [
  | inl at_end ↦ rw at_end (print_chars-place s 0 (s.y + 1) cs)
  | inr inside ↦ rw inside (refl, refl)
]

same_screen :
    (s t : Screen) (x y : ℕ)
    → s.cells ≡ t.cells
    → s.cursor ≡ t.cursor
    → Path Screen (record s { x = x; y = y }) (record t { x = x; y = y })
same_screen s t x y cells cursor = rw (cells, cursor) refl

skip_breaks-plain :
    (s : Screen) (c : ℕ) (cs : List ℕ)
    → c ≢ b'\n'
    → c ≢ b'\r'
    → skip_breaks s (c ∷ cs) ≡ (s, c ∷ cs)
unfolding skip_breaks
skip_breaks-plain s c cs line return =
    let newline : (c == b'\n') ≡ false = ground arith in
    let back : (c == b'\r') ≡ false = ground arith in rw (newline, back) refl

-- The loop on `cs`, from `s` to a screen with the cells and the pointer of `t`.
abbrev Reaches : Option Screen → Screen → Type 0
Reaches r t = (s' : Screen) × (r ≡ some s') × (s'.cells ≡ t.cells) × (s'.cursor ≡ t.cursor)

with_pos_loop-plain :
    (s : Screen) (cs : List ℕ)
    → IsPlainText cs
    → Reaches (with_pos_loop (suc (length cs)) s cs []) (print_chars s cs)
unfolding with_pos_loop
with_pos_loop-plain s [] h = (s, refl, unfold print_chars in refl, unfold print_chars in refl)
with_pos_loop-plain s (c ∷ cs) h =
    let none? = skip_breaks-plain (wrap_line s) c cs h.1 h.2 in
    let percent : (c == b'%') ≡ false = ground (arith, h.0) in
    let (s', run, cells, cursor) = with_pos_loop-plain (print_char (wrap_line s) c) cs h.3 in
    let (same_cells, same_cursor) = print_chars-wrap s (c ∷ cs) in
    let here : wrap_line s ≡ (skip_breaks (wrap_line s) (c ∷ cs)).0 =
      ap (λ (r : Screen × List ℕ). r.0) (sym none?) in
    let step =
      subst (λ s2. with_pos_loop (suc (length cs)) (print_char s2 c) cs [] ≡ some s') here run in
    (
      s',
      rw (none?, percent, with_pos_loop) step,
      cells ∙ unfold print_chars in same_cells,
      cursor ∙ unfold print_chars in same_cursor,
    )

-- A plain text is printed where the pointer stands, whatever the position is that `kprintfWithPos`
-- gets: afterwards the cells and the pointer are those of printing the text without a position, while
-- line and column are as before.
pub kprintf_with_pos-print_chars :
    (s : Screen) (x_cord y_cord : ℕ) (cs : List ℕ)
    → IsPlainText cs
    → kprintf_with_pos s x_cord y_cord cs [] ≡ some (record (print_chars s cs) { x = s.x; y = s.y })
unfolding kprintf_with_pos
kprintf_with_pos-print_chars s x_cord y_cord cs h =
    let start : Screen = record s { x = x_cord; y = y_cord } in
    let (s', run, cells, cursor) = with_pos_loop-plain start cs h in
    let (same_cells, same_cursor) = print_chars-place s x_cord y_cord cs in
    let rounds : length cs + 1 ≡ suc (length cs) = omega arith in
    rw (rounds, run)
      (ap some
        (same_screen s' (print_chars s cs) s.x s.y (cells ∙ same_cells) (cursor ∙ same_cursor)))
