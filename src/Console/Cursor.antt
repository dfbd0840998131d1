-- ===== src/Console/Cursor.antt =====
-- The cursor stays on the screen.
use sbu_operating_system.Prelude.{
  ℕ, ◌+◌, ◌-◌, ◌*◌, ◌≤◌, ◌<◌, ◌≡◌, ◌≢◌, ◌∙◌, refl, arith, Option, none, some, List, [], ◌∷◌, ◌==◌,
  inl, true, false, update, ltb, leb, ◌&&◌, if◌then◌else◌,
}
use sbu_operating_system.CString.{memcpy}
use sbu_operating_system.CString.Block.{memcpy_lem, memset_lem}
use sbu_operating_system.Console.{
  Screen, make_room, plain_char, kprintf, do_scroll, clear_char, print_char,
}

-- The pointer is where line and column say. Column 80 stands for the end of the line, and line 24
-- for the line below the bottom one, from which the next round scrolls.
pub record IsPlaced (s : Screen) : Type 0 where
  pub place : s.cursor ≡ s.y * 160 + 2 * s.x
  pub column : s.x ≤ 80
  pub row : s.y ≤ 24

-- A text with neither `%` nor `\r`.
abbrev pub IsText : List ℕ → Type 0
IsText [] = Unit
IsText (c ∷ cs) = (c ≢ b'%') × (c ≢ b'\r') × IsText cs

-- The state between the two tests and the character of a round.
record HasRoom (s s' : Screen) : Type 0 where
  placed : IsPlaced s'
  column : s'.x < 80
  row : s'.y ≤ 23
  outside : (a : ℕ) → 4000 ≤ a → s'.cells a ≡ s.cells a

do_scroll-outside : (s : Screen) (a : ℕ) → 4000 ≤ a → (do_scroll s).cells a ≡ s.cells a
unfolding do_scroll
do_scroll-outside s a h = ground (
  arith,
  memset_lem 160 (memcpy s.cells 0 160 (23 * 160)) (23 * 160) 0 a,
  memcpy_lem (23 * 160) s.cells 0 160 a (inl (omega arith)),
)

make_room-HasRoom : (s : Screen) → IsPlaced s → HasRoom s (make_room s)
make_room-HasRoom s h = record {
  placed = unfold make_room do_scroll in ground arith;
  column = unfold make_room do_scroll in ground arith;
  row = unfold make_room do_scroll in ground arith;
  outside = λ a o. unfold make_room in ground (arith, do_scroll-outside (record s { x = 0 }) a o);
}

-- One round of the loop for a character that is no conversion.
record Moved (s s' : Screen) : Type 0 where
  placed : IsPlaced s'
  outside : (a : ℕ) → 4000 ≤ a → s'.cells a ≡ s.cells a

plain_char-Moved :
    (s : Screen) (c : ℕ) → IsPlaced s → c ≢ b'\r' → Moved s (plain_char (make_room s) c)
unfolding plain_char
plain_char-Moved s c h ne =
    let r = make_room-HasRoom s h in
    let t = make_room s in
    record {
      placed = ground (arith, r.placed, r.column, r.row);
      outside = λ a o. ground (arith, r.placed, r.column, r.row, r.outside a o);
    }

-- Printing text that has neither `%` nor `\r` never fails, keeps the cursor where line and column
-- say, and writes nothing behind the 25 lines of the screen.
abbrev pub Printed : Screen → Option Screen → Type 0
Printed s none = ⊥
Printed s (some s') = IsPlaced s' × ((a : ℕ) → 4000 ≤ a → s'.cells a ≡ s.cells a)

Printed-after : (s s' : Screen) (r : Option Screen) → Moved s s' → Printed s' r → Printed s r
Printed-after s s' none m p = p
Printed-after s s' (some t) m p = (p.0, λ a o. p.1 a o ∙ m.outside a o)

pub kprintf-Printed :
    (s : Screen) (fmt : List ℕ) → IsPlaced s → IsText fmt → Printed s (kprintf s fmt [])
unfolding kprintf
kprintf-Printed s [] h t = (h, λ a o. refl)
kprintf-Printed s (c ∷ []) h t =
    let m = plain_char-Moved s c h t.1 in
    let no : (c == b'%') ≡ false = ground (arith, t.0) in rw no (m.placed, m.outside)
kprintf-Printed s (c ∷ d ∷ fmt) h t =
    let m = plain_char-Moved s c h t.1 in
    let no : (c == b'%') ≡ false = ground (arith, t.0) in
    let s' = plain_char (make_room s) c in
    rw no
      (Printed-after s s' (kprintf s' (d ∷ fmt) []) m (kprintf-Printed s' (d ∷ fmt) m.placed t.2))

-- At the end of the bottom line two more characters are printed on one place: the wrap moves to
-- line 23, the next round scrolls it up and goes back to the start of line 22.
pub wrap_at_bottom :
    (s : Screen) (c d : ℕ)
    → s.y ≡ 22
    → s.x ≡ 80
    → c ≢ b'\n'
    → c ≢ b'\r'
    → d ≢ b'\n'
    → d ≢ b'\r'
    → let s' = plain_char (make_room (plain_char (make_room s) c)) d in
      (s'.cells (22 * 160) ≡ d) × (s'.x ≡ 1) × (s'.y ≡ 22)
unfolding plain_char make_room do_scroll
wrap_at_bottom s c d y x c1 c2 d1 d2 = (ground arith, ground arith, ground arith)

-- Clearing a character that was just printed puts the cursor back and leaves the place empty; the
-- rest of the screen is as before.
pub clear_char-print_char :
    (s : Screen) (c : ℕ)
    → (s' : Screen) × (clear_char (print_char s c) ≡ some s')
      × (s'.cursor ≡ s.cursor)
      × (s'.x ≡ s.x)
      × (s'.y ≡ s.y)
      × ((a : ℕ) → s'.cells a ≡ (if leb s.cursor a && ltb a (s.cursor + 2) then 0 else s.cells a))
unfolding clear_char print_char
clear_char-print_char s c =
    let inside : ltb (s.cursor + 2) 2 ≡ false = ground arith in
    let not_first : ltb 0 (s.x + 1) ≡ true = ground arith in
    let printed : Screen = print_char s c in
    let wiped : Screen = record printed {
      cells = update (update printed.cells (s.cursor + 2 - 1) 0) (s.cursor + 2 - 2) 0;
      cursor = s.cursor + 2 - 2;
      x = s.x + 1 - 1;
    } in
    (wiped, rw (inside, not_first) refl, omega arith, omega arith, refl, λ a. ground arith)
