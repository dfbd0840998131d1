-- ===== src/Printf/Again.antt =====
-- Printing several times.
use sbu_operating_system.Prelude.{
  ℕ, suc, ◌+◌, ◌≤◌, ◌<◌, ◌≡◌, ◌≢◌, ◌∙◌, refl, arith, sym, subst, none, some, List, [], ◌∷◌, ◌++◌,
  length, length-append, ltb, ◌==◌, update, Bool-cases, inl, inr, true, false,
}
use mathlib.Core.List.{append_assoc, append-nil}
use sbu_operating_system.CString.{Memory}
use sbu_operating_system.CString.Layout.{Holds}
use sbu_operating_system.Shell.Tokens.Cut.{Bytes, Holds-Bytes}
use sbu_operating_system.Printf.{Buffer, put_char, format_loop, printf}

-- The bytes `s` were printed since the buffer was empty.
pub record Printed (s : List ℕ) (b : Buffer) : Type 0 where
  pub text : Bytes b.read_buffer 0 s
  pub offset : b.buff_offset ≡ length s

abbrev pub IsPlain : List ℕ → Type 0
IsPlain [] = Unit
IsPlain (c ∷ cs) = (c ≢ b'%') × (c ≢ 0) × IsPlain cs

Bytes-snoc :
    (m : Memory) (p c : ℕ) (s : List ℕ)
    → Bytes m p s
    → c ≢ 0
    → Bytes (update m (p + length s) c) p (s ++ (c ∷ []))
Bytes-snoc m p c [] h ne = (ground arith, ne, tt)
Bytes-snoc m p c (d ∷ s) h ne =
    let next : p + 1 + length s ≡ p + suc (length s) = omega arith in
    (
      ground (arith, h.0),
      h.1,
      subst (λ a. Bytes (update m a c) (p + 1) (s ++ (c ∷ []))) next
          (Bytes-snoc m (p + 1) c s h.2 ne),
    )

Bytes-frame :
    (m m' : Memory) (p : ℕ) (s : List ℕ)
    → Bytes m p s
    → ((a : ℕ) → p ≤ a → a < p + length s → m' a ≡ m a)
    → Bytes m' p s
Bytes-frame m m' p [] h same = tt
Bytes-frame m m' p (c ∷ s) h same = (
  same p (omega arith) (omega arith) ∙ h.0,
  h.1,
  Bytes-frame m m' (p + 1) s h.2 (λ a lo hi. same a (omega arith) (omega arith)),
)

put_char-Printed :
    (s : List ℕ) (b : Buffer) (c : ℕ)
    → Printed s b
    → c ≢ 0
    → length s < 100
    → (b' : Buffer) × (put_char b c ≡ some b') × Printed (s ++ (c ∷ [])) b'
unfolding put_char
put_char-Printed s b c h ne room =
    let b' : Buffer = record b {
      read_buffer = update b.read_buffer b.buff_offset c;
      buff_offset = b.buff_offset + 1;
    } in
    (
      b',
      ground (arith, h.offset),
      record {
        text =
            subst (λ a. Bytes (update b.read_buffer a c) 0 (s ++ (c ∷ [])))
              (omega (arith, h.offset)) (Bytes-snoc b.read_buffer 0 c s h.text ne);
        offset = omega (arith, h.offset, length-append s (c ∷ []));
      },
    )

format_loop-plain :
    (s t : List ℕ) (b : Buffer)
    → Printed s b
    → IsPlain t
    → length s + length t ≤ 100
    → (b' : Buffer) × (format_loop b t [] ≡ some b') × Printed (s ++ t) b'
unfolding format_loop
format_loop-plain s [] b h plain room = (b, refl, subst (λ u. Printed u b) (sym (append-nil s)) h)
format_loop-plain s (c ∷ []) b h plain room =
    let other : (c == b'%') ≡ false = ground (arith, plain.0) in
    let (b', run, p) = put_char-Printed s b c h plain.1 (omega arith) in
    (b', rw (other, format_loop) run, p)
format_loop-plain s (c ∷ d ∷ t) b h plain room =
    let other : (c == b'%') ≡ false = ground (arith, plain.0) in
    let (b1, run1, p1) = put_char-Printed s b c h plain.1 (omega arith) in
    let (b2, run2, p2) =
      format_loop-plain (s ++ (c ∷ [])) (d ∷ t) b1 p1 plain.2
        (omega (arith, length-append s (c ∷ []))) in
    (
      b2,
      rw (other, run1, format_loop) run2,
      subst (λ u. Printed u b2) (append_assoc s (c ∷ []) (d ∷ t)) p2,
    )

put_char_full :
    (s : List ℕ) (b : Buffer) (c : ℕ) → Printed s b → 100 ≤ length s → put_char b c ≡ none
unfolding put_char
put_char_full s b c h full = ground (arith, h.offset)

format_loop_full :
    (s t : List ℕ) (b : Buffer)
    → Printed s b
    → IsPlain t
    → length s ≤ 100
    → 100 < length s + length t
    → format_loop b t [] ≡ none
unfolding format_loop
format_loop_full s [] b h plain room full = absurd (omega arith)
format_loop_full s (c ∷ []) b h plain room full =
    let other : (c == b'%') ≡ false = ground (arith, plain.0) in
    rw (other, format_loop) (put_char_full s b c h (omega arith))
format_loop_full s (c ∷ d ∷ t) b h plain room full =
    let other : (c == b'%') ≡ false = ground (arith, plain.0) in
    elim (Bool-cases (ltb (length s) 100)) [
      | inr at_end ↦ rw (other, put_char_full s b c h (ground arith), format_loop) refl
      | inl inside ↦
          let (b1, run1, p1) = put_char-Printed s b c h plain.1 (ground arith) in
          let rest =
            format_loop_full (s ++ (c ∷ [])) (d ∷ t) b1 p1 plain.2
              (ground (arith, length-append s (c ∷ [])))
              (omega (arith, length-append s (c ∷ []))) in
          rw (other, run1, format_loop) rest
    ]

-- A buffer in which `s` was printed before: printing `t`, which has no `%`, hands `s` to `write`
-- again, with `t` behind it, as the offset is never set back; once both and the zero byte do not
-- fit 100 bytes, the write runs over the buffer.
pub printf_again :
    (s t : List ℕ) (b : Buffer)
    → Printed s b
    → length s ≤ 100
    → IsPlain t
    → (length s + length t < 100
        → (b' : Buffer) × (printf b t [] ≡ some b')
          × Printed (s ++ t) b'
          × Holds b'.read_buffer 0 (s ++ t))
      × (100 ≤ length s + length t → printf b t [] ≡ none)
unfolding printf
printf_again s t b h room plain = (
  λ fits.
      let (b1, run, p) = format_loop-plain s t b h plain (omega arith) in
      let m = b1.read_buffer in
      let ended : Memory = update m b1.buff_offset 0 in
      let below : ltb b1.buff_offset 100 ≡ true = ground (arith, p.offset, length-append s t) in
      (
        record b1 { read_buffer = ended },
        rw (run, below) refl,
        record {
          text = Bytes-frame m ended 0 (s ++ t) p.text (λ a lo hi. ground (arith, p.offset));
          offset = p.offset;
        },
        Holds-Bytes m ended 0 (s ++ t) p.text (λ a lo hi. ground (arith, p.offset))
            (ground (arith, p.offset)),
      ),
  λ full. elim (Bool-cases (ltb 100 (length s + length t))) [
    | inl over ↦ rw (format_loop_full s t b h plain room (ground arith)) refl
    | inr exact ↦
        let (b1, run, p) = format_loop-plain s t b h plain (ground arith) in
        let at_end : ltb b1.buff_offset 100 ≡ false = ground (arith, p.offset, length-append s t) in
        rw (run, at_end) refl
  ],
)
