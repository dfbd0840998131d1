-- ===== src/Files/Paths/Relative.antt =====
-- The path that a relative name stands for.
use sbu_operating_system.Prelude.{
  ℕ, ◌+◌, ◌<◌, ◌≡◌, ◌≢◌, ◌∙◌, refl, arith, ap, sym, false, some, List, [], ◌∷◌, ◌++◌, length,
  length-append, codes,
}
use mathlib.Core.List.{append_assoc, append-nil}
use sbu_operating_system.CString.Read.{same_string, same_string-ne}
use sbu_operating_system.Files.Archive.{Node}
use sbu_operating_system.Files.Paths.{
  path_join, join_tokens, ends_with_slash, close_path, get_absolute_path,
}

-- The tokens with a slash between them.
abbrev pub slashed : List (List ℕ) → List ℕ
slashed [] = []
slashed (t ∷ []) = t
slashed (t ∷ u ∷ ts) = t ++ (b'/' ∷ slashed (u ∷ ts))

-- Tokens are not empty, and do not end with a slash.
abbrev pub AllNames : List (List ℕ) → Type 0
AllNames [] = Unit
AllNames (t ∷ ts) = (t ≢ []) × (ends_with_slash t ≡ false) × AllNames ts

path_join-append :
    (path t : List ℕ) → t ≢ [] → length (path ++ t) < 500 → path_join path t ≡ some (path ++ t)
path_join-append path [] ne room = absurd (ne refl)
path_join-append path (c ∷ s) ne room = ground arith

join_tokens-slashed :
    (path : List ℕ) (ts : List (List ℕ))
    → AllNames ts
    → length path + length (slashed ts) < 500
    → join_tokens path ts ≡ some (path ++ slashed ts)
unfolding join_tokens
join_tokens-slashed path [] h room = ap some (sym (append-nil path))
join_tokens-slashed path (t ∷ []) h room =
    path_join-append path t h.0 (omega (arith, length-append path t))
join_tokens-slashed path (t ∷ u ∷ ts) h room =
    let rest = slashed (u ∷ ts) in
    let s1 = length-append path t in
    let s2 = length-append t (b'/' ∷ rest) in
    let s3 = length-append (path ++ t) (b'/' ∷ []) in
    let whole : ((path ++ t) ++ (b'/' ∷ [])) ++ rest ≡ path ++ (t ++ (b'/' ∷ rest)) =
      append_assoc (path ++ t) (b'/' ∷ []) rest ∙ append_assoc path t (b'/' ∷ rest) in
    rw
      (
        path_join-append path t h.0 (omega (arith, s1, s2, s3)),
        path_join-append (path ++ t) (b'/' ∷ []) (λ e. cc e) (omega (arith, s1, s2, s3)),
        join_tokens,
      )
      (join_tokens-slashed ((path ++ t) ++ (b'/' ∷ [])) (u ∷ ts) h.2 (omega (arith, s1, s2, s3))
        ∙ ap some whole)

ends_with_slash-append :
    (path t : List ℕ) → t ≢ [] → ends_with_slash (path ++ t) ≡ ends_with_slash t
ends_with_slash-append [] t ne = refl
ends_with_slash-append (c ∷ []) [] ne = absurd (ne refl)
ends_with_slash-append (c ∷ []) (d ∷ t) ne = refl
ends_with_slash-append (c ∷ d ∷ path) t ne = ends_with_slash-append (d ∷ path) t ne

append-ne-nil : (xs ys : List ℕ) → ys ≢ [] → xs ++ ys ≢ []
append-ne-nil [] ys ne e = ne e
append-ne-nil (x ∷ xs) ys ne e = cc e

slashed-open :
    (t : List ℕ) (ts : List (List ℕ))
    → AllNames (t ∷ ts)
    → (slashed (t ∷ ts) ≢ []) × (ends_with_slash (slashed (t ∷ ts)) ≡ false)
slashed-open t [] h = (h.0, h.1)
slashed-open [] (u ∷ ts) h = absurd (h.0 refl)
slashed-open (c ∷ t) (u ∷ ts) h =
    let (some?, open?) = slashed-open u ts h.2 in
    let rest = slashed (u ∷ ts) in
    (
      λ e. cc e,
      ends_with_slash-append (c ∷ t) (b'/' ∷ rest) (λ e. cc e)
          ∙ ends_with_slash-append (b'/' ∷ []) rest some?
          ∙ open?,
    )

close_path_file : (path : List ℕ) (flag : ℕ) → flag ≢ 5 → close_path path flag ≡ some path
unfolding close_path
close_path_file [] flag ne = refl
close_path_file (c ∷ s) flag ne = ground arith

close_path_directory :
    (path : List ℕ)
    → path ≢ []
    → ends_with_slash path ≡ false
    → length path + 1 < 500
    → close_path path 5 ≡ some (path ++ (b'/' ∷ []))
unfolding close_path
close_path_directory [] ne open? room = absurd (ne refl)
close_path_directory (c ∷ s) ne open? room = rw open? (
    path_join-append (c ∷ s) (b'/' ∷ []) (λ e. cc e)
      (omega (arith, length-append (c ∷ s) (b'/' ∷ []))))

-- A relative name that begins with neither `.` nor `..` stands for the names of its tokens behind the
-- current directory, with a slash between them, and one more at the end for a directory, if the
-- whole fits 500 bytes.
pub get_absolute_path-slashed :
    (nodes : ℕ → Node) (cwd t : List ℕ) (ts : List (List ℕ))
    → AllNames (t ∷ ts)
    → t ≢ codes ".."
    → t ≢ codes "."
    → length cwd + length (slashed (t ∷ ts)) + 1 < 500
    → let path = cwd ++ slashed (t ∷ ts) in
      (get_absolute_path nodes cwd (t ∷ ts) 0 ≡ some path)
      × (get_absolute_path nodes cwd (t ∷ ts) 5 ≡ some (path ++ (b'/' ∷ [])))
unfolding get_absolute_path
get_absolute_path-slashed nodes cwd t ts h no_up no_here room =
    let path = cwd ++ slashed (t ∷ ts) in
    let up : same_string t (codes "..") ≡ false = same_string-ne t (codes "..") no_up in
    let here : same_string t (codes ".") ≡ false = same_string-ne t (codes ".") no_here in
    let joined = join_tokens-slashed cwd (t ∷ ts) h (omega arith) in
    let (some?, open?) = slashed-open t ts h in
    (
      rw (up, here, joined) (close_path_file path 0 (λ e. ground arith)),
      rw (up, here, joined)
          (close_path_directory path (append-ne-nil cwd (slashed (t ∷ ts)) some?)
            (ends_with_slash-append cwd (slashed (t ∷ ts)) some? ∙ open?)
            (omega (arith, length-append cwd (slashed (t ∷ ts))))),
    )
