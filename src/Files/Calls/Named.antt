-- ===== src/Files/Calls/Named.antt =====
-- The calls at a relative name.
use sbu_operating_system.Prelude.{
  ℕ, suc, ◌+◌, ◌<◌, ◌≡◌, ◌≢◌, ◌∙◌, ap, subst, refl, arith, Bool-cases, inl, inr, false, ◌⊎◌, update,
  Option, some, List, [], ◌∷◌, ◌++◌, length, ◌==◌, codes, ◌>>=◌, length-append, sym,
}
use sbu_operating_system.CString.{Memory}
use sbu_operating_system.CString.Layout.{Holds}
use sbu_operating_system.CString.Copy.{SameOutside}
use sbu_operating_system.Shell.Tokens.Pieces.{
  pieces, pieces_of, cons_first, first_word, behind_word, pieces-first_word,
}
use sbu_operating_system.Shell.Tokens.Cut.{tokenize_input-IsCut}
use sbu_operating_system.Shell.Tokens.Kernel.{strtok-tokenize_input}
use sbu_operating_system.Shell.Tokens.Search.{has}
use sbu_operating_system.Shell.Tokens.Words.{AllShort-le, pieces-AllShort, read_strings-AllHold}
use sbu_operating_system.Process.{Descriptor}
use sbu_operating_system.Files.Archive.{Node}
use sbu_operating_system.Files.Paths.{ends_with_slash}
use sbu_operating_system.Files.Paths.Relative.{AllNames, slashed, get_absolute_path-slashed}
use sbu_operating_system.Files.Nodes.{open_file}
use sbu_operating_system.Files.Nodes.Found.{IsNode, NoneBetween, EndsAt, open_dir-first}
use sbu_operating_system.Files.Calls.{resolve, through_int, chdir, open_name, store_string}

-- A slash or another character in front of the pieces.
slashed-front :
    (c : ℕ) (ws : List (List ℕ)) (t : List ℕ) (ts : List (List ℕ))
    → ws ≡ t ∷ ts
    → (slashed ([] ∷ ws) ≡ b'/' ∷ slashed ws) × (slashed (cons_first c ws) ≡ c ∷ slashed ws)
slashed-front c ws t ts e =
    subst (λ w. (slashed ([] ∷ w) ≡ b'/' ∷ slashed w) × (slashed (cons_first c w) ≡ c ∷ slashed w))
      (sym e) (refl, only ts)
  where
    only : (ts : List (List ℕ)) → slashed (cons_first c (t ∷ ts)) ≡ c ∷ slashed (t ∷ ts)
    only [] = refl
    only (u ∷ ts) = refl

-- The pieces of a name that does not end with a slash make the name again.
pieces-slashed : (cs : List ℕ) → ends_with_slash cs ≡ false → slashed (pieces b'/' cs) ≡ cs
pieces-slashed [] open? = refl
pieces-slashed (c ∷ []) open? = rw open? refl
pieces-slashed (c ∷ d ∷ cs) open? =
    let rest = pieces-slashed (d ∷ cs) open? in
    let shape = pieces-first_word b'/' d cs in
    let front =
      slashed-front c (pieces b'/' (d ∷ cs)) (first_word b'/' (d ∷ cs))
        (pieces_of b'/' (behind_word b'/' (d ∷ cs))) shape in
    elim (Bool-cases (c == b'/')) [
      | inl same ↦
          let here : c ≡ b'/' = ground arith in
          rw same (front.0 ∙ ap (λ s. b'/' ∷ s) rest ∙ ap (λ x. x ∷ d ∷ cs) (sym here))
      | inr differ ↦ rw differ (front.1 ∙ ap (λ s. c ∷ s) rest)
    ]

-- The name `cs`, which is not empty, has no space and does not end with a slash; the names between
-- its slashes are not empty, and the first is neither `.` nor `..`.
pub record IsRelative (cs : List ℕ) : Type 0 where
  pub no_space : has b' ' cs ≡ false
  pub open? : ends_with_slash cs ≡ false
  pub first : List ℕ
  pub others : List (List ℕ)
  pub split : pieces b'/' cs ≡ first ∷ others
  pub names : AllNames (first ∷ others)
  pub no_up : first ≢ codes ".."
  pub no_here : first ≢ codes "."

-- The path that `resolve` returns, and the bytes of the name that it cut up.
pub record Resolved (m : Memory) (p : ℕ) (cs path : List ℕ) (result : Option (Memory × List ℕ))
    : Type 0 where
  pub memory : Memory
  pub returns : result ≡ some (memory, path)
  pub outside : SameOutside m memory p (length cs)

resolve-Resolved :
    (fuel : ℕ) (m : Memory) (nodes : ℕ → Node) (cwd : List ℕ) (p : ℕ) (cs : List ℕ)
    → Holds m p cs
    → IsRelative cs
    → length cs < fuel
    → length cwd + length cs + 1 < 500
    → Resolved m p cs (cwd ++ cs) (resolve fuel m nodes cwd p 0)
      × Resolved m p cs ((cwd ++ cs) ++ (b'/' ∷ [])) (resolve fuel m nodes cwd p 5)
unfolding resolve
resolve-Resolved fuel m nodes cwd p cs h r lt room =
    let cut = tokenize_input-IsCut fuel m p b'/' cs (omega arith) h lt in
    let tokens =
      strtok-tokenize_input fuel m p b'/' cs (omega arith) h r.no_space lt ∙ cut.returns in
    let words = read_strings-AllHold fuel cut.memory cut.tokens (pieces b'/' cs) cut.held (
      AllShort-le (suc (length cs)) fuel (pieces b'/' cs) (omega arith)
        (pieces-AllShort b'/' cs)) in
    let whole : slashed (r.first ∷ r.others) ≡ cs =
      ap slashed (sym r.split) ∙ pieces-slashed cs r.open? in
    let size : length (slashed (r.first ∷ r.others)) ≡ length cs = ap length whole in
    let (file, directory) =
      get_absolute_path-slashed nodes cwd r.first r.others r.names r.no_up r.no_here
        (omega (arith, size)) in
    (
      record {
        memory = cut.memory;
        returns = rw (tokens, words, r.split, file) (ap (λ s. some (cut.memory, cwd ++ s)) whole);
        outside = cut.outside;
      },
      record {
        memory = cut.memory;
        returns =
            rw (tokens, words, r.split, directory)
              (ap (λ s. some (cut.memory, (cwd ++ s) ++ (b'/' ∷ []))) whole);
        outside = cut.outside;
      },
    )

-- What `chdir` comes to, when it looks for `path` in a table that ends at node `end`.
pub record Changed (nodes : ℕ → Node) (cwd path : List ℕ) (end : ℕ)
    (result : Option (Memory × List ℕ × ℕ)) : Type 0 where
  pub memory : Memory
  pub outcome :
      ((i : ℕ) × IsNode nodes path 5 i
        × NoneBetween nodes path 5 0 i
        × (result ≡ some (memory, path, through_int (nodes i).header_address)))
      ⊎ (NoneBetween nodes path 5 0 end × (result ≡ some (memory, cwd, 0)))

-- For a relative name in memory, in a table that ends before node 100, `chdir` goes to the first
-- directory whose name is the current directory, the name and a slash, and returns its address as an
-- `int`; if there is none, it stays in the current directory and returns 0.
pub chdir-Changed :
    (fuel : ℕ) (m : Memory) (nodes : ℕ → Node) (cwd : List ℕ) (p end : ℕ) (cs : List ℕ)
    → Holds m p cs
    → IsRelative cs
    → length cs < fuel
    → length cwd + length cs + 1 < 500
    → EndsAt nodes 0 end
    → end < 100
    → Changed nodes cwd ((cwd ++ cs) ++ (b'/' ∷ [])) end (chdir fuel m nodes cwd p)
unfolding chdir
chdir-Changed fuel m nodes cwd p end cs h r lt room table few =
    let (file, directory) = resolve-Resolved fuel m nodes cwd p cs h r lt room in
    let path = (cwd ++ cs) ++ (b'/' ∷ []) in
    record {
      memory = directory.memory;
      outcome = elim (open_dir-first nodes cwd path end table few) [
        | inl (i, node, none?, run) ↦ inl (i, node, none?, rw (directory.returns, run) refl)
        | inr (none?, run) ↦ inr (none?, rw (directory.returns, run) refl)
      ];
    }

store_string-outside :
    (m : Memory) (p : ℕ) (s : List ℕ) → SameOutside m (store_string m p s) p (length s)
unfolding store_string
store_string-outside m p [] a o = ground arith
store_string-outside m p (c ∷ s) a o =
    ground (arith, store_string-outside (update m p c) (p + 1) s a (omega arith))

-- What `open` comes to, for the file `path` with its name at `p`.
pub record Opened (m : Memory) (nodes : ℕ → Node) (fds : List Descriptor) (p : ℕ) (path : List ℕ)
    (result : Option (Memory × List Descriptor × ℕ)) : Type 0 where
  pub memory : Memory
  pub returns : result ≡ (open_file nodes fds path >>= λ o. some (memory, o.0, o.1))
  pub outside : SameOutside m memory p (length path)

-- For a relative name in memory, `open` does what `open_file` does with the name behind the current
-- directory. It changes memory only where the whole path and its zero byte fit in from the start of
-- the name on.
pub open_name-Opened :
    (fuel : ℕ) (m : Memory) (nodes : ℕ → Node) (cwd : List ℕ) (fds : List Descriptor) (p c : ℕ)
    (cs : List ℕ)
    → Holds m p (c ∷ cs)
    → IsRelative (c ∷ cs)
    → suc (length cs) < fuel
    → length cwd + suc (length cs) + 1 < 500
    → Opened m nodes fds p (cwd ++ (c ∷ cs)) (open_name fuel m nodes cwd fds p)
unfolding open_name
open_name-Opened fuel m nodes cwd fds p c cs h r lt room =
    let (file, directory) = resolve-Resolved fuel m nodes cwd p (c ∷ cs) h r lt room in
    let shown : (m p == 0) ≡ false = ground arith in
    let path = cwd ++ (c ∷ cs) in
    let size = length-append cwd (c ∷ cs) in
    record {
      memory = store_string file.memory p path;
      returns = rw (shown, file.returns) refl;
      outside =
          λ a o. store_string-outside file.memory p path a o ∙ file.outside a (omega (arith, size));
    }
