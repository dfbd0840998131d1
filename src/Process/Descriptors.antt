-- ===== src/Process/Descriptors.antt =====
-- The descriptor table: which entry `getfd` picks, and that opening and closing touch no other.
use sbu_operating_system.Prelude.{
  ℕ, zero, suc, ◌+◌, ◌≤◌, ◌<◌, ◌≡◌, ◌≢◌, ◌∙◌, refl, ap, sym, arith, true, false, Option, none, some,
  List, [], ◌∷◌, length, get_elem?, subst, ◌==◌, Bool-cases, inl, inr, if◌then◌else◌,
}
use sbu_operating_system.Process.{
  Descriptor, find_fd, getfd, copy_fd_array, close_fd, enter_fd, is_open, set_fd_array,
}

-- What the entry `i` points to: `none` for an entry that is free or not there.
abbrev pub node_at : List Descriptor → ℕ → Option ℕ
node_at [] i = none
node_at (d ∷ ds) zero = d.node
node_at (d ∷ ds) (suc i) = node_at ds i

-- The outcome of the search for a free entry from `start` up to `end`.
abbrev pub IsFirstFree : List Descriptor → ℕ → ℕ → Option ℕ → Type 0
IsFirstFree fds start end none = (i : ℕ) → start ≤ i → i < end → node_at fds i ≢ none
IsFirstFree fds start end (some j) =
    (start ≤ j)
    × (j < end)
    × (node_at fds j ≡ none)
    × ((i : ℕ) → start ≤ i → i < j → node_at fds i ≢ none)

node_at-get_elem? :
    (fds : List Descriptor) (i : ℕ) (d : Descriptor)
    → get_elem? fds i ≡ some d
    → node_at fds i ≡ d.node
node_at-get_elem? [] i d h = cc
node_at-get_elem? (e ∷ es) zero d h = ground arith
node_at-get_elem? (e ∷ es) (suc i) d h = node_at-get_elem? es i d h

node_at_inside :
    (fds : List Descriptor) (i : ℕ)
    → i < length fds
    → (d : Descriptor) × (get_elem? fds i ≡ some d) × (node_at fds i ≡ d.node)
node_at_inside [] i h = elim h [ ]
node_at_inside (d ∷ ds) zero h = (d, refl, refl)
node_at_inside (d ∷ ds) (suc i) h = node_at_inside ds i (omega arith)

find_fd-step :
    (rounds i : ℕ) (fds : List Descriptor) (d : Descriptor)
    → get_elem? fds i ≡ some d
    → find_fd (suc rounds) i fds ≡ (if is_open d.node then find_fd rounds (i + 1) fds else some i)
unfolding find_fd
find_fd-step rounds i fds d got = rw (got, find_fd) refl

is_open-true : (n : Option ℕ) → is_open n ≡ true → n ≢ none
is_open-true none h = cc
is_open-true (some x) h = λ e. cc

is_open-false : (n : Option ℕ) → is_open n ≡ false → n ≡ none
is_open-false none h = refl
is_open-false (some x) h = cc

behind :
    (fds : List Descriptor) (i end : ℕ) (r : Option ℕ)
    → node_at fds i ≢ none
    → IsFirstFree fds (i + 1) end r
    → IsFirstFree fds i end r
behind fds i end none held rest = λ j lo hi. elim (Bool-cases (j == i)) [
  | inl same ↦ let e : j ≡ i = ground arith in λ z. held (ap (node_at fds) (sym e) ∙ z)
  | inr other ↦ rest j (ground arith) hi
]
behind fds i end (some p) held (lo, hi, free, rest) = (
  omega arith,
  hi,
  free,
  λ j a b. elim (Bool-cases (j == i)) [
    | inl same ↦ let e : j ≡ i = ground arith in λ z. held (ap (node_at fds) (sym e) ∙ z)
    | inr other ↦ rest j (ground arith) b
  ],
)

find_fd-IsFirstFree :
    (rounds i end : ℕ) (fds : List Descriptor)
    → i + rounds ≡ end
    → end ≤ length fds
    → IsFirstFree fds i end (find_fd rounds i fds)
find_fd-IsFirstFree zero i end fds e le = unfold find_fd in λ j lo hi. absurd (omega arith)
find_fd-IsFirstFree (suc rounds) i end fds e le =
    let (d, got, at) = node_at_inside fds i (omega arith) in
    elim (Bool-cases (is_open d.node)) [
      | inl held ↦
          rw (find_fd-step rounds i fds d got, held)
            (behind fds i end (find_fd rounds (i + 1) fds)
              (λ z. is_open-true d.node held (sym at ∙ z))
              (find_fd-IsFirstFree rounds (i + 1) end fds (omega arith) le))
      | inr closed ↦
          rw (find_fd-step rounds i fds d got, closed)
            (
              omega arith,
              omega arith,
              at ∙ is_open-false d.node closed,
              λ j lo hi. absurd (omega arith),
            )
    ]

-- `getfd` returns the lowest free entry from 3 on of a table of 20, and -1 exactly when the
-- entries 3 to 19 are all taken.
pub getfd_lem : (fds : List Descriptor) → length fds ≡ 20 → IsFirstFree fds 3 20 (getfd fds)
unfolding getfd
getfd_lem fds size = find_fd-IsFirstFree 17 3 20 fds refl (omega arith)

node_at-enter_fd :
    (fds : List Descriptor) (fd node j : ℕ)
    → fd < length fds
    → node_at (enter_fd fds fd node) j ≡ (if j == fd then some node else node_at fds j)
unfolding enter_fd
node_at-enter_fd [] fd node j h = elim h [ ]
node_at-enter_fd (d ∷ ds) zero node zero h = refl
node_at-enter_fd (d ∷ ds) zero node (suc j) h = ground arith
node_at-enter_fd (d ∷ ds) (suc fd) node zero h = ground arith
node_at-enter_fd (d ∷ ds) (suc fd) node (suc j) h =
    ground (arith, node_at-enter_fd ds fd node j (omega arith))

pub node_at-close_fd :
    (fds : List Descriptor) (fd j : ℕ)
    → node_at (close_fd fds fd) j ≡ (if j == fd then none else node_at fds j)
unfolding close_fd
node_at-close_fd [] fd j = ground arith
node_at-close_fd (d ∷ ds) zero zero = refl
node_at-close_fd (d ∷ ds) zero (suc j) = ground arith
node_at-close_fd (d ∷ ds) (suc fd) zero = ground arith
node_at-close_fd (d ∷ ds) (suc fd) (suc j) = ground (arith, node_at-close_fd ds fd j)

close_fd-enter_fd :
    (fds : List Descriptor) (fd node : ℕ)
    → node_at fds fd ≡ none
    → close_fd (enter_fd fds fd node) fd ≡ fds
unfolding close_fd enter_fd
close_fd-enter_fd [] fd node h = refl
close_fd-enter_fd (d ∷ ds) zero node h = ap (λ n. record d { node = n } ∷ ds) (sym h)
close_fd-enter_fd (d ∷ ds) (suc fd) node h = ap (λ r. d ∷ r) (close_fd-enter_fd ds fd node h)

-- Opening takes a descriptor that no open file has, gives it the node, and leaves every other
-- descriptor alone; closing it again restores the table.
pub open_close :
    (fds : List Descriptor) (fd node : ℕ)
    → length fds ≡ 20
    → getfd fds ≡ some fd
    → (node_at fds fd ≡ none)
      × ((j : ℕ)
          → node_at (enter_fd fds fd node) j ≡ (if j == fd then some node else node_at fds j))
      × (close_fd (enter_fd fds fd node) fd ≡ fds)
open_close fds fd node size got =
    let (lo, hi, free, rest) = subst (IsFirstFree fds 3 20) got (getfd_lem fds size) in
    (free, λ j. node_at-enter_fd fds fd node j (omega arith), close_fd-enter_fd fds fd node free)

-- The child of a fork has the very table of its parent.
pub copy_fd_array_lem :
    (fds fds' : List Descriptor) → length fds ≡ length fds' → copy_fd_array fds fds' ≡ fds'
unfolding copy_fd_array
copy_fd_array_lem [] [] h = refl
copy_fd_array_lem [] (e ∷ es) h = absurd (omega arith)
copy_fd_array_lem (d ∷ ds) [] h = absurd (omega arith)
copy_fd_array_lem (d ∷ ds) (e ∷ es) h = ap (λ r. e ∷ r) (copy_fd_array_lem ds es (omega arith))

pub length-close_fd : (fds : List Descriptor) (fd : ℕ) → length (close_fd fds fd) ≡ length fds
unfolding close_fd
length-close_fd [] fd = refl
length-close_fd (d ∷ ds) zero = refl
length-close_fd (d ∷ ds) (suc fd) = ap suc (length-close_fd ds fd)

pub length-enter_fd :
    (fds : List Descriptor) (fd node : ℕ) → length (enter_fd fds fd node) ≡ length fds
unfolding enter_fd
length-enter_fd [] fd node = refl
length-enter_fd (d ∷ ds) zero node = refl
length-enter_fd (d ∷ ds) (suc fd) node = ap suc (length-enter_fd ds fd node)

pub copy_fd_array_20 :
    (fds : List Descriptor) → length fds ≡ 20 → copy_fd_array set_fd_array fds ≡ fds
unfolding set_fd_array
copy_fd_array_20 fds size = copy_fd_array_lem set_fd_array fds (sym size)
