-- ===== src/Files/Nodes/Found.antt =====
-- Which node a name leads to, and what `read_dir` prints.
use sbu_operating_system.Prelude.{
  ℕ, zero, suc, ◌+◌, ◌≤◌, ◌<◌, ◌≡◌, ◌≢◌, refl, arith, ap, sym, subst, true, false, ◌&&◌, Option,
  none, some, List, length, ltb, ◌==◌, ◌⊎◌, Bool-cases, inl, inr,
}
use sbu_operating_system.CString.Read.{same_string, same_string_iff}
use sbu_operating_system.Files.Archive.{Node}
use sbu_operating_system.Files.Nodes.{find_node, open_dir}

-- Node `i` is in use and has the name and the type.
pub record IsNode (nodes : ℕ → Node) (name : List ℕ) (flag_type i : ℕ) : Type 0 where
  pub used : length (nodes i).name ≢ 0
  pub named : (nodes i).name ≡ name
  pub typed : (nodes i).flag_type ≡ flag_type

-- The nodes from `lo` on and before `hi` are in use, and none is the one asked for.
abbrev pub NoneBetween : (ℕ → Node) → List ℕ → ℕ → ℕ → ℕ → Type 0
NoneBetween nodes name flag_type lo hi =
    (j : ℕ) → lo ≤ j → j < hi → (length (nodes j).name ≢ 0) × ¬ IsNode nodes name flag_type j

-- The outcome of a search from node `lo` on, in a table that ends at node `end`.
abbrev pub IsFirstNode : (ℕ → Node) → List ℕ → ℕ → ℕ → ℕ → Option (Option ℕ) → Type 0
IsFirstNode nodes name flag_type lo end none = ⊥
IsFirstNode nodes name flag_type lo end (some none) = NoneBetween nodes name flag_type lo end
IsFirstNode nodes name flag_type lo end (some (some i)) =
    (lo ≤ i) × (i < end) × IsNode nodes name flag_type i × NoneBetween nodes name flag_type lo i

-- A table whose nodes from `lo` to before `end` are in use, and node `end` is not.
pub record EndsAt (nodes : ℕ → Node) (lo end : ℕ) : Type 0 where
  pub used : (j : ℕ) → lo ≤ j → j < end → length (nodes j).name ≢ 0
  pub empty : length (nodes end).name ≡ 0

between-suc :
    (nodes : ℕ → Node) (name : List ℕ) (flag_type lo hi : ℕ)
    → length (nodes lo).name ≢ 0
    → ¬ IsNode nodes name flag_type lo
    → NoneBetween nodes name flag_type (lo + 1) hi
    → NoneBetween nodes name flag_type lo hi
between-suc nodes name flag_type lo hi used other none? j a b = elim (Bool-cases (lo == j)) [
  | inl same ↦
      let here : lo ≡ j = ground arith in
      subst (λ k. (length (nodes k).name ≢ 0) × ¬ IsNode nodes name flag_type k) here (used, other)
  | inr differ ↦ none? j (ground arith) b
]

IsFirstNode-suc :
    (nodes : ℕ → Node) (name : List ℕ) (flag_type lo end : ℕ) (r : Option (Option ℕ))
    → length (nodes lo).name ≢ 0
    → ¬ IsNode nodes name flag_type lo
    → IsFirstNode nodes name flag_type (lo + 1) end r
    → IsFirstNode nodes name flag_type lo end r
IsFirstNode-suc nodes name flag_type lo end none used other h = h
IsFirstNode-suc nodes name flag_type lo end (some none) used other h =
    between-suc nodes name flag_type lo end used other h
IsFirstNode-suc nodes name flag_type lo end (some (some i)) used other (le, lt, node, none?) =
    (omega arith, lt, node, between-suc nodes name flag_type lo i used other none?)

find_node-IsFirstNode :
    (rounds lo end : ℕ) (nodes : ℕ → Node) (name : List ℕ) (flag_type : ℕ)
    → EndsAt nodes lo end
    → lo ≤ end
    → end < lo + rounds
    → IsFirstNode nodes name flag_type lo end (find_node rounds lo nodes name flag_type)
unfolding find_node
find_node-IsFirstNode zero lo end nodes name flag_type t le lt = absurd (omega arith)
find_node-IsFirstNode (suc rounds) lo end nodes name flag_type t le lt =
    elim (Bool-cases (lo == end)) [
      | inl last ↦
          let here : lo ≡ end = ground arith in
          let empty : (length (nodes lo).name == 0) ≡ true =
            subst (λ k. (length (nodes k).name == 0) ≡ true) (sym here) (ground (arith, t.empty)) in
          rw (empty, find_node) (λ j a b. absurd (omega arith))
      | inr inside ↦
          let below : lo < end = ground arith in
          let used : (length (nodes lo).name == 0) ≡ false =
            ground (arith, t.used lo (omega arith) below) in
          let name? = same_string_iff (nodes lo).name name in
          elim (Bool-cases
            (same_string (nodes lo).name name && ((nodes lo).flag_type == flag_type))) [
              | inl hit ↦
                  rw (used, hit, find_node)
                    (
                      omega arith,
                      below,
                      record {
                        used = t.used lo (omega arith) below;
                        named = name?.0 (ground arith);
                        typed = ground arith;
                      },
                      λ j a b. absurd (omega arith),
                    )
              | inr miss ↦
                  rw (used, miss, find_node)
                    (IsFirstNode-suc nodes name flag_type lo end
                      (find_node rounds (lo + 1) nodes name flag_type)
                      (t.used lo (omega arith) below)
                      (λ n. ground (arith, name?.1 n.named, n.typed))
                      (find_node-IsFirstNode rounds (lo + 1) end nodes name flag_type
                        (record { used = λ j a b. t.used j (omega arith) b; empty = t.empty })
                        (omega arith) (omega arith)))
            ]
    ]

-- In a table that ends before node 100, `open_dir` goes to the first directory with the name, or,
-- if there is none, stays in the current directory and returns 0.
pub open_dir-first :
    (nodes : ℕ → Node) (cwd name : List ℕ) (end : ℕ)
    → EndsAt nodes 0 end
    → end < 100
    → ((i : ℕ) × IsNode nodes name 5 i
        × NoneBetween nodes name 5 0 i
        × (open_dir nodes cwd name ≡ some (name, (nodes i).header_address)))
      ⊎ (NoneBetween nodes name 5 0 end × (open_dir nodes cwd name ≡ some (cwd, 0)))
unfolding open_dir
open_dir-first nodes cwd name end t lt =
    go (find_node 100 0 nodes name 5)
      (find_node-IsFirstNode 100 0 end nodes name 5 t (omega arith) (omega arith)) refl
  where
    go :
        (r : Option (Option ℕ))
        → IsFirstNode nodes name 5 0 end r
        → find_node 100 0 nodes name 5 ≡ r
        → ((i : ℕ) × IsNode nodes name 5 i
            × NoneBetween nodes name 5 0 i
            × (open_dir nodes cwd name ≡ some (name, (nodes i).header_address)))
          ⊎ (NoneBetween nodes name 5 0 end × (open_dir nodes cwd name ≡ some (cwd, 0)))
    go none h e = elim h [ ]
    go (some none) h e = inr (h, rw (e, open_dir) refl)
    go (some (some i)) (lo, hi, node, none?) e =
        inl (
          i,
          node,
          none?,
          rw (e, open_dir) (ap (λ n. some (n, (nodes i).header_address)) node.named),
        )

-- The search finds the first node there is.
pub find_node-first :
    (rounds lo end i : ℕ) (nodes : ℕ → Node) (name : List ℕ) (flag_type : ℕ)
    → EndsAt nodes lo end
    → end < lo + rounds
    → lo ≤ i
    → i < end
    → IsNode nodes name flag_type i
    → NoneBetween nodes name flag_type lo i
    → find_node rounds lo nodes name flag_type ≡ some (some i)
find_node-first rounds lo end i nodes name flag_type t enough le lt node none? =
    go (find_node rounds lo nodes name flag_type)
      (find_node-IsFirstNode rounds lo end nodes name flag_type t (omega arith) enough)
  where
    go : (r : Option (Option ℕ)) → IsFirstNode nodes name flag_type lo end r → r ≡ some (some i)
    go none h = elim h [ ]
    go (some none) h = absurd ((h i le lt).1 node)
    go (some (some k)) (le', lt', node', none') = elim (Bool-cases (k == i)) [
      | inl same ↦ ap (λ n. some (some n)) (ground arith)
      | inr differ ↦ elim (Bool-cases (ltb k i)) [
        | inl before ↦ absurd ((none? k le' (ground arith)).1 node')
        | inr behind ↦ absurd ((none' i le (ground arith)).1 node)
      ]
    ]
