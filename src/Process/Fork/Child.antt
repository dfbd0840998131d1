-- ===== src/Process/Fork/Child.antt =====
-- What `fork` makes of the parent.
use sbu_operating_system.Prelude.{
  ℕ, ◌-◌, ◌^◌, ◌≡◌, ◌≢◌, sym, subst, refl, arith, Bool-cases, inl, inr, Bool, true, false, Option,
  none, some, List, [], ◌∷◌, length, ◌==◌, update,
}
use sbu_operating_system.Paging.{kmalloc}
use sbu_operating_system.Faults.{Region}
use sbu_operating_system.Process.Descriptors.{copy_fd_array_20}
use sbu_operating_system.Process.{fork_links, get_pid}
use sbu_operating_system.Process.Task.{TaskStruct, thread_sleeping, int_of}
use sbu_operating_system.Process.Fork.{
  Processes, child_tables, start_child, copy_task, early_return,
}

-- What the child `t` with the number `pid` takes over from its parent.
abbrev pub IsCopy : TaskStruct → ℕ → TaskStruct → Type 0
IsCopy parent pid t =
    (t.pid ≡ pid)
    × (t.ppid ≡ parent.pid)
    × (t.fds ≡ parent.fds)
    × (t.cwd ≡ parent.cwd)
    × (t.regions ≡ parent.regions)
    × (t.brk ≡ parent.brk)
    × (t.task_state ≡ thread_sleeping)

-- The child as a copy of its parent, beside all other tasks as they were.
pub record Forked (p : Processes) (child pid : ℕ) (p' : Processes) : Type 0 where
  pub copy : IsCopy (p.tasks p.schedule.current) pid (p'.tasks child)
  pub others : (a : ℕ) → a ≢ child → p'.tasks a ≡ p.tasks a
  pub schedule : p'.schedule ≡ fork_links p.schedule child
  pub used : p'.used ≡ (get_pid p.used).1

-- The ways through `fork` when pages are left: no number left, no kernel in the tables that are
-- loaded, no region, a child.
pub early_return-cases :
    {A : Type 0} (P : Option A → Type 0) (page : Bool) (pid : ℕ) (mapped pages : Bool)
    (rs : List Region) (stack : Bool) (full empty child : A)
    → page ≡ true
    → pages ≡ true
    → stack ≡ true
    → (pid ≡ 2 ^ 64 - 1 → P (some full))
    → (pid ≢ 2 ^ 64 - 1 → mapped ≡ false → P none)
    → (pid ≢ 2 ^ 64 - 1 → mapped ≡ true → rs ≡ [] → P (some empty))
    → (pid ≢ 2 ^ 64 - 1 → mapped ≡ true → rs ≢ [] → P (some child))
    → P (early_return page (pid == 2 ^ 64 - 1) mapped pages rs stack full empty child)
early_return-cases P false pid mapped pages rs stack full empty child h g k f n e c = absurd (cc h)
early_return-cases P true pid mapped false rs stack full empty child h g k f n e c = absurd (cc g)
early_return-cases P true pid mapped true rs false full empty child h g k f n e c = absurd (cc k)
early_return-cases P true pid mapped true rs true full empty child h g k f n e c =
    elim (Bool-cases (pid == 2 ^ 64 - 1)) [
      | inl none_left ↦
          subst (λ b. P (early_return true b mapped true rs true full empty child)) (sym none_left)
            (f (ground arith))
      | inr left ↦
          let ne : pid ≢ 2 ^ 64 - 1 = ground arith in
          subst (λ b. P (early_return true b mapped true rs true full empty child)) (sym left)
            (behind mapped rs (n ne) (e ne) (c ne))
    ]
  where
    behind :
        (b : Bool) (l : List Region)
        → (b ≡ false → P none)
        → (b ≡ true → l ≡ [] → P (some empty))
        → (b ≡ true → l ≢ [] → P (some child))
        → P (early_return true false b true l true full empty child)
    behind false l n' e' c' = n' refl
    behind true [] n' e' c' = e' refl refl
    behind true (r ∷ l) n' e' c' = c' refl (λ z. cc z)

update_self : {A : Type 0} (f : ℕ → A) (a : ℕ) (v : A) → update f a v a ≡ v
update_self f a v = ground arith

pub at_update : {A : Type 0} (P : A → Type 0) (f : ℕ → A) (a : ℕ) (v : A) → P v → P (update f a v a)
at_update P f a v h = subst P (sym (update_self f a v)) h

update_ne : {A : Type 0} (f : ℕ → A) (a b : ℕ) (v : A) → b ≢ a → update f a v b ≡ f b
update_ne f a b v ne = ground arith

pub start_child-Forked :
    (p : Processes) (offset rip : ℕ)
    → length (p.tasks p.schedule.current).fds ≡ 20
    → let (copied, child, t) = copy_task p rip in
      let (p', v) = start_child copied child t offset in
      (v ≡ int_of (get_pid p.used).0) × Forked p (kmalloc p.machine).0 (get_pid p.used).0 p'
unfolding start_child copy_task child_tables
start_child-Forked p offset rip size =
    let parent = p.tasks p.schedule.current in
    let child = (kmalloc p.machine).0 in
    (
      refl,
      record {
        copy =
            at_update (IsCopy parent (get_pid p.used).0) p.tasks child _
              (refl, refl, copy_fd_array_20 parent.fds size, refl, refl, refl, refl);
        others = λ a ne. update_ne p.tasks child a _ ne;
        schedule = refl;
        used = refl;
      },
    )
