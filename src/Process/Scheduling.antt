-- ===== src/Process/Scheduling.antt =====
-- Which task runs: `waitpid` and `fork` on the links between tasks.
use sbu_operating_system.Prelude.{ℕ, zero, suc, ◌≡◌, ◌≢◌, ◌⊎◌, inl, refl, arith}
use sbu_operating_system.Process.{Schedule, waitpid, fork_links}

-- `n` calls of `waitpid`, each by the task that then runs.
abbrev pub waits : ℕ → Schedule → Schedule
waits zero s = s
waits (suc n) s = waits n (waitpid s)

-- However often the running tasks wait, only the two tasks that `currentTask` and `nextTask` name
-- at the start ever run; the links to other tasks are never followed.
pub waits_two :
    (n : ℕ) (s : Schedule)
    → (((waits n s).current ≡ s.current) × ((waits n s).next ≡ s.next))
      ⊎ (((waits n s).current ≡ s.next) × ((waits n s).next ≡ s.current))
unfolding waitpid
waits_two zero s = inl (refl, refl)
waits_two (suc n) s = ground (arith, waits_two n (waitpid s))

-- A task that has forked keeps running, and when it waits the child runs next and the parent after
-- the child; then the child's link leads to the parent, and the parent's to the task that was to
-- run before the fork.
pub fork_then_wait :
    (s : Schedule) (child : ℕ)
    → child ≢ s.current
    → child ≢ s.next
    → let forked = fork_links s child in
      let waited = waitpid forked in
      (forked.current ≡ s.current)
      × (waited.current ≡ child)
      × (waited.next ≡ s.current)
      × (waited.link child ≡ s.current)
      × (waited.link s.current ≡ s.next)
      × ((t : ℕ) → t ≢ child → t ≢ s.current → waited.link t ≡ s.link t)
unfolding waitpid fork_links
fork_then_wait s child a b = (refl, refl, refl, ground arith, ground arith, λ t p q. ground arith)
