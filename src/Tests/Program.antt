-- ===== src/Tests/Program.antt =====
-- Loading a program of one segment for a task with empty tables, and printing twice.
use sbu_operating_system.Prelude.{
  ℕ, ◌+◌, ◌≤◌, ◌<◌, ◌≡◌, refl, arith, ◌==◌, if◌then◌else◌, none, some, List, [], ◌∷◌, ◌++◌, length,
}
use native.Mathlib.Nat.{le_trans}
use sbu_operating_system.PhysMemory.{PhysMemory}
use sbu_operating_system.PhysMemory.Count.{free_below, free_pages, free_below-le-free_pages}
use sbu_operating_system.Paging.Map.{Tables}
use sbu_operating_system.CString.Layout.{Holds}
use sbu_operating_system.Faults.{Task}
use sbu_operating_system.Loader.{ProgramHeader, Load, load_binaries}
use sbu_operating_system.Loader.Program.{IsReady}
use sbu_operating_system.Loader.Program.Loaded.{HasProgram, load_binaries-HasProgram}
use sbu_operating_system.Printf.{Buffer, printf}
use sbu_operating_system.Printf.Again.{Printed, printf_again}

abbrev phys : PhysMemory
phys = record { free_list = λ i. if i == 0 then 3 else 0; max_base = 0; max_end = 0 }

-- Page 1 holds the empty tables.
abbrev task : Task
task = record {
  machine = record { ram = λ a. 0; phys = phys };
  cr3 = 0xffffffff80001000;
  regions = [];
  brk = 0;
}

abbrev load : Load
load = record { task = task; copies = []; rsp = 0; rip = 0 }

abbrev code : ProgramHeader
code = record {
  p_type = 1;
  p_flags = 5;
  p_offset = 64;
  p_vaddr = 0x400010;
  p_filesz = 100;
  p_memsz = 200;
}

task-Tables : Tables task.machine 0xffffffff80001000 1
task-Tables = record {
  level = λ page. if page == 1 then 4 else 0;
  tree = record {
    child = λ f i k lf hi p. absurd (omega arith);
    unique = λ f i k g j l lf lg hi hj p q e. absurd (omega arith);
    taken = λ f k lf. ground arith;
  };
  level_root = refl;
  at = refl;
}

free_pages-many : 15 ≤ free_pages phys
unfolding free_below
free_pages-many = le_trans (omega arith) (free_below-le-free_pages 20 phys (omega arith))

task-IsReady : IsReady task 1
task-IsReady = record { window = omega arith; tables = task-Tables }

load_binaries-HasProgram_example :
    HasProgram load 1 (code ∷ []) 0x400010 (load_binaries 0x5000 0x400010 (code ∷ []) load)
load_binaries-HasProgram_example =
    load_binaries-HasProgram 0x5000 0x400010 1 (code ∷ []) load task-IsReady (omega arith, tt)
      (le_trans (omega arith) free_pages-many)

-- The buffer after "a" was printed.
abbrev buffer : Buffer
buffer = record { read_buffer = λ p. if p == 0 then b'a' else 0; buff_offset = 1 }

buffer-Printed : Printed (b'a' ∷ []) buffer
buffer-Printed = record { text = (refl, (λ e. absurd (omega arith)), tt); offset = refl }

printf_again_example :
    let s : List ℕ = b'a' ∷ [] in
    let t : List ℕ = b'b' ∷ [] in
    (length s + length t < 100
      → (b' : Buffer) × (printf buffer t [] ≡ some b')
        × Printed (s ++ t) b'
        × Holds b'.read_buffer 0 (s ++ t))
    × (100 ≤ length s + length t → printf buffer t [] ≡ none)
printf_again_example =
    printf_again (b'a' ∷ []) (b'b' ∷ []) buffer buffer-Printed (omega arith)
      ((λ e. absurd (omega arith)), (λ e. absurd (omega arith)), tt)
