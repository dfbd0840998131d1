-- ===== src/Tests/Boot.antt =====
-- The boot sequence, segments, interrupts and a script at small states.
use sbu_operating_system.Prelude.{
  ℕ, ◌≤◌, ◌≡◌, ◌++◌, refl, arith, some, List, [], ◌∷◌, ◌==◌, if◌then◌else◌, codes,
}
use native.Mathlib.Nat.{le_trans}
use sbu_operating_system.PhysMemory.{PhysMemory}
use sbu_operating_system.PhysMemory.Count.{free_below, free_pages, free_below-le-free_pages}
use sbu_operating_system.Paging.{Machine}
use sbu_operating_system.Paging.Map.{Tables}
use sbu_operating_system.Boot.{SmapEntry, enter_map, Globals, identity_mapping}
use sbu_operating_system.Boot.MemoryMap.{MapEntered, enter_map-MapEntered}
use sbu_operating_system.Boot.Window.{Windowed, identity_mapping-Windowed}
use sbu_operating_system.Segments.{SysSegmentDescriptor, init_gdt, words_of}
use sbu_operating_system.Segments.TaskState.{read_descriptor, init_gdt-read_descriptor}
use sbu_operating_system.Shell.Commands.{at_zero, say, show_tasks, execute_binaries}
use sbu_operating_system.Shell.Environment.{matches}
use sbu_operating_system.CString.Layout.{Holds}
use sbu_operating_system.Shell.Main.{initial_vars}
use sbu_operating_system.Shell.Scripts.{parse_scripts, run_words}
use sbu_operating_system.Shell.Scripts.Lines.{run_script_text, parse_scripts-run_script_text}

abbrev low_memory : SmapEntry
low_memory = record { base = 0; length = 0x9f000; kind = 1 }

abbrev reserved : SmapEntry
reserved = record { base = 0x9f000; length = 0x61000; kind = 2 }

abbrev high_memory : SmapEntry
high_memory = record { base = 0x100000; length = 0x7000000; kind = 1 }

abbrev smap : List SmapEntry
smap = low_memory ∷ reserved ∷ high_memory ∷ []

abbrev all_busy : PhysMemory
all_busy = record { free_list = λ i. 0xFFFFFFFFFFFFFFFF; max_base = 0; max_end = 0 }

enter_map-MapEntered_example :
    (s' : PhysMemory) × (enter_map 0x200000 0x230000 smap all_busy ≡ some s')
    × MapEntered 0x230000 smap all_busy s'
enter_map-MapEntered_example =
    enter_map-MapEntered 0x200000 0x230000 smap all_busy (omega arith)
      (omega arith, (omega arith, (omega arith, tt)))

-- Page 1 holds the first table; pages 0 and 1 are busy.
abbrev globals : Globals
globals = record {
  machine = record {
    ram = λ a. 0;
    phys = record { free_list = λ i. if i == 0 then 3 else 0; max_base = 0; max_end = 0 };
  };
  pml4 = 0xffffffff80001000;
  pdpt = 0;
  pdt = 0;
  pt = 0;
  cr3 = 0x1000;
  free_list = 0;
}

globals-Tables : Tables globals.machine globals.pml4 1
globals-Tables = record {
  level = λ page. if page == 1 then 4 else 0;
  tree = record {
    child = λ f i k lf hi p. absurd (omega arith);
    unique = λ f i k g j l lf lg hi hj p q e. absurd (omega arith);
    taken = λ f k lf. ground arith;
  };
  level_root = refl;
  at = refl;
}

six-le-free_pages : 6 ≤ free_pages globals.machine.phys
unfolding free_below
six-le-free_pages =
    le_trans (omega arith) (free_below-le-free_pages 8 globals.machine.phys (omega arith))

-- The first five pages.
identity_mapping-Windowed_example :
    (m' : Machine) × (identity_mapping 9 0x4fff globals ≡ some (record globals { machine = m' }))
    × Windowed globals.machine 0 0x4fff globals.pml4 1 m'
identity_mapping-Windowed_example =
    identity_mapping-Windowed 9 0x4fff globals 1 globals-Tables (omega arith) (omega arith)
      six-le-free_pages

abbrev empty_descriptor : SysSegmentDescriptor
empty_descriptor = record {
  sd_lolimit = 0;
  sd_lobase = 0;
  sd_type = 0;
  sd_dpl = 0;
  sd_p = 0;
  sd_hilimit = 0;
  sd_xx1 = 0;
  sd_gran = 0;
  sd_hibase = 0;
  sd_xx2 = 0;
  sd_zero = 0;
  sd_xx3 = 0;
}

init_gdt-read_descriptor_example :
    let r = read_descriptor (words_of (init_gdt empty_descriptor 0xffffffff80216040)) in
    (r.base ≡ 0xffffffff80216040)
    × (r.limit ≡ 103)
    × (r.kind ≡ 9)
    × (r.privilege ≡ 0)
    × (r.present ≡ 1)
init_gdt-read_descriptor_example =
    init_gdt-read_descriptor empty_descriptor 0xffffffff80216040 (omega arith) (omega arith)

-- A script of one line.
abbrev text : List ℕ
text = codes "#!rootfs/bin/sbush" ++ (b'\n' ∷ b'p' ∷ b's' ∷ [])

text-Holds : Holds (at_zero text) 0 text
text-Holds = (
  refl,
  λ e. cc e,
  (
    refl,
    λ e. cc e,
    (
      refl,
      λ e. cc e,
      (
        refl,
        λ e. cc e,
        (
          refl,
          λ e. cc e,
          (
            refl,
            λ e. cc e,
            (
              refl,
              λ e. cc e,
              (
                refl,
                λ e. cc e,
                (
                  refl,
                  λ e. cc e,
                  (
                    refl,
                    λ e. cc e,
                    (
                      refl,
                      λ e. cc e,
                      (
                        refl,
                        λ e. cc e,
                        (
                          refl,
                          λ e. cc e,
                          (
                            refl,
                            λ e. cc e,
                            (
                              refl,
                              λ e. cc e,
                              (
                                refl,
                                λ e. cc e,
                                (
                                  refl,
                                  λ e. cc e,
                                  (
                                    refl,
                                    λ e. cc e,
                                    (refl, λ e. cc e, (refl, λ e. cc e, (refl, λ e. cc e, refl))),
                                  ),
                                ),
                              ),
                            ),
                          ),
                        ),
                      ),
                    ),
                  ),
                ),
              ),
            ),
          ),
        ),
      ),
    ),
  ),
)

parse_scripts-run_script_text_example :
    parse_scripts 30 (at_zero text) initial_vars 0 ≡ run_script_text initial_vars text
parse_scripts-run_script_text_example =
    parse_scripts-run_script_text 30 (at_zero text) initial_vars 0 text text-Holds (omega arith)

-- The line asks for the tasks.
run_script_text-ps :
    run_script_text initial_vars text ≡ some (initial_vars, say text ∷ show_tasks ∷ [])
unfolding run_words execute_binaries matches
run_script_text-ps = refl
