-- ===== src/Tests/Memory.antt =====
-- The page allocator and the page tables at a small state: pages 0 and 1 are busy, page 1 holds an
-- empty four-level table.
use sbu_operating_system.Prelude.{ℕ, ◌≤◌, ◌≡◌, refl, arith, ◌==◌, if◌then◌else◌, some, true, false}
use native.Mathlib.Nat.{le_trans}
use sbu_operating_system.PhysMemory.{
  PhysMemory, set_page_free, set_page_busy, find_free_page, allocate_page,
}
use sbu_operating_system.PhysMemory.Bitmap.{busy, busy-set_page_free, busy-set_page_busy}
use sbu_operating_system.PhysMemory.Allocate.{HasFree, Allocated, allocate_page-Allocated}
use sbu_operating_system.PhysMemory.Count.{free_below, free_pages, free_below-le-free_pages}
use sbu_operating_system.Paging.{Machine, map_vir_phy, map_vir_phy_userspace}
use sbu_operating_system.Paging.Map.{Tables, Mapped, map_vir_phy-Mapped}

abbrev phys : PhysMemory
phys = record { free_list = λ i. if i == 0 then 3 else 0; max_base = 0; max_end = 0 }

abbrev machine : Machine
machine = record { ram = λ a. 0; phys = phys }

-- The lowest free page is page 2.
find_free_page-phys : find_free_page phys ≡ some 2
unfolding find_free_page
find_free_page-phys = refl

allocate_page-phys : (allocate_page phys).0 ≡ 8192
unfolding allocate_page
allocate_page-phys = refl

busy-set_page_free_example : busy (set_page_free phys 1) 0 ≡ 1
busy-set_page_free_example = busy-set_page_free phys 1 0

busy-set_page_busy_example : busy (set_page_busy phys 70) 70 ≡ 1
busy-set_page_busy_example = busy-set_page_busy phys 70 70

phys-HasFree : HasFree phys
phys-HasFree = (2, omega arith, refl)

allocate_page-Allocated_example : Allocated phys (allocate_page phys).0 (allocate_page phys).1
allocate_page-Allocated_example = allocate_page-Allocated phys phys-HasFree

three-le-free_pages : 3 ≤ free_pages phys
unfolding free_below
three-le-free_pages = le_trans (omega arith) (free_below-le-free_pages 8 phys (omega arith))

abbrev level : ℕ → ℕ
level page = if page == 1 then 4 else 0

machine-Tables : Tables machine 0x1000 1
machine-Tables = record {
  level = level;
  tree = record {
    child = λ f i k lf hi p. absurd (omega arith);
    unique = λ f i k g j l lf lg hi hj p q e. absurd (omega arith);
    taken = λ f k lf. ground arith;
  };
  level_root = refl;
  at = refl;
}

-- Page 5 is mapped at 0x400000, the usual place of a program.
map_vir_phy-Mapped_example :
    Mapped false machine 0x400000 5 0x1000 1 (map_vir_phy machine 0x1000 0x400000 0x5000)
    × Mapped true machine 0x400000 5 0x1000 1 (map_vir_phy_userspace machine 0x400000 0x5000 0x1000)
map_vir_phy-Mapped_example =
    map_vir_phy-Mapped machine 0x400000 5 0x1000 1 machine-Tables three-le-free_pages
