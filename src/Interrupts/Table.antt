-- ===== src/Interrupts/Table.antt =====
-- Where an interrupt goes, as the processor puts the address together from the fields of a gate.
use sbu_operating_system.Prelude.{ℕ, ◌+◌, ◌*◌, ◌/◌, ◌%◌, ◌^◌, ◌<◌, ◌≡◌, ◌≢◌, refl, arith, bit_and}
use sbu_operating_system.Bits.{bit_and-low_ones}
use sbu_operating_system.Interrupts.{Gate, create_idt_entry, initialise_idt}

-- The address that the processor goes to.
abbrev pub target : Gate → ℕ
target g = g.offset_low + g.offset_middle * 2 ^ 16 + g.offset_high * 2 ^ 32

-- The privilege that code needs to raise the interrupt itself.
abbrev pub privilege : Gate → ℕ
privilege g = g.kind / 2 ^ 5 % 4

target-split :
    (a : ℕ)
    → a < 2 ^ 64
    → bit_and a 0x0000ffff
        + bit_and (a / 2 ^ 16) 0x0000ffff * 2 ^ 16
        + bit_and (a / 2 ^ 32) 0xffffffff * 2 ^ 32
      ≡ a
target-split a h = ground (
  arith,
  bit_and-low_ones 16 a,
  bit_and-low_ones 16 (a / 2 ^ 16),
  bit_and-low_ones 32 (a / 2 ^ 32),
)

-- For an address of 64 bits and a kind that fits a byte, the entry that `create_idt_entry` makes
-- leads to the address, through the selector and of the kind given, and no other entry changes.
pub create_idt_entry-target :
    (idt : ℕ → Gate) (index address selector kind : ℕ)
    → address < 2 ^ 64
    → kind < 2 ^ 8
    → let idt' = create_idt_entry idt index address selector kind in
      (target (idt' index) ≡ address)
      × ((idt' index).selector ≡ selector)
      × ((idt' index).kind ≡ kind)
      × ((i : ℕ) → i ≢ index → idt' i ≡ idt i)
unfolding create_idt_entry
create_idt_entry-target idt index address selector kind wide narrow =
    ground (arith, target-split address wide)

-- Whether the gate is in use, what kind of gate it is, and 14 stands for an interrupt gate.
abbrev pub is_present : Gate → ℕ
is_present g = g.kind / 2 ^ 7 % 2

abbrev pub gate_type : Gate → ℕ
gate_type g = g.kind % 2 ^ 5

-- An interrupt gate in use, that leads into the kernel's code segment at the address, and that code
-- of the given privilege may raise.
abbrev pub LeadsTo : Gate → ℕ → ℕ → Type 0
LeadsTo g address level =
    (target g ≡ address)
    × (g.selector ≡ 0x08)
    × (gate_type g ≡ 14)
    × (is_present g ≡ 1)
    × (privilege g ≡ level)

-- Given four entry points of 64 bits, `initialise_idt` makes the gates of the timer (32), the
-- keyboard (33), system calls (128) and page faults (14) present interrupt gates that lead to them
-- through the selector 0x08; of these only the one of system calls is open to user code. Every
-- other gate is as it was.
pub initialise_idt-target :
    (idt : ℕ → Gate) (irq0 irqkey syscalls pagefault : ℕ)
    → irq0 < 2 ^ 64
    → irqkey < 2 ^ 64
    → syscalls < 2 ^ 64
    → pagefault < 2 ^ 64
    → let idt' = initialise_idt idt irq0 irqkey syscalls pagefault in
      LeadsTo (idt' 32) irq0 0
      × LeadsTo (idt' 33) irqkey 0
      × LeadsTo (idt' 128) syscalls 3
      × LeadsTo (idt' 14) pagefault 0
      × ((i : ℕ) → i ≢ 32 → i ≢ 33 → i ≢ 128 → i ≢ 14 → idt' i ≡ idt i)
unfolding initialise_idt create_idt_entry
initialise_idt-target idt irq0 irqkey syscalls pagefault h32 h33 h128 h14 = (
  (target-split irq0 h32, refl, refl, refl, refl),
  (target-split irqkey h33, refl, refl, refl, refl),
  (target-split syscalls h128, refl, refl, refl, refl),
  (target-split pagefault h14, refl, refl, refl, refl),
  λ i n32 n33 n128 n14. ground arith,
)
