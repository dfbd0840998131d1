-- ===== src/Tests/Devices.antt =====
-- The archive's sizes, the interrupt table and the timer at small inputs.
use sbu_operating_system.Prelude.{ℕ, ◌≡◌, ◌≢◌, arith}
use sbu_operating_system.Interrupts.{Gate, initialise_idt, ticks, stopped}
use sbu_operating_system.Interrupts.Table.{LeadsTo, initialise_idt-target}
use sbu_operating_system.Interrupts.Timer.{Shows, ticks-Shows}

abbrev gates : ℕ → Gate
gates i = record {
  offset_low = 0;
  selector = 0;
  zero_byte = 0;
  kind = 0;
  offset_middle = 0;
  offset_high = 0;
  ist = 0;
}

initialise_idt-target_example :
    let idt' = initialise_idt gates 0x201000 0x202000 0x203000 0x204000 in
    LeadsTo (idt' 32) 0x201000 0
    × LeadsTo (idt' 33) 0x202000 0
    × LeadsTo (idt' 128) 0x203000 3
    × LeadsTo (idt' 14) 0x204000 0
    × ((i : ℕ) → i ≢ 32 → i ≢ 33 → i ≢ 128 → i ≢ 14 → idt' i ≡ gates i)
initialise_idt-target_example =
    initialise_idt-target gates 0x201000 0x202000 0x203000 0x204000 (omega arith) (omega arith)
      (omega arith) (omega arith)

ticks-Shows_example : Shows 5 (ticks 5 stopped)
ticks-Shows_example = ticks-Shows 5 (omega arith)
