-- ===== src/Segments/TaskState.antt =====
-- The descriptor of the task state segment, as the processor reads it.
use sbu_operating_system.Prelude.{ℕ, ◌+◌, ◌*◌, ◌/◌, ◌%◌, ◌^◌, ◌<◌, ◌≡◌, arith}
use sbu_operating_system.Segments.{SysSegmentDescriptor, init_gdt, words_of}

-- What the processor takes from the two words of a system descriptor in long mode: the address in
-- three parts, the limit in two, the type, the privilege and the mark of presence.
pub record Read : Type 0 where
  pub base : ℕ
  pub limit : ℕ
  pub kind : ℕ
  pub privilege : ℕ
  pub present : ℕ

abbrev pub read_descriptor : ℕ × ℕ → Read
read_descriptor (low, high) = record {
  base = low / 2 ^ 16 % 2 ^ 24 + low / 2 ^ 56 * 2 ^ 24 + high % 2 ^ 32 * 2 ^ 32;
  limit = low % 2 ^ 16 + low / 2 ^ 48 % 2 ^ 4 * 2 ^ 16;
  kind = low / 2 ^ 40 % 2 ^ 5;
  privilege = low / 2 ^ 45 % 2 ^ 2;
  present = low / 2 ^ 47 % 2;
}

-- For a segment at an address of 64 bits, and an old descriptor whose three unused bits below the
-- granularity fit their field, the processor reads back from the descriptor that `init_gdt` leaves:
-- the address, the limit 103, the type of a free task state segment, privilege 0, and presence.
pub init_gdt-read_descriptor :
    (sd : SysSegmentDescriptor) (tss : ℕ)
    → tss < 2 ^ 64
    → sd.sd_xx1 < 2 ^ 3
    → let r = read_descriptor (words_of (init_gdt sd tss)) in
      (r.base ≡ tss) × (r.limit ≡ 103) × (r.kind ≡ 9) × (r.privilege ≡ 0) × (r.present ≡ 1)
unfolding words_of init_gdt
init_gdt-read_descriptor sd tss wide narrow =
    (omega arith, omega arith, omega arith, omega arith, omega arith)
