-- ===== src/Segments.antt =====
-- sys/gdt.c: the table of segments, and the descriptor of the task state segment in it. Loading the
-- registers is assembly. Only `rsp0` of the task state segment is ever set.
pub mod TaskState
use sbu_operating_system.Prelude.{
  ℕ, ◌+◌, ◌-◌, ◌*◌, ◌/◌, ◌%◌, ◌^◌, bit_or, List, [], ◌∷◌, update, ◌==◌, if◌then◌else◌,
}

abbrev pub gdt_cs : ℕ
gdt_cs = 0x00180000000000

abbrev pub gdt_ds : ℕ
gdt_ds = 0x00100000000000

abbrev pub dpl0 : ℕ
dpl0 = 0

abbrev pub dpl3 : ℕ
dpl3 = 0x00600000000000

abbrev pub segment_present : ℕ
segment_present = 0x00800000000000

abbrev pub long_mode : ℕ
long_mode = 0x20000000000000

abbrev pub segment_writable : ℕ
segment_writable = 0x00020000000000

-- The first entries of `gdt`; the others are 0.
abbrev pub gdt : List ℕ
gdt =
    0
    ∷ bit_or (bit_or (bit_or gdt_cs segment_present) dpl0) long_mode
    ∷ bit_or (bit_or (bit_or gdt_ds segment_present) segment_writable) dpl0
    ∷ 0
    ∷ bit_or (bit_or (bit_or gdt_ds segment_present) segment_writable) dpl3
    ∷ bit_or (bit_or (bit_or gdt_cs segment_present) dpl3) long_mode
    ∷ 0
    ∷ 0
    ∷ []

-- `struct sys_segment_descriptor`; a field holds as many digits as its width says.
pub record SysSegmentDescriptor : Type 0 where
  pub sd_lolimit : ℕ
  pub sd_lobase : ℕ
  pub sd_type : ℕ
  pub sd_dpl : ℕ
  pub sd_p : ℕ
  pub sd_hilimit : ℕ
  pub sd_xx1 : ℕ
  pub sd_gran : ℕ
  pub sd_hibase : ℕ
  pub sd_xx2 : ℕ
  pub sd_zero : ℕ
  pub sd_xx3 : ℕ

-- `sizeof(struct tss_t)`, which is packed: eleven words of 64 bits, one of 32 and two of 16 besides
-- the two reserved words.
abbrev pub tss_size : ℕ
tss_size = 4 + 3 * 8 + 8 + 7 * 8 + 8 + 2 + 2

-- What `init_gdt` writes into the descriptor, for the address of `tss`.
pub init_gdt : SysSegmentDescriptor → ℕ → SysSegmentDescriptor
init_gdt sd tss = record sd {
  sd_lolimit = (tss_size - 1) % 2 ^ 16;
  sd_lobase = tss % 2 ^ 24;
  sd_type = 9;
  sd_dpl = 0;
  sd_p = 1;
  sd_hilimit = 0;
  sd_gran = 0;
  sd_hibase = tss / 2 ^ 24 % 2 ^ 40;
}

-- The fields in the two entries of the table, from the lowest digit up.
pub words_of : SysSegmentDescriptor → ℕ × ℕ
words_of sd = (
  sd.sd_lolimit
      + sd.sd_lobase * 2 ^ 16
      + sd.sd_type * 2 ^ 40
      + sd.sd_dpl * 2 ^ 45
      + sd.sd_p * 2 ^ 47
      + sd.sd_hilimit * 2 ^ 48
      + sd.sd_xx1 * 2 ^ 52
      + sd.sd_gran * 2 ^ 55
      + sd.sd_hibase % 2 ^ 8 * 2 ^ 56,
  sd.sd_hibase / 2 ^ 8 + sd.sd_xx2 * 2 ^ 32 + sd.sd_zero * 2 ^ 40 + sd.sd_xx3 * 2 ^ 45,
)
