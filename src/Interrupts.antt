-- ===== src/Interrupts.antt =====
-- sys/idt.c, and the timer and the table of handlers of sys/irq.c. A gate of the interrupt table is the record of its fields.
pub mod Table
pub mod Timer
pub mod Handlers
use sbu_operating_system.Prelude.{
  ℕ, zero, suc, ◌+◌, ◌*◌, ◌/◌, ◌%◌, ◌^◌, bit_and, ◌==◌, List, [], ◌∷◌, ◌++◌, Option, none, some,
  if◌then◌else◌, update, u8, u64,
}

pub record Gate : Type 0 where
  pub offset_low : ℕ
  pub selector : ℕ
  pub zero_byte : ℕ
  pub kind : ℕ
  pub offset_middle : ℕ
  pub offset_high : ℕ
  pub ist : ℕ

-- `create_idt_entry`; `kind` is the `type` of the code, and goes into a byte.
unfoldable pub create_idt_entry : (ℕ → Gate) → ℕ → ℕ → ℕ → ℕ → ℕ → Gate
create_idt_entry idt index address selector kind = update idt index (record {
  offset_low = bit_and address 0x0000ffff;
  selector = selector;
  zero_byte = 0;
  kind = u8 kind;
  offset_middle = bit_and (address / 2 ^ 16) 0x0000ffff;
  offset_high = bit_and (address / 2 ^ 32) 0xffffffff;
  ist = 0;
})

-- The entries that `initialise_idt` makes, for the addresses of the four entry points.
pub initialise_idt : (ℕ → Gate) → ℕ → ℕ → ℕ → ℕ → ℕ → Gate
unfolding create_idt_entry
initialise_idt idt irq0 irqkey syscalls pagefault =
    let idt : ℕ → Gate = create_idt_entry idt 32 irq0 0x08 0x8e in
    let idt : ℕ → Gate = create_idt_entry idt 33 irqkey 0x08 0x8e in
    let idt : ℕ → Gate = create_idt_entry idt 128 syscalls 0x08 0xee in
    create_idt_entry idt 14 pagefault 0x08 0x8e

-- The counters of the timer.
pub record Clock : Type 0 where
  pub count : ℕ
  pub count_sec : ℕ
  pub count_second : ℕ
  pub count_min : ℕ
  pub count_hr : ℕ

-- The counters at the start.
abbrev pub stopped : Clock
stopped = record { count = 0; count_sec = 0; count_second = 0; count_min = 0; count_hr = 0 }

-- `my_timer_function`.
pub tick : Clock → Clock
tick c =
    let n = u64 (c.count + 1) in
    let s = u64 (c.count_sec + 1) in
    if n % 3800 == 0
    then (record {
      count = n;
      count_sec = s;
      count_second = s % 3600 % 60;
      count_min = s % 3600 / 60;
      count_hr = s / 3600;
    })
    else record c { count = n }

pub ticks : ℕ → Clock → Clock
unfolding tick
ticks zero c = c
ticks (suc n) c = ticks n (tick c)

-- The functions that are entered into the table of handlers.
pub data Handler : Type 0 where
  my_timer_function keyboard_handler my_syscalls_function my_pagefault_function : Handler

-- `interrupt_handlers`, and the bytes that went to the ports, the first one first.
pub record Controller : Type 0 where
  pub interrupt_handlers : ℕ → Option Handler
  pub written : List (ℕ × ℕ)

abbrev pub outb : Controller → ℕ → ℕ → Controller
outb c port byte = record c { written = c.written ++ ((port, byte) ∷ []) }

pub register_handler : Controller → ℕ → Handler → Controller
register_handler c index ourfunc = record c {
  interrupt_handlers = update c.interrupt_handlers (u8 index) (some ourfunc);
}

-- `timer`. The casts bind before `&` and `>>`: the high byte is that of a number of 8 bits.
pub timer : Controller → Controller
unfolding register_handler
timer c =
    let frequency : ℕ = 1193180 % 2 ^ 16 * 1000 in
    let c = register_handler c 32 my_timer_function in
    let c = outb c 0x43 0x36 in
    let low = bit_and (u8 frequency) 0xff in
    let high = u8 frequency / 2 ^ 8 in outb (outb c 0x40 low) 0x40 high

pub irq_main : Controller → Controller
unfolding register_handler timer
irq_main c =
    let c = register_handler c 33 keyboard_handler in
    let c = timer c in
    let c = register_handler c 128 my_syscalls_function in
    register_handler c 14 my_pagefault_function

-- The end of the interrupt is reported before the handler runs.
abbrev handled_by : Controller → ℕ → Controller × Option Handler
handled_by c index = (outb c 0x20 0x20, c.interrupt_handlers index)

-- The four functions that the entry points call, each with the handler that it calls in turn.
pub irq_handler : Controller → Controller × Option Handler
irq_handler c = handled_by c 32

pub syscalls_handler : Controller → Controller × Option Handler
syscalls_handler c = handled_by c 128

pub pagefault_handler : Controller → Controller × Option Handler
pagefault_handler c = handled_by c 14

pub irq_key_handler : Controller → Controller × Option Handler
irq_key_handler c = handled_by c 33

-- `reconfigure_pic`
pub reconfigure_pic : Controller → Controller
reconfigure_pic c =
    let c = outb c 0x20 0x20 in
    let c = outb c 0x20 0x11 in
    let c = outb c 0xA0 0x11 in
    let c = outb c 0x21 0x20 in
    let c = outb c 0xA1 0x28 in
    let c = outb c 0x21 0x04 in
    let c = outb c 0xA1 0x02 in let c = outb c 0x21 0x01 in outb c 0xA1 0x01
