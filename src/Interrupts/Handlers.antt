-- ===== src/Interrupts/Handlers.antt =====
-- What each interrupt calls once the handlers are registered.
use sbu_operating_system.Prelude.{◌≡◌, refl, [], ◌∷◌, ◌++◌, Option, some}
use sbu_operating_system.Interrupts.{
  Handler, my_timer_function, keyboard_handler, my_syscalls_function, my_pagefault_function,
  Controller, register_handler, timer, irq_main, irq_handler, syscalls_handler, pagefault_handler,
  irq_key_handler,
}

-- An interrupt is reported as ended, and calls the function.
abbrev pub Calls : Controller → Controller × Option Handler → Handler → Type 0
Calls c (c', h) f =
    (h ≡ some f)
    × (c'.written ≡ c.written ++ ((0x20, 0x20) ∷ []))
    × (c'.interrupt_handlers ≡ c.interrupt_handlers)

-- Once `irq_main` has run, whatever was registered before: the timer, the keyboard, a system call and
-- a page fault each report the end of the interrupt to the controller and call their own function,
-- and the table of handlers stays as it is. The timer has been given its mode and two bytes, the
-- second of them 0.
pub irq_main-Calls :
    (c : Controller)
    → let c' = irq_main c in
      Calls c' (irq_handler c') my_timer_function
      × Calls c' (irq_key_handler c') keyboard_handler
      × Calls c' (syscalls_handler c') my_syscalls_function
      × Calls c' (pagefault_handler c') my_pagefault_function
      × (c'.written ≡ c.written ++ ((0x43, 0x36) ∷ []) ++ ((0x40, 96) ∷ []) ++ ((0x40, 0) ∷ []))
unfolding irq_main timer register_handler irq_handler syscalls_handler pagefault_handler
    irq_key_handler
irq_main-Calls c =
    ((refl, refl, refl), (refl, refl, refl), (refl, refl, refl), (refl, refl, refl), refl)
