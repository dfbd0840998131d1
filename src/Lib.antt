-- ===== src/Lib.antt =====
-- The kernel of a small operating system for x86-64, its user library and its shell: physical memory,
-- page tables, page faults, the loader, the file system, the keyboard, the text screen, descriptors,
-- process numbers, the schedule, interrupts, system calls, and the start of it all.
--
-- Parts, and how they interact:
--   Boot         sys/main.c: start up to its own page tables; sys/paging.c: setUpPageTables and what
--                it calls. It enters the memory map into PhysMemory and maps by Paging.
--   PhysMemory   sys/physmemory.c: the bitmap of pages (setPageFree, setPageBusy, makeFreeList) and
--                the allocator over it (findFreePage, allocatePage). `busy` is the mark of a page.
--   Paging       sys/paging.c: map_vir_phy, map_vir_phy_userspace and kmalloc over the words of
--                memory, with new pages taken from PhysMemory. The two functions repeat one body six times in
--                all; `next_table` is that body, `map_page` the function. Paging.Mmu reads the
--                tables the way the processor does, apart from the code that builds them.
--   Faults       sys/irq.c: my_pagefault_function and grow_heap, which call PhysMemory and Paging;
--                libc/malloc.c, whose heap the faults are to fill.
--   Loader       sys/elf64.c: createvma and load_binaries, on the task of Faults. The headers come as
--                records, and what is copied to the program's own addresses is listed.
--   CString      sys/string.c: strings that end in a zero byte, in a memory of bytes.
--   Console      sys/kprintf.c: printing on the screen; scrolling copies by CString.
--                Console.Position: kprintfWithPos and the printing of times.
--   Keyboard     sys/keyboard.c: keyboard_handler and readFromStdin. Interrupts are the list of
--                scan codes that the controller delivers while the caller waits.
--   Process      sys/process.c: setfdArray, getfd, copyfdArray, getPid, waitpid and the links that
--                fork makes; close and the entry that open makes, of sys/dir.c. Process.Task: the
--                structure of a task and ps. Process.Fork: fork, copy_parents_pagetables, execve
--                and createInitThread, on Paging, Loader and the tables above.
--   Files        sys/tarfs.c: the octal sizes of the archive, and the step between its headers;
--                sys/dir.c has the same two loops again. Files.Archive: the table of nodes that
--                tarfs_init makes, getPar, and getFileOffset of sys/dir.c. Files.Paths: getFileParent
--                and getAbsolutePath. Files.Nodes: open_dir, read_dir, open and read_file, whose
--                descriptors are those of Process. Files.Calls: chdir, open and read_dir with a name in
--                the caller's memory.
--   Printf       libc/printf.c: printf of the user library, with the conversions of Console.
--   Shell        bin/sbush/sbush.c. Shell.Tokens: tokenize_input and linearsearch, on the memory of
--                CString; Shell.Pipe: parse_pipe; Shell.Environment: getenv, setenv;
--                Shell.Commands: execute_binaries; Shell.Main: a round of main, and
--                with its gets from the keys on;
--                Shell.Scripts: execute_scripts, parse_scripts. What the shell asks
--                of the system is listed as an `Action`.
--   Interrupts   sys/idt.c: the interrupt table, and the bytes for the controllers; sys/irq.c: the
--                table of handlers, the functions that the entries call, and the timer.
--   Segments     sys/gdt.c: the table of segments, and the descriptor of the task state segment.
--   Syscalls     sys/syscalls.c: every call, on a `System` that holds the memory of the caller, the
--                screen, the keyboard, the nodes of Files, the tasks and the schedule.
--   Libc         libc/*.c: the functions that put their arguments into registers and trap to
--                Syscalls, with what they copy before and after.
--   Bits         what `&`, `|`, `~` and `1 << j` do to each digit of a word.
--   Prelude      shared names: Boolean tests, lists over the native numbers, words, memory.
--   Tests        runs, and the theorems at inputs that meet their hypotheses.
--
-- State is passed from call to call in a record for each component. Memory is a function: from
-- page table addresses to words in Paging, from addresses to bytes in CString and Console. A `-1`
-- of the code is `none`; a write that C leaves undefined is `none` too.
--
-- Fuel and bounds: the string loops run on fuel, and more fuel than the string is long suffices.
-- busy_low gets two rounds more than there are pages below `physfree`. printHex recurs at most 16
-- times for 64 bits, printTime 11 times for 32, and int_digits has the 20 places of the array. A `uint64_t` has at most 20
-- decimal digits, so octal_size needs 21 rounds. All other loops run on the
-- number of rounds that the code gives them.
--
-- The searches of the node table have the 100 rounds of the table. The archive loops need a round
-- for each header, and 93 more to read a name in the last one. The loops of the shell need more fuel
-- than the line is long.
--
-- The loops of Boot over addresses run once for each page up to their bound, and once more.
--
-- A task is its address, and its regions and descriptors are lists in its record; the pages that the
-- code takes for them are taken in the model too, and left empty. With no page left, kmalloc gives
-- page 0 for all of them at once: fork is `none` then, and execve and createInitThread are modelled
-- for a memory with pages left. fork loads the child's tables before it is done; it goes on only
-- if their last entry maps the kernel as the parent's does, and is `none` otherwise, a fault.
--
-- The memory of a `System` is the caller's, in the user half of the addresses. The calls do not check
-- their pointers; one into the other half, where the kernel's own data lies, is `none`.
--
-- Arrays of the user programs with a fixed size have it in the model: a line, a text, or a list of
-- words or lines that does not fit is `none`. So is a count of low pages that passes an `int`.
--
-- Not modelled: assembly (the context switch, ports, descriptor registers, the entries of interrupts),
-- the older copies of files under include/sys and libc/libc, the small programs under bin, and what
-- a program does between its system calls. The free list is taken to lie apart from the page tables,
-- as its page is marked busy.

pub mod Prelude
pub mod Bits
pub mod Boot
pub mod PhysMemory
pub mod Paging
pub mod CString
pub mod Console
pub mod Faults
pub mod Files
pub mod Interrupts
pub mod Keyboard
pub mod Libc
pub mod Loader
pub mod Printf
pub mod Process
pub mod Segments
pub mod Shell
pub mod Syscalls
mod Tests
