-- ===== src/Lib.antt =====
-- PumpkinOS, a 32-bit hobby operating system in C: a library that models the parts of the kernel that
-- keep data, and proves what they promise.
--
-- The parts and how they interact. At boot the kernel sets up the physical memory manager from the
-- BIOS memory map; the page tables take their frames from it, and the kernel heap grows by frames
-- that it maps; the scheduler's tasks lie in the heap, and run in turn with the timer; the FAT12
-- file system keeps its table in a block of the heap; the keyboard's interrupt handler feeds a ring
-- buffer from which the shell and the editor read, and the mouse's moves the cursor of the desktop. The
-- console prints for all of them; the network stack polls the card until the timer says stop; the
-- loader reads a program from the file system, maps its pages and starts it as a task, whose system
-- calls come back to the console and the scheduler.
--
--   * Prelude: the library's names that all modules share, Boolean tests on numbers with their
--     lemmas (Prelude/Tests), lists measured by native numbers (Prelude/Lists), signed integers
--     (Prelude/Int), and the bit operations as sums, remainders and single bits (Prelude/Bits).
--   * Pmm (mm/pmm.c): the bitmap of frames, `bitmap`, `bitmap_addr`, `total_frames` and
--     `used_frames`, as a record; `pmm_init`, `pmm_alloc_frame`, `pmm_free_frame`, `pmm_reserve`,
--     `pmm_free_frames` as functions on it, 32-bit and 64-bit arithmetic with its wrap-around.
--     Pmm/Bitmap and Pmm/Count hold the facts on single bits and on the counter, Pmm/Range on runs
--     of frames, Pmm/Alloc on the search, Pmm/Init, Pmm/Room and Pmm/Start on the set-up, Pmm/Grants on
--     one call of `pmm_alloc_frame`, Pmm/Exclusive on sequences of calls.
--   * Kheap (mm/kheap.c): the chain of blocks as a list with the address of each header;
--     `kheap_init`, `kmalloc`, `kfree`, `grow_heap`, `coalesce` and `split`. The frames and the page
--     tables below are the interface `Pages`. Kheap/Chain says what a chain is, Kheap/Coalesce,
--     Kheap/Fit and Kheap/Malloc follow the routines, Kheap/Requests states what callers rely on.
--     The model of `kfree` has no next state for a pointer that heads no block: the C code then clears
--     other bytes.
--   * Paging (mm/paging.c): the directory and the page tables as words of physical memory;
--     `paging_map`, `paging_unmap`, `paging_get_phys` and `paging_init`. The frames below are the
--     interface `Frames`. Paging/Entries has the bits of an entry, Paging/Valid and Paging/Grow the
--     tables as a map of pages, Paging/Translate what the calls do to the addresses, Paging/Owned
--     and Paging/Init the map that `paging_init` sets up.
--   * Sched (sched/sched.c, sched/switch.asm): the task structures in a store, the stacks as words of
--     memory and the registers; `sched_init`, `task_spawn`, `sched_tick`, `task_yield`, `task_exit` and
--     `context_switch`. `kmalloc` is the interface `Alloc`. Sched/Ring has the run queue as a list,
--     Sched/Rounds the ticks, Sched/Exit the end of a task, Sched/Switch the saved registers.
--   * Fat.Table (fs/fat12.c): the cached table, `fat_get`, `fat_put`, `alloc_cluster` and
--     `free_chain`. Fat.Names: `to_83` and `format_name`. Fat.Cwd: `path_push` and `path_pop` on the
--     array `cwd_path`, where `none` is a write outside the array. Fat.Volume: the static variables and
--     the disk as the interface `Disk`, whose two operations stand for drivers/floppy.c. Fat.Dir:
--     `dir_find`, `dir_add` and the walk over the sectors of a directory that all of its users share.
--     Fat.File: `fs_read` and `fs_create`. Fat.Tree: `fs_remove`, `fs_rmdir`, `fs_rmrf`, `fs_mkdir` and
--     `fs_cd`. Fat.Path: `fs_read_path`. Fat.Walks: `fs_readdir`, `fs_complete` and `fs_init`.
--     Fat.Memory is a disk in memory for the runs. The drive's motor and the messages are left out.
--   * Keyboard (drivers/keyboard.c): `keyboard_irq` for the byte that it reads, `kbd_enqueue`,
--     `keyboard_haschar` and `keyboard_getchar`. Keyboard/Ring shows the buffer as a queue,
--     Keyboard/Decode the modifiers and characters, Keyboard/Letters the letter keys, and
--     Keyboard/Sequence runs of both ends.
--   * Mouse (drivers/mouse.c): `mouse_set_bounds`, `feed` and `mouse_irq` for what it reads;
--     Mouse/Bounds has the cursor, Mouse/Packet the stream of bytes.
--   * Editor (shell/editor.c): the text buffer, the lines, the cursor and the keys. Editor/Shifts has
--     the two loops that move characters, Editor/Edits the text as a list, Editor/Lines the cursor
--     against the lines, Editor/Keys the keys of `editor_run`.
--   * Rtc (drivers/rtc.c): `rtc_read` for the registers that it reads, one list element for each round
--     of its loop; Rtc/Decode has the formats of the clock.
--   * Console (drivers/console.c): the cells of the screen, the cursor, its registers and the bytes on
--     the serial line; every function. Console/Cursor has the bounds, Console/Scroll the scrolling
--     cell by cell, Console/Line a line of text, Console/Numbers and Console/Hex the printed numbers.
--   * Net (net/): Net.Wire has the byte order, the addresses and the checksum (net/net.h,
--     `ip_checksum`), Net.State the variables, the card and the timer as the interface `Nic`, and the
--     loop that waits for a frame. Net.Stack is net/net.c up to IPv4 (`eth_send`, `arp_request`,
--     `resolve`, `net_send_ip`, `icmp_echo_reply`, `net_poll`), Net.Udp the two UDP calls, Net.Dns is
--     net/dns.c, Net.Dhcp is net/dhcp.c, Net.Icmp is net/icmp.c and Net.Tcp is net/tcp.c, with its
--     calls in Net/Tcp/Client. A frame is a list of bytes, a field of a header its bytes at an offset.
--     `net_poll` answers a ping through `net_send_ip`, which polls while it resolves an address: the
--     functions take that inner poll as an argument. Net.Bench is a card in memory for the runs.
--   * Timer (drivers/timer.c): the divisor, the tick counter and the sleep. Rtl8139
--     (drivers/rtl8139.c): `rtl8139_send`, `rtl8139_poll` and `rtl8139_reset_rx` on the buffers, for
--     what the registers of the card give; Rtl8139/Ring has the bounds.
--   * Elf (kernel/elf.c): `elf_exec`, `elf_task`, `load_segment` and `ensure_page`. The page tables are
--     the interface `Space`, the heap, the file system and the scheduler the interface `Kernel`.
--     Elf/Exec states how `elf_exec` ends; nothing is stated of the pages that `load_segment` maps.
--   * Syscall (cpu/syscall.c): `syscall_dispatch` on the console of Console.
--   * CString (lib/string.c): `memset`, `memcpy`, `memmove`, `memcmp`, `strcmp` and `strncmp` on one
--     memory of bytes; CString/Blocks says what the first three leave in it, CString/Compare what the
--     others tell.
--
-- Every module X has its definitions in X.antt, and the lemmas in X/. Runs at concrete inputs stand in
-- the modules called Tests.
--
-- Bounds and fuel. Loops are recursion on the number of rounds that the C loop still has, so they need
-- no fuel, except those that follow a chain or read to an end mark. `free_chain` follows a chain in the
-- table: its fuel is shown to be enough as soon as it exceeds the length of the chain. `dir_walk` has
-- fuel in sectors, and any fuel above the number of sectors of the directory is shown to be enough. The
-- loop of `fs_create` and that of `fs_cd` have one round per byte and per character, which is enough
-- because a round takes one at least. `pick_next` and `task_exit` walk the run queue with `ntasks` as
-- fuel, the number of its tasks. `last_cluster`, where a directory grows, has the fuel of the walk.
-- `keyboard_getchar` waits for interrupts; its argument is the list of bytes that still arrive, and it
-- returns `none` when it would sleep on. The loops of net/ that wait for a frame have fuel in rounds,
-- which does not matter as soon as it exceeds the rounds that the clock leaves; those of net/tcp.c over
-- the segments have one unit for each segment, and a poll inside a poll one unit of depth, which no
-- theorem bounds: the code itself nests as often as such frames come. The checksum folds a 32-bit sum in
-- three rounds, and the parsers of names and options have fuel for each byte. Numbers are natural numbers; where the C type wraps and a
-- value can reach its end, the remainder is written out.
--
-- Not modelled: port and memory-mapped I/O, drawing, and what runs on top of the parts above; the
-- drivers of the disks and of the sound card, the start of the network card, the descriptor tables,
-- the shell and the desktop are outside this library.
pub mod Prelude
pub mod Pmm
pub mod Kheap
pub mod Fat
pub mod Keyboard
pub mod Editor
pub mod CString
pub mod Console
pub mod Net
pub mod Elf
pub mod Syscall
pub mod Timer
pub mod Rtl8139
pub mod Rtc
pub mod Mouse
pub mod Sched
pub mod Paging
