-- ===== src/Elf.antt =====
-- kernel/elf.c: the checks on a program file, and the loading of its segments. The rest of the kernel
-- is an interface. The file in memory is a list of bytes; a read behind it gives 0.
pub mod Exec
mod Tests
use package.pumpkin_os.Prelude.{
  ℕ, zero, suc, ◌+◌, ◌-◌, ◌*◌, ◌/◌, ◌%◌, ◌^◌, bit_and, bit_or, ltb, ◌==◌, ◌&&◌, ◌||◌, not,
  if◌then◌else◌, Bool, true, false,
}
use package.pumpkin_os.Prelude.{List, [], ◌∷◌, get_or, take, drop, length}
use package.pumpkin_os.Prelude.Int.{ℤ, pos, negsuc}

-- mm/paging.c and mm/pmm.c, and writes at user addresses. `paging_map` is true for the result 0.
pub record Space (S : Type 0) : Type 0 where
  pub paging_get_phys : ℕ → S → ℕ
  pub paging_map : ℕ → ℕ → ℕ → S → Bool × S
  pub pmm_alloc_frame : S → ℕ × S
  pub pmm_free_frame : ℕ → S → S
  pub memset_page : ℕ → S → S
  pub memcpy_to : ℕ → List ℕ → S → S

-- mm/kheap.c, fs/fat12.c, sched/sched.c and drivers/console.c as the loader calls them. `fs_read`
-- gives its result and the bytes that it puts in the buffer.
pub record Kernel (S : Type 0) : Type 0 where
  pub kmalloc : ℕ → S → ℕ × S
  pub kfree : ℕ → S → S
  pub fs_read : List ℕ → ℕ → S → (ℤ × List ℕ) × S
  pub task_spawn : ℕ → List ℕ → S → S
  pub console_error : S → S

abbrev pub max_elf : ℕ
max_elf = 128 * 1024

abbrev pub ustack_top : ℕ
ustack_top = 0x50000000

abbrev pub page_size : ℕ
page_size = 4096

abbrev pub unmapped : ℕ
unmapped = 0xFFFFFFFF

pub rd16 : List ℕ → ℕ → ℕ
rd16 f p = bit_or (get_or f p 0) (get_or f (p + 1) 0 * 2 ^ 8) % 2 ^ 16

pub rd32 : List ℕ → ℕ → ℕ
rd32 f p =
    bit_or
      (bit_or (bit_or (get_or f p 0) (get_or f (p + 1) 0 * 2 ^ 8)) (get_or f (p + 2) 0 * 2 ^ 16))
      (get_or f (p + 3) 0 * 2 ^ 24)

-- `va & ~(PAGE_SIZE - 1)`
pub page_of : ℕ → ℕ
page_of va = bit_and va (2 ^ 32 - 1 - (page_size - 1))

-- What `elf_task` ends with.
pub data Launch : Type 0 where
  no_memory : Launch
  no_stack : Launch
  enter_user_mode : ℕ → ℕ → Launch

module _ {S : Type 0} (sp : Space S) where
  -- True for the result 0.
  pub ensure_page : ℕ → S → Bool × S
  ensure_page va s =
      let page = page_of va in
      let (frame, s1) = sp.pmm_alloc_frame s in
      let (ok, s2) = sp.paging_map page frame (0x1 + 0x2 + 0x4) s1 in
      if not (sp.paging_get_phys page s == unmapped)
      then (true, s)
      else if frame == 0
      then (false, s1)
      else if ok
      then (true, sp.memset_page page s2)
      else (false, sp.pmm_free_frame frame s2)

  -- A step that is done only after a success.
  abbrev pub and_then : Bool × S → (S → Bool × S) → Bool × S
  and_then (false, s) next = (false, s)
  and_then (true, s) next = next s

  -- The `for` of `load_segment` from address `a` on, with fuel.
  pub map_segment : ℕ → ℕ → ℕ → S → Bool × S
  map_segment zero a end s = (false, s)
  map_segment (suc n) a end s =
      let more = and_then (ensure_page a s) (λ t. map_segment n ((a + page_size) % 2 ^ 32) end t) in
      if ltb a end then more else (true, s)

  -- `if (memsz > 0) ...`
  pub last_page : ℕ → ℕ → S → Bool × S
  last_page vaddr memsz s =
      let mapped = ensure_page ((vaddr + memsz + 2 ^ 32 - 1) % 2 ^ 32) s in
      if memsz == 0 then (true, s) else mapped

  -- One page for each 4096 bytes, and one round to see the end, are enough fuel.
  pub load_segment : List ℕ → ℕ → ℕ → ℕ → ℕ → S → Bool × S
  load_segment elf vaddr off filesz memsz s =
      and_then (map_segment (memsz / page_size + 2) vaddr ((vaddr + memsz) % 2 ^ 32) s) (λ t.
        and_then (last_page vaddr memsz t)
          (λ u. (true, sp.memcpy_to vaddr (take filesz (drop off elf)) u)))

  -- The `for` over the program headers, with `n` to go.
  pub load_headers : List ℕ → ℕ → ℕ → ℕ → ℕ → S → Bool × S
  load_headers elf phoff phentsz i zero s = (true, s)
  load_headers elf phoff phentsz i (suc n) s =
      let ph = phoff + i * phentsz in
      let skipped = load_headers elf phoff phentsz (i + 1) n s in
      let loaded =
        and_then
          (load_segment elf (rd32 elf (ph + 8)) (rd32 elf (ph + 4)) (rd32 elf (ph + 16))
            (rd32 elf (ph + 20)) s)
          (λ t. load_headers elf phoff phentsz (i + 1) n t) in
      if rd32 elf ph == 1 then loaded else skipped

  -- What follows the loop: the file's memory is freed, and a page for the stack is mapped.
  pub enter : Kernel S → ℕ → ℕ → ℕ → Bool × S → Launch × S
  enter k buf job entry (false, s) = (no_memory, k.kfree job (k.kfree buf (k.console_error s)))
  enter k buf job entry (true, s) =
      let (ok, t) = ensure_page (ustack_top - page_size) (k.kfree job (k.kfree buf s)) in
      if ok then (enter_user_mode entry ustack_top, t) else (no_stack, k.console_error t)

  pub elf_task : Kernel S → ℕ → ℕ → List ℕ → S → Launch × S
  elf_task k buf job elf s =
      enter k buf job (rd32 elf 24) (load_headers elf (rd32 elf 28) (rd16 elf 42) 0 (rd16 elf 44) s)

-- The two tests on the header.
pub is_elf : List ℕ → Bool
is_elf buf = not (
    ((not (get_or buf 0 0 == 0x7F) || not (get_or buf 1 0 == b'E'))
      || (not (get_or buf 2 0 == b'L') || not (get_or buf 3 0 == b'F')))
    || (not (get_or buf 4 0 == 1) || not (get_or buf 5 0 == 1)))

pub is_executable : List ℕ → Bool
is_executable buf = not (not (rd16 buf 16 == 2) || not (rd16 buf 18 == 3))

-- `len < 52` of an `int`.
abbrev pub too_short : ℤ → Bool
too_short (pos len) = ltb len 52
too_short (negsuc n) = true

module _ {S : Type 0} (k : Kernel S) where
  -- From the second `kmalloc` on.
  pub spawn_job : ℕ → List ℕ → S → ℤ × S
  spawn_job buf bytes s =
      let (job, s1) = k.kmalloc 8 s in
      if job == 0 then (negsuc 0, k.kfree buf s1) else (pos 0, k.task_spawn job bytes s1)

  -- After `fs_read` into `buf`.
  pub check_file : ℕ → (ℤ × List ℕ) × S → ℤ × S
  check_file buf ((len, bytes), s) =
      if too_short len
      then (negsuc 0, k.kfree buf s)
      else if not (is_elf bytes)
      then (negsuc 0, k.kfree buf s)
      else if not (is_executable bytes)
      then (negsuc 0, k.kfree buf s)
      else spawn_job buf bytes s

  pub elf_exec : List ℕ → S → ℤ × S
  elf_exec path s =
      let (buf, s1) = k.kmalloc max_elf s in
      if buf == 0 then (negsuc 0, s1) else check_file buf (k.fs_read path max_elf s1)
