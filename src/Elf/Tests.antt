-- ===== src/Elf/Tests.antt =====
-- The theorems about kernel/elf.c at concrete inputs.
use pumpkin_os.Prelude.{
  ℕ, ◌+◌, ◌≡◌, refl, List, [], ◌∷◌, ◌++◌, true, update, replicate, length, take,
}
use pumpkin_os.Prelude.Int.{pos, negsuc}
use pumpkin_os.Elf.{
  Space, Kernel, Launch, unmapped, rd16, rd32, page_of, ensure_page, map_segment, last_page,
  load_segment, load_headers, enter, elf_task, is_elf, is_executable, spawn_job, check_file,
  elf_exec,
}

-- Where each page leads.
abbrev pages : Space (ℕ → ℕ)
pages = record {
  paging_get_phys = λ page s. s page;
  paging_map = λ page frame flags s. (true, update page 0 s);
  pmm_alloc_frame = λ s. (4096, s);
  pmm_free_frame = λ frame s. s;
  memset_page = λ page s. s;
  memcpy_to = λ a bs s. s;
}

-- A header of 52 bytes.
abbrev header : List ℕ
header = 0x7F ∷ b'E' ∷ b'L' ∷ b'F' ∷ 1 ∷ 1 ∷ (replicate 10 0 ++ (2 ∷ 0 ∷ 3 ∷ 0 ∷ replicate 32 0))

-- The pointers that were freed, and the programs that were started.
abbrev kernel : List ℕ → Kernel (List ℕ × List ℕ)
kernel file = record {
  kmalloc = λ size s. (4096 + size, s);
  kfree = λ p s. (p ∷ s.0, s.1);
  fs_read = λ path max s. ((pos (length file), file), s);
  task_spawn = λ job bytes s. (s.0, job ∷ s.1);
  console_error = λ s. s;
}

exec-run :
    (elf_exec (kernel header) (b'a' ∷ []) ([], []) ≡ (pos 0, ([], 4104 ∷ [])))
    × (elf_exec (kernel (take 51 header)) (b'a' ∷ []) ([], []) ≡ (negsuc 0, (135168 ∷ [], [])))
    × (elf_exec (kernel (replicate 52 0)) (b'a' ∷ []) ([], []) ≡ (negsuc 0, (135168 ∷ [], [])))
unfolding elf_exec check_file is_elf is_executable rd16 spawn_job
exec-run = (refl, refl, refl)

-- A kernel that does nothing.
abbrev quiet : Kernel (ℕ → ℕ)
quiet = record {
  kmalloc = λ size s. (0, s);
  kfree = λ p s. s;
  fs_read = λ path max s. ((negsuc 0, []), s);
  task_spawn = λ job bytes s. s;
  console_error = λ s. s;
}

-- A file without segments ends in user mode with its stack mapped.
task-run :
    (elf_task pages quiet 1 2 (replicate 24 0 ++ (0x34 ∷ 0x12 ∷ replicate 26 0)) (λ _. unmapped)).0
    ≡ Launch.enter_user_mode 0x1234 0x50000000
unfolding elf_task load_headers enter ensure_page rd16 rd32
task-run = refl

segment-run :
    let (ok, s) = load_segment pages [] 0x8048FFF 0 0 2 (λ _. unmapped) in
    (ok ≡ true) × (s 0x8048000 ≡ 0) × (s 0x8049000 ≡ 0) × (s 0x804A000 ≡ unmapped)
unfolding load_segment map_segment last_page ensure_page page_of
segment-run = (refl, refl, refl, refl)
