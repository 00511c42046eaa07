-- ===== src/Elf/Exec.antt =====
-- `elf_exec` of kernel/elf.c: what it accepts, and what it frees when it does not.
use pumpkin_os.Prelude.{ℕ, ◌≡◌, ◌≢◌, ◌≤◌, ◌⊎◌, List, get_or}
use pumpkin_os.Prelude.Int.{ℤ, pos, negsuc}
use pumpkin_os.Elf.{Kernel, max_elf, rd16}

-- A file of 52 bytes at least with the header of a 32-bit little-endian i386 executable.
pub record IsProgram (len : ℤ) (f : List ℕ) : Type 0 where
  pub long : (n : ℕ) × (len ≡ pos n) × (52 ≤ n)
  pub ident :
      (get_or f 0 0 ≡ 0x7F) × (get_or f 1 0 ≡ b'E') × (get_or f 2 0 ≡ b'L') × (get_or f 3 0 ≡ b'F')
  pub class : (get_or f 4 0 ≡ 1) × (get_or f 5 0 ≡ 1)
  pub type : (rd16 f 16 ≡ 2) × (rd16 f 18 ≡ 3)

module _ {S : Type 0} (k : Kernel S) where
  -- How a call ends, from the buffer `buf`, the file read into it, and the state `s` after that.
  pub data Ends (buf : ℕ) (len : ℤ) (bytes : List ℕ) (s : S) (r : ℤ × S) : Type 0 where
    no_program : (IsProgram len bytes → ⊥) → r ≡ (negsuc 0, k.kfree buf s) → Ends buf len bytes s r
    no_job :
        IsProgram len bytes
        → (k.kmalloc 8 s).0 ≡ 0
        → r ≡ (negsuc 0, k.kfree buf (k.kmalloc 8 s).1)
        → Ends buf len bytes s r
    spawned :
        IsProgram len bytes
        → (k.kmalloc 8 s).0 ≢ 0
        → r ≡ (pos 0, k.task_spawn (k.kmalloc 8 s).0 bytes (k.kmalloc 8 s).1)
        → Ends buf len bytes s r

  -- The state after the file was read.
  abbrev read_file : List ℕ → S → (ℤ × List ℕ) × S
  read_file path s = k.fs_read path max_elf (k.kmalloc max_elf s).1

  -- The result of `elf_exec`: -1 without a buffer; otherwise as above, after the file was read.
  abbrev pub Result : List ℕ → S → ℤ × S → Type 0
  Result path s r =
      let buf = (k.kmalloc max_elf s).0 in
      let file = read_file path s in
      ((buf ≡ 0) × (r ≡ (negsuc 0, (k.kmalloc max_elf s).1)))
      ⊎ ((buf ≢ 0) × Ends buf file.0.0 file.0.1 file.1 r)
