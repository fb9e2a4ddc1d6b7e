-- ===== src/Loader/Image.antt =====
-- `load_kernel_elf` of `bootloader/src/main.rs`, and the header of `common/src/elf.rs`. The file is the
-- buffer that it was read into, by offset. Nothing bounds the offsets, so the function goes on behind
-- the buffer. A byte of the memory stands at its physical address.
pub mod Loaded
pub mod Entered
use vitr_os.Base.{
  ℕ, zero, suc, ◌+◌, ◌-◌, ◌*◌, ◌%◌, ◌^◌, ◌≤◌, ◌<◌, Bool, true, false, not, ◌&&◌, Option, none, some,
  List, [], ◌∷◌, ltb, leb, ◌==◌, if◌then◌else◌,
}
use vitr_os.Acpi.{Memory, read_bytes, has_signature}

abbrev pub elf_magic : List ℕ
elf_magic = 0x7F ∷ 0x45 ∷ 0x4C ∷ 0x46 ∷ []

abbrev pub elf_class_64 : ℕ
elf_class_64 = 2

abbrev pub pt_load : ℕ
pt_load = 1

-- The fields that are read, of `Elf64Header`.
pub record Elf64Header : Type 0 where
  pub e_ident : Memory
  pub e_entry : ℕ
  pub e_phoff : ℕ
  pub e_phnum : ℕ

pub record Elf64ProgramHeader : Type 0 where
  pub p_type : ℕ
  pub p_flags : ℕ
  pub p_offset : ℕ
  pub p_vaddr : ℕ
  pub p_paddr : ℕ
  pub p_filesz : ℕ
  pub p_memsz : ℕ
  pub p_align : ℕ

-- The view of the file as a header, by the layout of the fields.
unfoldable pub elf_header : Memory → Elf64Header
unfolding read_bytes
elf_header file = record {
  e_ident = file;
  e_entry = read_bytes 8 file 24;
  e_phoff = read_bytes 8 file 32;
  e_phnum = read_bytes 2 file 56;
}

unfoldable pub program_header : Memory → ℕ → Elf64ProgramHeader
unfolding read_bytes
program_header file a = record {
  p_type = read_bytes 4 file a;
  p_flags = read_bytes 4 file (a + 4);
  p_offset = read_bytes 8 file (a + 8);
  p_vaddr = read_bytes 8 file (a + 16);
  p_paddr = read_bytes 8 file (a + 24);
  p_filesz = read_bytes 8 file (a + 32);
  p_memsz = read_bytes 8 file (a + 40);
  p_align = read_bytes 8 file (a + 48);
}

unfoldable pub is_valid : Elf64Header → Bool
unfolding has_signature
is_valid h = has_signature elf_magic h.e_ident 0 && h.e_ident 4 == elf_class_64

-- `copy_nonoverlapping` and `write_bytes`, on a range that does not reach the end of the memory.
unfoldable pub copy_bytes : Memory → ℕ → ℕ → ℕ → Memory → Memory
copy_bytes file offset dst n memory x =
    if leb dst x && ltb x (dst + n) then file (offset + (x - dst)) else memory x

unfoldable pub zero_bytes : ℕ → ℕ → Memory → Memory
zero_bytes dst n memory x = if leb dst x && ltb x (dst + n) then 0 else memory x

-- What the loop changes.
pub record Progress : Type 0 where
  pub memory : Memory
  pub kernel_virt_offset : Option ℕ

-- The difference of the first segment that is linked at another address. The subtraction wraps.
abbrev pub note_offset : Elf64ProgramHeader → Option ℕ → Option ℕ
note_offset ph (some offset) = some offset
note_offset ph none =
    if not (ph.p_vaddr == ph.p_paddr)
    then some ((ph.p_vaddr + 2 ^ 64 - ph.p_paddr) % 2 ^ 64)
    else none

unfoldable pub load_segment : Memory → Elf64ProgramHeader → Progress → Progress
unfolding copy_bytes zero_bytes
load_segment file ph s =
    let copied = copy_bytes file ph.p_offset ph.p_paddr ph.p_filesz s.memory in
    if ph.p_type == pt_load
    then record {
      kernel_virt_offset = note_offset ph s.kernel_virt_offset;
      memory =
          if ltb ph.p_filesz ph.p_memsz
          then zero_bytes (ph.p_paddr + ph.p_filesz) (ph.p_memsz - ph.p_filesz) copied
          else copied;
    }
    else s

-- The program headers from number `i` on, `n` of them. A header takes 56 bytes.
unfoldable pub load_segments : ℕ → ℕ → Elf64Header → Memory → Progress → Progress
unfolding load_segment program_header
load_segments zero i h file s = s
load_segments (suc n) i h file s =
    load_segments n (suc i) h file (load_segment file (program_header file (h.e_phoff + i * 56)) s)

abbrev pub physical_entry : Elf64Header → Option ℕ → ℕ
physical_entry h none = h.e_entry
physical_entry h (some offset) = (h.e_entry + 2 ^ 64 - offset) % 2 ^ 64

-- What the file services of the firmware return, as whether each succeeds, and the buffer.
pub record FileSystem : Type 0 where
  pub located : Bool
  pub volume_opened : Bool
  pub kernel_opened : Bool
  pub read : Bool
  pub file : Memory

-- The entry point, 0 for a failure, with the memory.
unfoldable pub load_kernel_elf : FileSystem → Memory → Memory × ℕ
unfolding is_valid load_segments elf_header
load_kernel_elf fs memory =
    let h = elf_header fs.file in
    let s =
      load_segments h.e_phnum 0 h fs.file (record { memory = memory; kernel_virt_offset = none }) in
    if not fs.located
    then (memory, 0)
    else if not fs.volume_opened
    then (memory, 0)
    else if not fs.kernel_opened
    then (memory, 0)
    else if not fs.read
    then (memory, 0)
    else if not (is_valid h)
    then (memory, 0)
    else (s.memory, physical_entry h s.kernel_virt_offset)
