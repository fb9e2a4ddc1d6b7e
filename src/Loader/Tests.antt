-- ===== src/Loader/Tests.antt =====
-- The theorems about the boot loader at concrete inputs, and tests.
use vitr_os.Base.{
  ℕ, ◌+◌, ◌*◌, ◌/◌, ◌%◌, ◌^◌, ◌<◌, ◌≡◌, ◌≢◌, refl, inl, true, List, [], ◌∷◌, get_or, none, some,
  if◌then◌else◌, ◌==◌, arith,
}
use vitr_os.Sched.Task.{kernel_virtual_base}
use vitr_os.Acpi.{Memory}
use vitr_os.Loader.Image.{
  FileSystem, elf_header, program_header, pt_load, is_valid, load_kernel_elf,
}
use vitr_os.Loader.Image.Loaded.{
  IsReadable, Misses, header, extent, segment_byte, load_kernel_elf-loads,
}
use vitr_os.Loader.Image.Entered.{HasOffset, load_kernel_elf-enters}
use vitr_os.Loader.Pages.{Places, new, setup_initial_page_tables, huge_flags}
use vitr_os.Loader.Pages.Windows.{IsPlaced, walk, expected}
use vitr_os.Loader.Pages.Setup.{setup-walk}
use vitr_os.Loader.Start.{
  Firmware, Entry, entered, entry_count, efi_main, MemoryMap, analyze_memory_map,
}
use vitr_os.Loader.Start.Enters.{IsUp, end_of, memory_end, efi_main-enters}

-- A file with one segment: two bytes that are loaded at 1 MB, with room for four.
abbrev kernel_bytes : List ℕ
kernel_bytes =
    0x7F ∷ 0x45 ∷ 0x4C ∷ 0x46 ∷ 2 ∷ 1 ∷ 1 ∷ 0 ∷ 0 ∷ 0 ∷ 0 ∷ 0 ∷ 0 ∷ 0 ∷ 0 ∷ 0 ∷ 2 ∷ 0 ∷ 0x3E ∷ 0 ∷ 1
    ∷ 0 ∷ 0 ∷ 0 ∷ 1 ∷ 0 ∷ 0x10 ∷ 0 ∷ 0 ∷ 0x80 ∷ 0xFF ∷ 0xFF ∷ 64 ∷ 0 ∷ 0 ∷ 0 ∷ 0 ∷ 0 ∷ 0 ∷ 0 ∷ 0 ∷ 0
    ∷ 0 ∷ 0 ∷ 0 ∷ 0 ∷ 0 ∷ 0 ∷ 0 ∷ 0 ∷ 0 ∷ 0 ∷ 64 ∷ 0 ∷ 56 ∷ 0 ∷ 1 ∷ 0 ∷ 0 ∷ 0 ∷ 0 ∷ 0 ∷ 0 ∷ 0 ∷ 1
    ∷ 0 ∷ 0 ∷ 0 ∷ 5 ∷ 0 ∷ 0 ∷ 0 ∷ 120 ∷ 0 ∷ 0 ∷ 0 ∷ 0 ∷ 0 ∷ 0 ∷ 0 ∷ 0 ∷ 0 ∷ 0x10 ∷ 0 ∷ 0 ∷ 0x80
    ∷ 0xFF ∷ 0xFF ∷ 0 ∷ 0 ∷ 0x10 ∷ 0 ∷ 0 ∷ 0 ∷ 0 ∷ 0 ∷ 2 ∷ 0 ∷ 0 ∷ 0 ∷ 0 ∷ 0 ∷ 0 ∷ 0 ∷ 4 ∷ 0 ∷ 0 ∷ 0
    ∷ 0 ∷ 0 ∷ 0 ∷ 0 ∷ 0 ∷ 0x10 ∷ 0 ∷ 0 ∷ 0 ∷ 0 ∷ 0 ∷ 0 ∷ 0xFA ∷ 0xF4 ∷ []

abbrev file : Memory
file a = get_or kernel_bytes a 0

abbrev disk : FileSystem
disk = record {
  located = true;
  volume_opened = true;
  kernel_opened = true;
  read = true;
  file = file;
}

abbrev unset : Memory
unset a = 0xCC

disk-IsReadable : IsReadable disk
unfolding is_valid elf_header
disk-IsReadable = record {
  located = refl;
  volume_opened = refl;
  kernel_opened = refl;
  read = refl;
  valid = refl;
}

file-e_phnum : (elf_header file).e_phnum ≡ 1
unfolding elf_header
file-e_phnum = refl

load_kernel_elf-loads_example :
    ((k j : ℕ)
      → k < (elf_header file).e_phnum
      → (header (elf_header file) file k).p_type ≡ pt_load
      → j < extent (header (elf_header file) file k)
      → (load_kernel_elf disk unset).0 ((header (elf_header file) file k).p_paddr + j)
        ≡ segment_byte file (header (elf_header file) file k) j)
    × ((x : ℕ)
        → ((k : ℕ) → k < (elf_header file).e_phnum → Misses (header (elf_header file) file k) x)
        → (load_kernel_elf disk unset).0 x ≡ unset x)
load_kernel_elf-loads_example =
    load_kernel_elf-loads disk unset disk-IsReadable
      (λ p q a b n. absurd (n (omega (arith, a, b, file-e_phnum))))

segment-HasOffset :
    (m : ℕ)
    → m < (elf_header file).e_phnum
    → (header (elf_header file) file m).p_type ≡ pt_load
    → HasOffset kernel_virtual_base (header (elf_header file) file m)
unfolding elf_header program_header
segment-HasOffset m l t =
    let z : 0 ≡ m = omega (arith, l, file-e_phnum) in
    rw (← z)
      (record { virtual_address = omega arith; physical_address = omega arith; offset = refl })

load_kernel_elf-enters_example :
    (load_kernel_elf disk unset).1 ≡ (header (elf_header file) file 0).p_paddr + 1
unfolding elf_header program_header
load_kernel_elf-enters_example =
    load_kernel_elf-enters disk unset kernel_virtual_base 0 1 disk-IsReadable segment-HasOffset
      (omega arith) refl refl (omega arith) (omega arith)

entry_runs : (load_kernel_elf disk unset).1 ≡ 0x100001
unfolding load_kernel_elf
entry_runs = refl

-- The tables one after the other.
abbrev places : Places
places = record {
  boot_pml4 = 0x200000;
  boot_pdp_low = 0x201000;
  boot_pdp_high = 0x202000;
  boot_pd_low = 0x203000;
  boot_pd_high = 0x20B000;
}

places-IsPlaced : IsPlaced places
places-IsPlaced = record {
  pdp_low = (refl, omega arith);
  pdp_high = (refl, omega arith);
  pd_low = (refl, omega arith);
  pd_high = (refl, omega arith);
  pdps = λ e. omega (arith, e);
  low_low = inl (omega arith);
  low_high = inl (omega arith);
  high_low = inl (omega arith);
  high_high = inl (omega arith);
  pds = inl (omega arith);
}

setup-walk_example :
    ((setup_initial_page_tables places 0x40000000 new).1 ≡ 0x200000)
    × ((a : ℕ)
        → a < 2 ^ 39
        → (walk places (setup_initial_page_tables places 0x40000000 new).0 a
            ≡ expected 0x40000000 a)
          × (walk places
                (setup_initial_page_tables places 0x40000000 new).0
                (kernel_virtual_base + a)
              ≡ expected 0x40000000 a))
    × ((v : ℕ)
        → v / 2 ^ 39 % 512 ≢ 0
        → v / 2 ^ 39 % 512 ≢ 256
        → walk places (setup_initial_page_tables places 0x40000000 new).0 v ≡ none)
setup-walk_example = setup-walk places places-IsPlaced 0x40000000 (omega arith)

-- Two regions.
abbrev sample_map : MemoryMap
sample_map = record {
  success = true;
  map_size = 96;
  descriptor_size = 48;
  descriptor_at = λ offset.
      if offset == 0
      then record { region_type = 7; physical_start = 0; number_of_pages = 160 }
      else record { region_type = 7; physical_start = 0x100000; number_of_pages = 0x3FF00 };
}

abbrev sample_firmware : Firmware
sample_firmware = record {
  gop_located = true;
  mode = record {
    frame_buffer_base = 0x80000000;
    frame_buffer_size = 0x1D4C00;
    horizontal_resolution = 800;
    vertical_resolution = 600;
  };
  memory_map = sample_map;
  configuration_tables = [];
  file_system = disk;
  memory = unset;
  size_query = 96;
  later_descriptor_size = 48;
  later_map_success = true;
  exit_success = true;
  places = places;
}

sample-memory_end : memory_end sample_firmware ≡ 0x40000000
unfolding analyze_memory_map
sample-memory_end = refl

sample-IsUp : IsUp sample_firmware
sample-IsUp = record {
  gop_located = refl;
  map_success = refl;
  descriptors = omega arith;
  fits = omega arith;
  loaded = λ e. omega (arith, e, entry_runs);
  later_fits = omega arith;
  later_map_success = refl;
  exit_success = refl;
}

efi_main-enters_example :
    (e : Entry) × (efi_main sample_firmware ≡ entered e)
    × (e.address ≡ ((load_kernel_elf disk unset).1 + kernel_virtual_base) % 2 ^ 64)
    × (e.cr3 ≡ 0x200000)
    × ((i a : ℕ)
        → i < entry_count sample_map
        → a < end_of sample_map i
        → a < 2 ^ 33
        → (walk places e.tables a ≡ some (a, a / 2 ^ 21 * 2 ^ 21 + huge_flags))
          × (walk places e.tables (kernel_virtual_base + a)
              ≡ some (a, a / 2 ^ 21 * 2 ^ 21 + huge_flags)))
efi_main-enters_example =
    efi_main-enters sample_firmware sample-IsUp places-IsPlaced (omega (arith, sample-memory_end))
