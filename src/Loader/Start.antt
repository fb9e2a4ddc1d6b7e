-- ===== src/Loader/Start.antt =====
-- `efi_main` of `bootloader/src/main.rs`. What the firmware returns is a parameter, as the program calls
-- each service at one place. A status is whether it is `EFI_SUCCESS`. Output is left out.
pub mod Enters
use vitr_os.Base.{
  ℕ, zero, suc, ◌+◌, ◌-◌, ◌*◌, ◌/◌, ◌%◌, ◌^◌, min, Bool, true, false, not, ◌&&◌, List, [], ◌∷◌, ltb,
  ◌==◌, if◌then◌else◌, replicate,
}
use vitr_os.Sched.Task.{kernel_virtual_base}
use vitr_os.Boot.{BootInfo, FramebufferInfo, MemoryRegion}
use vitr_os.Acpi.{Memory}
use vitr_os.Loader.Image.{FileSystem, load_kernel_elf}
use vitr_os.Loader.Pages.{Places, BootTables, new, setup_initial_page_tables}

pub record EfiMemoryDescriptor : Type 0 where
  pub region_type : ℕ
  pub physical_start : ℕ
  pub number_of_pages : ℕ

-- A GUID with its eight last bytes as one number.
pub record EfiGuid : Type 0 where
  pub data1 : ℕ
  pub data2 : ℕ
  pub data3 : ℕ
  pub data4 : ℕ

pub record EfiConfigurationTable : Type 0 where
  pub vendor_guid : EfiGuid
  pub vendor_table : ℕ

abbrev pub efi_acpi_20_table_guid : EfiGuid
efi_acpi_20_table_guid = record {
  data1 = 0x8868e871;
  data2 = 0xe4f1;
  data3 = 0x11d3;
  data4 = 0xbc220080c73c8881;
}

abbrev pub efi_acpi_table_guid : EfiGuid
efi_acpi_table_guid = record {
  data1 = 0xeb9d2d30;
  data2 = 0x2d88;
  data3 = 0x11d3;
  data4 = 0x9a160090273fc14d;
}

abbrev pub same_guid : EfiGuid → EfiGuid → Bool
same_guid a b = a.data1 == b.data1 && a.data2 == b.data2 && a.data3 == b.data3 && a.data4 == b.data4

-- What `get_memory_map` returns: the buffer has a descriptor at a byte offset.
pub record MemoryMap : Type 0 where
  pub success : Bool
  pub map_size : ℕ
  pub descriptor_size : ℕ
  pub descriptor_at : ℕ → EfiMemoryDescriptor

abbrev pub buffer_size : ℕ
buffer_size = 4096 * 4

-- The end of a region. The product and the sum wrap.
abbrev pub region_end : EfiMemoryDescriptor → ℕ
region_end desc = (desc.physical_start + desc.number_of_pages * 4096) % 2 ^ 64

-- The loop from entry `i` on, over `n` entries.
unfoldable pub analyze_entries : ℕ → ℕ → MemoryMap → ℕ → ℕ
analyze_entries zero i m max_phys_addr = max_phys_addr
analyze_entries (suc n) i m max_phys_addr =
    let e = region_end (m.descriptor_at (i * m.descriptor_size)) in
    analyze_entries n (suc i) m (if ltb max_phys_addr e then e else max_phys_addr)

unfoldable pub analyze_memory_map : MemoryMap → ℕ → ℕ
unfolding analyze_entries
analyze_memory_map m entry_count = analyze_entries entry_count 0 m 0

-- The search of the configuration tables: the first table of ACPI 2.0, or else the last of ACPI 1.0.
unfoldable pub find_rsdp : List EfiConfigurationTable → ℕ → ℕ
find_rsdp [] rsdp_addr = rsdp_addr
find_rsdp (entry ∷ l) rsdp_addr =
    if same_guid entry.vendor_guid efi_acpi_20_table_guid
    then entry.vendor_table
    else find_rsdp l
        (if same_guid entry.vendor_guid efi_acpi_table_guid then entry.vendor_table else rsdp_addr)

abbrev pub max_memory_regions : ℕ
max_memory_regions = 256

abbrev pub no_region : MemoryRegion
no_region = record { start = 0; size = 0; region_type = 0 }

-- The elements from `i` on of the array of regions, `n` of them: those below `count` are copied.
unfoldable pub copy_regions : ℕ → ℕ → ℕ → MemoryMap → List MemoryRegion
copy_regions zero i count m = []
copy_regions (suc n) i count m =
    let desc = m.descriptor_at (i * m.descriptor_size) in
    (if ltb i count
      then record {
        start = desc.physical_start;
        size = desc.number_of_pages * 4096 % 2 ^ 64;
        region_type = desc.region_type;
      }
      else no_region)
    ∷ copy_regions n (suc i) count m

-- The mode of the graphics output.
pub record GraphicsMode : Type 0 where
  pub frame_buffer_base : ℕ
  pub frame_buffer_size : ℕ
  pub horizontal_resolution : ℕ
  pub vertical_resolution : ℕ

-- `BootInfo::new`, with the fields that are filled in without the memory map.
abbrev pub boot_info_before : GraphicsMode → List EfiConfigurationTable → BootInfo
boot_info_before mode tables = record {
  framebuffer = record {
    base = mode.frame_buffer_base;
    size = mode.frame_buffer_size;
    width = mode.horizontal_resolution;
    height = mode.vertical_resolution;
    stride = mode.horizontal_resolution;
  };
  memory_map = replicate max_memory_regions no_region;
  memory_map_count = 0;
  rsdp_address = find_rsdp tables 0;
  max_physical_address = 0;
}

abbrev pub entry_count : MemoryMap → ℕ
entry_count m = m.map_size / m.descriptor_size

unfoldable pub fill_boot_info : MemoryMap → BootInfo → BootInfo
unfolding copy_regions analyze_memory_map
fill_boot_info m info =
    let count = min (entry_count m) max_memory_regions in
    record info {
      memory_map = copy_regions max_memory_regions 0 count m;
      memory_map_count = count;
      max_physical_address = analyze_memory_map m (entry_count m);
    }

-- `size_query` is the size that the first of the two later calls of `get_memory_map` asks for.
pub record Firmware : Type 0 where
  pub gop_located : Bool
  pub mode : GraphicsMode
  pub memory_map : MemoryMap
  pub configuration_tables : List EfiConfigurationTable
  pub file_system : FileSystem
  pub memory : Memory
  pub size_query : ℕ
  pub later_descriptor_size : ℕ
  pub later_map_success : Bool
  pub exit_success : Bool
  pub places : Places

-- What the kernel is entered with.
pub record Entry : Type 0 where
  pub address : ℕ
  pub boot_info : BootInfo
  pub tables : BootTables
  pub cr3 : ℕ
  pub memory : Memory

pub data Run : Type 0 where
  halted : Run
  panicked : Run
  entered : Entry → Run

-- From the loaded kernel on.
unfoldable pub enter : Firmware → BootInfo → Memory → ℕ → Run
unfolding setup_initial_page_tables
enter f info memory kernel_entry =
    let set = setup_initial_page_tables f.places info.max_physical_address new in
    if kernel_entry == 0
    then Run.halted
    else if ltb buffer_size (f.size_query + f.later_descriptor_size)
    then Run.halted
    else if not f.later_map_success
    then Run.halted
    else if not f.exit_success
    then Run.halted
    else Run.entered (record {
      address = (kernel_entry + kernel_virtual_base) % 2 ^ 64;
      boot_info = info;
      tables = set.0;
      cr3 = set.1;
      memory = memory;
    })

-- A map with descriptors of size 0, or larger than the buffer, panics.
unfoldable pub efi_main : Firmware → Run
unfolding fill_boot_info load_kernel_elf enter find_rsdp
efi_main f =
    let before = boot_info_before f.mode f.configuration_tables in
    let m = f.memory_map in
    let loaded = load_kernel_elf f.file_system f.memory in
    if not f.gop_located
    then Run.halted
    else if not m.success
    then enter f before loaded.0 loaded.1
    else if m.descriptor_size == 0
    then Run.panicked
    else if ltb buffer_size m.map_size
    then Run.panicked
    else enter f (fill_boot_info m before) loaded.0 loaded.1
