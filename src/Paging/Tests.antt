-- ===== src/Paging/Tests.antt =====
-- The theorems about the page tables at concrete inputs, and tests.
use vitr_os.Base.{
  ℕ, ◌+◌, ◌-◌, ap, ◌*◌, ◌^◌, ◌<◌, ◌≡◌, refl, inl, true, false, some, [], ◌∷◌, if◌then◌else◌, ok,
  err, arith,
}
use vitr_os.Sched.Task.{kernel_virtual_base}
use vitr_os.Boot.{BootInfo}
use vitr_os.Paging.{
  PagingError, Tables, cleared, make_entry, get_address, is_present, phys_to_virt, virt_to_phys,
  map_mmio, uc_flags,
}
use vitr_os.Paging.Walk.{Statics, IsPlaced, IsLinked, walk}
use vitr_os.Paging.Mmio.{of_device, uncached, map_mmio-walk}
use vitr_os.Paging.Init.{Symbols, extract_mmio_regions, is_mmio_region_binary}

abbrev statics : Statics
statics = record {
  pml4 = kernel_virtual_base + 0x200000;
  pdp = kernel_virtual_base + 0x201000;
  pd = kernel_virtual_base + 0x210000;
  pt = kernel_virtual_base + 0x300000;
}

abbrev symbols : Symbols
symbols = record {
  text_start = kernel_virtual_base + 0x100000;
  text_end = kernel_virtual_base + 0x120800;
  rodata_start = kernel_virtual_base + 0x121000;
  rodata_end = kernel_virtual_base + 0x130000;
  data_start = kernel_virtual_base + 0x130000;
  bss_end = kernel_virtual_base + 0x1400000;
  guard_page = some (kernel_virtual_base + 0x1400000);
}

abbrev boot_info : BootInfo
boot_info = record {
  framebuffer = record {
    base = 0x80000000;
    size = 0x400000;
    width = 1024;
    height = 768;
    stride = 1024;
  };
  memory_map =
      record { start = 0; size = 0x8000000; region_type = 7 }
      ∷ record { start = 0x9000000; size = 0x1000; region_type = 11 }
      ∷ record { start = 0x8000000; size = 0x2000; region_type = 12 }
      ∷ [];
  memory_map_count = 3;
  rsdp_address = 0xE0000;
  max_physical_address = 0x10000000;
}

abbrev pub empty_tables : Tables
empty_tables = record {
  pml4 = cleared;
  pdp_high = cleared;
  pd_high = λ _. cleared;
  pt_high = λ _. cleared;
  cr3 = 0;
}

statics-IsPlaced : IsPlaced statics
statics-IsPlaced = record {
  pml4 = omega arith;
  pdp = (omega arith, omega arith);
  pd = (omega arith, omega arith);
  pt = (omega arith, omega arith);
  pdp_aligned = refl;
  pd_aligned = refl;
  pt_aligned = refl;
  pdp_pd = inl (omega arith);
  pdp_pt = inl (omega arith);
  pd_pt = inl (omega arith);
}

entry_fields :
    (get_address (make_entry 0x1234000 uc_flags) ≡ 0x1234000)
    × (is_present (make_entry 0x1234000 uc_flags) ≡ true)
    × (is_present (make_entry 0x1234000 0) ≡ false)
unfolding make_entry get_address is_present
entry_fields = (refl, refl, refl)

conversions :
    (virt_to_phys (kernel_virtual_base + 0x5000) ≡ ok 0x5000)
    × (virt_to_phys 0x5000 ≡ err PagingError.invalid_address)
    × (phys_to_virt 0x5000 ≡ ok (kernel_virtual_base + 0x5000))
unfolding phys_to_virt virt_to_phys
conversions = (refl, refl, refl)

devices_are_sorted :
    extract_mmio_regions boot_info.memory_map
    ≡ record { start = 0x8000000; end = 0x8002000 }
      ∷ record { start = 0x9000000; end = 0x9001000 }
      ∷ []
unfolding extract_mmio_regions
devices_are_sorted = refl

-- Only the last range that starts at or below the address is looked at.
overlapping_devices :
    is_mmio_region_binary 0x5000
      (record { start = 0; end = 0x10000 } ∷ record { start = 0x2000; end = 0x3000 } ∷ [])
    ≡ false
unfolding is_mmio_region_binary
overlapping_devices = refl

-- All upper levels lead to their tables; no page is mapped.
abbrev linked_tables : Tables
linked_tables = record {
  pml4 = λ _. make_entry 0x201000 3;
  pdp_high = λ i. make_entry (statics.pd + i * 2 ^ 12 - kernel_virtual_base) 3;
  pd_high = λ i j. make_entry (statics.pt + (i * 512 + j) * 2 ^ 12 - kernel_virtual_base) 3;
  pt_high = λ _. cleared;
  cr3 = 0x200000;
}

linked_tables-IsLinked : (a : ℕ) → a < 2 ^ 33 → IsLinked statics linked_tables a
linked_tables-IsLinked a h = record {
  cr3 = refl;
  pml4 = refl;
  pdp = refl;
  pd = ap (λ n. make_entry (statics.pt + n * 2 ^ 12 - kernel_virtual_base) 3) (omega arith);
}

map_mmio-walk_example :
    (t' : Tables) × (map_mmio false 0xFED00000 0x400 linked_tables
      ≡ (t', ok (kernel_virtual_base + 0xFED00000)))
    × ((a : ℕ)
        → a < 2 ^ 33
        → IsLinked statics t' a
          × (walk statics t' (kernel_virtual_base + a) ≡ (
              if of_device 0xFED00000 0x400 a
              then some (a, uncached a)
              else walk statics linked_tables (kernel_virtual_base + a))))
map_mmio-walk_example =
    map_mmio-walk statics linked_tables 0xFED00000 0x400 statics-IsPlaced refl (omega arith)
      (omega arith) (omega arith) linked_tables-IsLinked
