-- ===== src/Paging/Init.antt =====
-- `init` of `kernel/src/paging.rs`: the direct map of the physical memory at the kernel's base address,
-- without the devices and the guard page, and with the sections of the kernel under their own rights.
pub mod Devices
pub mod Entries
pub mod Rights
pub mod Maps
use vitr_os.Base.{
  ℕ, zero, suc, ◌+◌, ◌-◌, ◌*◌, ◌/◌, ◌%◌, ◌^◌, min, Bool, true, false, ◌&&◌, ◌||◌, Option, none,
  some, List, [], ◌∷◌, length, take, ltb, leb, ◌==◌, if◌then◌else◌, Outcome, ok, err, panic,
}
use mathlib.Core.List.{reverse}
use vitr_os.Boot.{MemoryRegion, BootInfo}
use vitr_os.Paging.{
  PagingError, Tables, PageTable, Result, ◌>>=◌, cleared, set_entry, set_page, set_directory,
  make_entry, map_pages, phys_to_virt, virt_to_phys, present, writable, no_execute, page_size,
  pt_count, page_table_coverage, page_table_entry_count, max_supported_memory_gb, pml4_kernel_index,
}
use vitr_os.Paging.Walk.{Statics}

pub record MmioRange : Type 0 where
  pub start : ℕ
  pub end : ℕ

-- `EFI_MEMORY_MAPPED_IO` and `EFI_MEMORY_MAPPED_IO_PORT_SPACE`.
abbrev pub is_mmio : MemoryRegion → Bool
is_mmio r = r.region_type == 11 || r.region_type == 12

-- The ranges of the first 64 regions of devices; `room` counts down.
unfoldable pub mmio_ranges : ℕ → List MemoryRegion → List MmioRange
mmio_ranges room [] = []
mmio_ranges zero (r ∷ l) = []
mmio_ranges (suc room) (r ∷ l) = elim (is_mmio r) [
  | true ↦ record { start = r.start; end = (r.start + r.size) % 2 ^ 64 } ∷ mmio_ranges room l
  | false ↦ mmio_ranges (suc room) l
]

-- One round of the insertion sort. The sorted part is listed from its last element on, the side from
-- which the loop moves the key down.
unfoldable pub insert_range : MmioRange → List MmioRange → List MmioRange
insert_range key [] = key ∷ []
insert_range key (r ∷ l) =
    let rest = insert_range key l in if ltb key.start r.start then r ∷ rest else key ∷ r ∷ l

unfoldable pub sort_onto : List MmioRange → List MmioRange → List MmioRange
unfolding insert_range
sort_onto sorted [] = sorted
sort_onto sorted (key ∷ l) = sort_onto (insert_range key sorted) l

unfoldable pub extract_mmio_regions : List MemoryRegion → List MmioRange
unfolding mmio_ranges sort_onto
extract_mmio_regions l = reverse (sort_onto [] (mmio_ranges 64 l))

-- `partition_point` finds the end of the ranges that start at or below the address; the last of these
-- is the candidate.
unfoldable pub last_from : ℕ → Option MmioRange → List MmioRange → Option MmioRange
last_from p candidate [] = candidate
last_from p candidate (r ∷ l) =
    let rest = last_from p (some r) l in if leb r.start p then rest else candidate

abbrev pub ends_above : ℕ → Option MmioRange → Bool
ends_above p none = false
ends_above p (some r) = ltb p r.end

unfoldable pub is_mmio_region_binary : ℕ → List MmioRange → Bool
unfolding last_from
is_mmio_region_binary p l = ends_above p (last_from p none l)

-- The symbols of the linker script, and the guard page if there is one.
pub record Symbols : Type 0 where
  pub text_start : ℕ
  pub text_end : ℕ
  pub rodata_start : ℕ
  pub rodata_end : ℕ
  pub data_start : ℕ
  pub bss_end : ℕ
  pub guard_page : Option ℕ

abbrev pub base_flags : ℕ
base_flags = 2 ^ 0 + 2 ^ 1

-- A fallible step that does not touch the tables.
abbrev pub try {ℓ} :
    {A : Type 0} {B : Type ℓ}
    → Outcome PagingError A
    → (A → Tables → Tables × Outcome PagingError B)
    → Tables
    → Tables × Outcome PagingError B
try (ok a) f t = f a t
try (err e) f t = (t, err e)
try panic f t = (t, panic)

unfoldable pub link_directories : Statics → ℕ → Tables → Result (Unit {0})
unfolding virt_to_phys make_entry
link_directories s zero t = (t, ok tt)
link_directories s (suc n) t = link_directories s n t >>= λ _.
    try (virt_to_phys (s.pd + n * page_size))
      (λ p t'. (record t' { pdp_high = set_entry n (make_entry p base_flags) t'.pdp_high }, ok tt))

unfoldable pub link_tables : Statics → ℕ → Tables → Result (Unit {0})
unfolding virt_to_phys make_entry
link_tables s zero t = (t, ok tt)
link_tables s (suc n) t = link_tables s n t >>= λ _.
    try (virt_to_phys (s.pt + n * page_size))
      (λ p t'. (set_directory n (make_entry p base_flags) t', ok tt))

-- Whether `init` maps a page of the direct map: it is in the memory, not in the kernel, no device.
unfoldable pub is_plain : ℕ → ℕ → ℕ → List MmioRange → ℕ → Bool
unfolding is_mmio_region_binary
is_plain actual_max kernel_start kernel_end ranges p =
    if ltb p actual_max
    then (if leb kernel_start p && ltb p kernel_end
        then false
        else if is_mmio_region_binary p ranges
        then false
        else true)
    else false

-- The pages of one table, and those of all tables.
unfoldable pub fill_table : (ℕ → Bool) → ℕ → ℕ → Tables → Tables
unfolding make_entry
fill_table plain pt_idx zero t = t
fill_table plain pt_idx (suc n) t =
    let t' = fill_table plain pt_idx n t in
    let page = pt_idx * page_table_entry_count + n in
    let p = page * page_size in if plain p then set_page page (make_entry p base_flags) t' else t'

unfoldable pub fill_tables : (ℕ → Bool) → ℕ → Tables → Tables
unfolding fill_table
fill_tables plain zero t = t
fill_tables plain (suc n) t = fill_table plain n page_table_entry_count (fill_tables plain n t)

unfoldable pub guard : Option ℕ → Tables → Result (Unit {0})
unfolding virt_to_phys make_entry
guard none t = (t, ok tt)
guard (some v) t =
    try (virt_to_phys v)
      (λ p t'.
        let page = p / 2 ^ 12 in
        if leb pt_count (page / page_table_entry_count)
        then (t', err PagingError.guard_page_setup_failed)
        else if leb page_table_entry_count (page % page_table_entry_count)
        then (t', err PagingError.guard_page_setup_failed)
        else (set_page page (make_entry p 0) t', ok tt))
      t

-- The range by steps of a page; an index out of the array of tables panics.
unfoldable pub map_section : ℕ → ℕ → ℕ → Tables → Result (Unit {0})
unfolding map_pages
map_section start end flags t =
    map_pages panic ((end - start + page_size - 1) / page_size) 0 start flags t

abbrev pub text_flags : ℕ
text_flags = 2 ^ 0

abbrev pub rodata_flags : ℕ
rodata_flags = 2 ^ 0 + 2 ^ 63

abbrev pub data_flags : ℕ
data_flags = 2 ^ 0 + 2 ^ 1 + 2 ^ 63

unfoldable pub map_sections : Symbols → Tables → Result (Unit {0})
unfolding virt_to_phys map_section
map_sections y = try (virt_to_phys y.text_start) λ text_start.
    try (virt_to_phys y.text_end) λ text_end. try (virt_to_phys y.rodata_start) λ rodata_start.
      try (virt_to_phys y.rodata_end) λ rodata_end. try (virt_to_phys y.data_start) λ data_start.
        try (virt_to_phys y.bss_end) λ bss_end t.
          map_section text_start text_end text_flags t
          >>= (λ _. map_section rodata_start rodata_end rodata_flags)
          >>= (λ _. map_section data_start bss_end data_flags)

abbrev pub actual_max : BootInfo → ℕ
actual_max b = min b.max_physical_address (max_supported_memory_gb * 2 ^ 30)

abbrev pub required_pt_count : BootInfo → ℕ
required_pt_count b = (actual_max b + page_table_coverage - 1) / page_table_coverage

abbrev pub no_tables : Tables → Tables
no_tables t = record t {
  pml4 = cleared;
  pdp_high = cleared;
  pd_high = λ _. cleared;
  pt_high = λ _. cleared;
}

abbrev pub set_root : ℕ → Tables → Result (Unit {0})
set_root p t =
    (record t { pml4 = set_entry pml4_kernel_index (make_entry p base_flags) t.pml4 }, ok tt)

abbrev pub plain_pages : Symbols → BootInfo → ℕ → ℕ → ℕ → Bool
plain_pages y b kernel_start kernel_end =
    is_plain (actual_max b) kernel_start kernel_end
      (extract_mmio_regions (take (min b.memory_map_count (length b.memory_map)) b.memory_map))

unfoldable pub fill : Symbols → BootInfo → Tables → Result (Unit {0})
fill y b = try (virt_to_phys y.text_start) λ kernel_start.
    try (virt_to_phys y.bss_end) λ kernel_end t.
      (fill_tables (plain_pages y b kernel_start kernel_end) (required_pt_count b) t, ok tt)

unfoldable pub init : Statics → Symbols → BootInfo → Tables → Result (Unit {0})
init s y b t =
    try (virt_to_phys s.pdp) set_root (no_tables t)
    >>= (λ _. link_directories s ((required_pt_count b + 511) / 512))
    >>= (λ _. link_tables s (required_pt_count b))
    >>= (λ _. fill y b)
    >>= (λ _. guard y.guard_page)
    >>= (λ _. map_sections y)
    >>= λ _. try (virt_to_phys s.pml4) λ p t'. (record t' { cr3 = p }, ok tt)
