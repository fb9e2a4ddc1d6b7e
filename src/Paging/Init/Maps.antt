-- ===== src/Paging/Init/Maps.antt =====
-- `init` sets up the direct map, with the rights of each page.
use vitr_os.Base.{ℕ, ◌+◌, ◌-◌, ◌*◌, ◌/◌, ◌^◌, ◌<◌, ◌≡◌, Option, ◌==◌}
use vitr_os.Sched.Task.{kernel_virtual_base}
use vitr_os.Boot.{BootInfo}
use vitr_os.Paging.{Tables, make_entry, set_entry, page_size, cleared, page_table_entry_count}
use vitr_os.Paging.Walk.{Statics}
use vitr_os.Paging.Mmio.{page_entry}
use vitr_os.Paging.Init.{
  Symbols, required_pt_count, base_flags, text_flags, rodata_flags, data_flags, plain_pages,
}
use vitr_os.Paging.Init.Entries.{
  override, or_else, only_if, plain_entry, section_entry, directory_entry,
}
use vitr_os.Paging.Init.Rights.{phys}

abbrev section_entries : Symbols → ℕ → Option ℕ
section_entries y p = or_else (section_entry (phys y.data_start) (phys y.bss_end) data_flags p) (
    or_else (section_entry (phys y.rodata_start) (phys y.rodata_end) rodata_flags p)
      (section_entry (phys y.text_start) (phys y.text_end) text_flags p))

-- Everything that `init` writes into the page tables.
abbrev new_entries : Symbols → BootInfo → ℕ → ℕ → Option ℕ
new_entries y b v p = or_else (section_entries y p) (
    or_else (only_if (p == phys v / 2 ^ 12) (make_entry (phys v) 0)) (
      plain_entry (plain_pages y b (phys y.text_start) (phys y.bss_end)) 0
        (required_pt_count b * page_table_entry_count) p))

-- The tables after `init`.
record Done (s : Statics) (y : Symbols) (b : BootInfo) (v : ℕ) (t : Tables) : Type 0 where
  cr3 : t.cr3 ≡ phys s.pml4
  root : t.pml4 ≡ set_entry 256 (make_entry (phys s.pdp) base_flags) cleared
  directories :
      (i : ℕ)
      → i < (required_pt_count b + 511) / 512
      → t.pdp_high i ≡ make_entry (s.pd + i * page_size - kernel_virtual_base) base_flags
  tables :
      (i : ℕ)
      → i < required_pt_count b
      → directory_entry t i ≡ make_entry (s.pt + i * page_size - kernel_virtual_base) base_flags
  entries : (p : ℕ) → page_entry t p ≡ override (new_entries y b v p) 0
