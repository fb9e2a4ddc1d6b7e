-- ===== src/Loader/Pages.antt =====
-- `setup_initial_page_tables` of `bootloader/src/main.rs`. The tables are the static ones, which the
-- program writes into, at addresses that are parameters.
pub mod Windows
pub mod Maps
pub mod Setup
use Prim.Native.Nat.{bit_or}
use vitr_os.Base.{ℕ, zero, suc, ◌+◌, ◌-◌, ◌*◌, ◌/◌, ◌%◌, ◌^◌, min, ltb, if◌then◌else◌}
use vitr_os.Paging.{PageTable, set_entry, set_table, cleared}

abbrev pub page_present : ℕ
page_present = 2 ^ 0

abbrev pub page_writable : ℕ
page_writable = 2 ^ 1

abbrev pub page_huge : ℕ
page_huge = 2 ^ 7

-- The addresses of the tables.
pub record Places : Type 0 where
  pub boot_pml4 : ℕ
  pub boot_pdp_low : ℕ
  pub boot_pdp_high : ℕ
  pub boot_pd_low : ℕ
  pub boot_pd_high : ℕ

pub record BootTables : Type 0 where
  pub pml4 : PageTable
  pub pdp_low : PageTable
  pub pdp_high : PageTable
  pub pd_low : ℕ → PageTable
  pub pd_high : ℕ → PageTable

abbrev pub new : BootTables
new = record {
  pml4 = cleared;
  pdp_low = cleared;
  pdp_high = cleared;
  pd_low = λ _. cleared;
  pd_high = λ _. cleared;
}

abbrev pub flags : ℕ
flags = page_present + page_writable

abbrev pub huge_flags : ℕ
huge_flags = flags + page_huge

-- The sum wraps.
unfoldable pub required_gb : ℕ → ℕ
required_gb max_phys_addr = min ((max_phys_addr + 2 ^ 30 - 1) % 2 ^ 64 / 2 ^ 30) 8

-- The entries of directory `i` from number `j` on, `n` of them.
unfoldable pub map_directory : ℕ → ℕ → ℕ → ℕ → PageTable → PageTable
map_directory zero i j max_phys_addr pd = pd
map_directory (suc n) i j max_phys_addr pd =
    let phys_addr = (i * 512 + j) * 2 * 1024 * 1024 in
    let pd' =
      if ltb phys_addr max_phys_addr then set_entry j (bit_or phys_addr huge_flags) pd else pd in
    map_directory n i (suc j) max_phys_addr pd'

-- The gigabytes from number `i` on, `n` of them. A directory takes 4096 bytes.
unfoldable pub map_gigabytes : ℕ → ℕ → Places → ℕ → BootTables → BootTables
unfolding map_directory
map_gigabytes zero i p max_phys_addr t = t
map_gigabytes (suc n) i p max_phys_addr t = map_gigabytes n (suc i) p max_phys_addr (record t {
  pdp_low = set_entry i (bit_or (p.boot_pd_low + i * 4096) flags) t.pdp_low;
  pdp_high = set_entry i (bit_or (p.boot_pd_high + i * 4096) flags) t.pdp_high;
  pd_low = set_table i (map_directory 512 i 0 max_phys_addr (t.pd_low i)) t.pd_low;
  pd_high = set_table i (map_directory 512 i 0 max_phys_addr (t.pd_high i)) t.pd_high;
})

-- With the address of the root.
unfoldable pub setup_initial_page_tables : Places → ℕ → BootTables → BootTables × ℕ
unfolding required_gb map_gigabytes
setup_initial_page_tables p max_phys_addr t =
    let root =
      set_entry 256 (bit_or p.boot_pdp_high flags)
        (set_entry 0 (bit_or p.boot_pdp_low flags) t.pml4) in
    (
      map_gigabytes (required_gb max_phys_addr) 0 p max_phys_addr (record t { pml4 = root }),
      p.boot_pml4,
    )
