-- ===== src/Paging.antt =====
-- `kernel/src/paging.rs`: the page tables of the kernel. A table is a function from the index of an
-- entry to its 64 bits. An error leaves the tables as they are at that point, so each operation
-- returns the tables beside its outcome. A reload of CR3 only flushes the translation cache.
pub mod Entry
pub mod Walk
pub mod Mmio
pub mod Init
pub mod Tests
use Prim.Native.Nat.{bit_and, bit_or}
use vitr_os.Base.{
  ℕ, zero, suc, ◌+◌, ◌-◌, ◌*◌, ◌/◌, ◌%◌, ◌^◌, min, Bool, true, false, not, ◌&&◌, ◌||◌, List, Option,
  none, some, ltb, leb, ◌==◌, if◌then◌else◌, Outcome, ok, err, panic,
}
use vitr_os.Sched.Task.{kernel_virtual_base}

pub data PagingError : Type 0 where
  invalid_address address_conversion_failed guard_page_setup_failed : PagingError
  page_table_init_failed address_out_of_range feature_not_supported : PagingError
  existing_mapping_conflict : PagingError

abbrev pub page_table_entry_count : ℕ
page_table_entry_count = 512

abbrev pub page_size : ℕ
page_size = 4096

abbrev pub huge_page_size_2mb : ℕ
huge_page_size_2mb = 2 * 1024 * 1024

abbrev pub huge_page_size_1gb : ℕ
huge_page_size_1gb = 1024 * 1024 * 1024

abbrev pub page_table_coverage : ℕ
page_table_coverage = page_table_entry_count * page_size

abbrev pub physical_address_mask : ℕ
physical_address_mask = 0x000F_FFFF_FFFF_F000

abbrev pub max_supported_memory_gb : ℕ
max_supported_memory_gb = 8

abbrev pub pt_count : ℕ
pt_count = max_supported_memory_gb * 512

abbrev pub pml4_kernel_index : ℕ
pml4_kernel_index = 256

-- `PageTableFlags`.
abbrev pub present : ℕ
present = 2 ^ 0

abbrev pub writable : ℕ
writable = 2 ^ 1

abbrev pub cache_disable : ℕ
cache_disable = 2 ^ 4

abbrev pub huge_page : ℕ
huge_page = 2 ^ 7

abbrev pub no_execute : ℕ
no_execute = 2 ^ 63

unfoldable pub is_2mb_aligned : ℕ → Bool
is_2mb_aligned addr = bit_and addr 0x1F_FFFF == 0

unfoldable pub is_1gb_aligned : ℕ → Bool
is_1gb_aligned addr = bit_and addr 0x3FFF_FFFF == 0

-- The sum wraps.
unfoldable pub phys_to_virt : ℕ → Outcome PagingError ℕ
phys_to_virt phys_addr =
    if phys_addr == 0
    then err PagingError.invalid_address
    else ok ((phys_addr + kernel_virtual_base) % 2 ^ 64)

unfoldable pub virt_to_phys : ℕ → Outcome PagingError ℕ
virt_to_phys virt_addr =
    if ltb virt_addr kernel_virtual_base
    then err PagingError.invalid_address
    else ok (virt_addr - kernel_virtual_base)

-- `PageTableEntry` and its methods, on the raw 64 bits.
unfoldable pub is_present : ℕ → Bool
is_present entry = not (bit_and entry present == 0)

unfoldable pub is_huge_page : ℕ → Bool
is_huge_page entry = not (bit_and entry huge_page == 0)

unfoldable pub set_flags : ℕ → ℕ → ℕ
set_flags flags entry = bit_or entry flags

unfoldable pub set_address : ℕ → ℕ → ℕ
set_address addr entry = bit_or (bit_and entry 0xFFF) (bit_and addr physical_address_mask)

unfoldable pub make_entry : ℕ → ℕ → ℕ
make_entry addr flags = bit_or (bit_and addr physical_address_mask) flags

unfoldable pub get_address : ℕ → ℕ
get_address entry = bit_and entry physical_address_mask

abbrev pub PageTable : Type 0
PageTable = ℕ → ℕ

-- The static tables, and CR3.
pub record Tables : Type 0 where
  pub pml4 : PageTable
  pub pdp_high : PageTable
  pub pd_high : ℕ → PageTable
  pub pt_high : ℕ → PageTable
  pub cr3 : ℕ

abbrev pub set_entry : ℕ → ℕ → PageTable → PageTable
set_entry i e table j = if j == i then e else table j

abbrev pub set_table : ℕ → PageTable → (ℕ → PageTable) → ℕ → PageTable
set_table i table tables j = if j == i then table else tables j

abbrev pub cleared : PageTable
cleared _ = 0

-- The entry of the page with the number `page` in the page tables.
abbrev pub set_page : ℕ → ℕ → Tables → Tables
set_page page e t =
    let i = page / page_table_entry_count in
    record t {
      pt_high = set_table i (set_entry (page % page_table_entry_count) e (t.pt_high i)) t.pt_high;
    }

-- The entry for 2 MB with the number `n` in the page directories.
abbrev pub set_directory : ℕ → ℕ → Tables → Tables
set_directory n e t =
    let i = n / page_table_entry_count in
    record t {
      pd_high = set_table i (set_entry (n % page_table_entry_count) e (t.pd_high i)) t.pd_high;
    }

abbrev pub Result : Type 0 → Type 0
Result A = Tables × Outcome PagingError A

infixl 5 ◌>>=◌
abbrev pub ◌>>=◌ : {A B : Type 0} → Result A → (A → Tables → Result B) → Result B
(t, ok a) >>= f = f a t
(t, err e) >>= f = (t, err e)
(t, panic) >>= f = (t, panic)

-- The loop of `map_mmio`, and of `init` over a section, over the pages from number `i` on, `n` of
-- them. Addresses wrap. `out` is what happens at a page that no table has an entry for.
unfoldable pub map_pages :
    Outcome PagingError (Unit {0}) → ℕ → ℕ → ℕ → ℕ → Tables → Result (Unit {0})
unfolding make_entry
map_pages out zero i phys_addr flags t = (t, ok tt)
map_pages out (suc n) i phys_addr flags t =
    let addr = (phys_addr + i * page_size) % 2 ^ 64 in
    let page = addr / 2 ^ 12 in
    elim (leb pt_count (page / page_table_entry_count)) [
      | true ↦ (t, out)
      | false ↦ map_pages out n (suc i) phys_addr flags (set_page page (make_entry addr flags) t)
    ]

-- An operation is called with interrupts disabled, or panics.
abbrev pub guarded : {A : Type 0} → Bool → Tables → Result A → Result A
guarded interrupts t r = if interrupts then (t, panic) else r

abbrev pub uc_flags : ℕ
uc_flags = 2 ^ 0 + 2 ^ 1 + 2 ^ 4

unfoldable pub map_mmio : Bool → ℕ → ℕ → Tables → Result ℕ
map_mmio interrupts phys_addr size t =
    let page_count = (size + page_size - 1) % 2 ^ 64 / page_size in
    guarded interrupts t (
      if not (bit_and phys_addr 0xFFF == 0)
      then (t, err PagingError.invalid_address)
      else map_pages (err PagingError.page_table_init_failed) page_count 0 phys_addr uc_flags t
        >>= λ _ t'. (t', phys_to_virt phys_addr))

unfoldable pub clear_4kb_mappings_for_huge_page : ℕ → Tables → Result (Unit {0})
unfolding is_2mb_aligned make_entry
clear_4kb_mappings_for_huge_page phys_addr t =
    let pt = phys_addr / page_table_coverage in
    let n = phys_addr / huge_page_size_2mb in
    if not (is_2mb_aligned phys_addr)
    then (t, err PagingError.invalid_address)
    else if leb pt_count pt
    then (t, err PagingError.address_out_of_range)
    else if leb max_supported_memory_gb (n / page_table_entry_count)
    then (t, err PagingError.address_out_of_range)
    else (
      set_directory n (make_entry 0 0) (record t { pt_high = set_table pt cleared t.pt_high }),
      ok tt,
    )

abbrev pub huge_flags : ℕ → ℕ
huge_flags additional = bit_or (present + writable + huge_page) additional

-- An entry that is present and not a huge page refers to a table.
abbrev pub refers : ℕ → Bool
refers entry = is_present entry && not (is_huge_page entry)

unfoldable pub map_huge_2mb : Bool → ℕ → ℕ → Tables → Result ℕ
unfolding is_2mb_aligned is_present is_huge_page make_entry phys_to_virt
map_huge_2mb interrupts phys_addr additional t =
    let n = phys_addr / huge_page_size_2mb in
    let i = n / page_table_entry_count in
    guarded interrupts t (
      if not (is_2mb_aligned phys_addr)
      then (t, err PagingError.invalid_address)
      else if leb max_supported_memory_gb i
      then (t, err PagingError.address_out_of_range)
      else if refers (t.pd_high i (n % page_table_entry_count))
      then (t, err PagingError.existing_mapping_conflict)
      else (
        set_directory n (make_entry phys_addr (huge_flags additional)) t,
        phys_to_virt phys_addr,
      ))

unfoldable pub unmap_huge_2mb : Bool → ℕ → Tables → Result (Unit {0})
unfolding is_2mb_aligned make_entry
unmap_huge_2mb interrupts phys_addr t =
    let n = phys_addr / huge_page_size_2mb in
    guarded interrupts t (
      if not (is_2mb_aligned phys_addr)
      then (t, err PagingError.invalid_address)
      else if leb max_supported_memory_gb (n / page_table_entry_count)
      then (t, err PagingError.address_out_of_range)
      else (set_directory n (make_entry 0 0) t, ok tt))

-- `supports` is what CPUID reports.
unfoldable pub map_huge_1gb : Bool → Bool → ℕ → ℕ → Tables → Result ℕ
unfolding is_1gb_aligned is_present is_huge_page make_entry phys_to_virt
map_huge_1gb supports interrupts phys_addr additional t =
    let i = phys_addr / huge_page_size_1gb in
    guarded interrupts t (
      if not (is_1gb_aligned phys_addr)
      then (t, err PagingError.invalid_address)
      else if not supports
      then (t, err PagingError.feature_not_supported)
      else if leb max_supported_memory_gb i
      then (t, err PagingError.address_out_of_range)
      else if refers (t.pdp_high i)
      then (t, err PagingError.existing_mapping_conflict)
      else (
        record t {
          pdp_high = set_entry i (make_entry phys_addr (huge_flags additional)) t.pdp_high;
        },
        phys_to_virt phys_addr,
      ))

unfoldable pub unmap_huge_1gb : Bool → ℕ → Tables → Result (Unit {0})
unfolding is_1gb_aligned make_entry
unmap_huge_1gb interrupts phys_addr t =
    let i = phys_addr / huge_page_size_1gb in
    guarded interrupts t (
      if not (is_1gb_aligned phys_addr)
      then (t, err PagingError.invalid_address)
      else if leb max_supported_memory_gb i
      then (t, err PagingError.address_out_of_range)
      else (record t { pdp_high = set_entry i (make_entry 0 0) t.pdp_high }, ok tt))

-- The loop of `map_framebuffer_huge` over the huge pages from number `i` on.
unfoldable pub map_huge_pages : ℕ → ℕ → ℕ → Tables → Result (Unit {0})
unfolding clear_4kb_mappings_for_huge_page map_huge_2mb
map_huge_pages zero i fb_base t = (t, ok tt)
map_huge_pages (suc n) i fb_base t =
    let addr = (fb_base + i * huge_page_size_2mb) % 2 ^ 64 in
    clear_4kb_mappings_for_huge_page addr t
    >>= (λ _ t'. map_huge_2mb false addr (cache_disable + no_execute) t')
    >>= λ _ t'. map_huge_pages n (suc i) fb_base t'

unfoldable pub map_framebuffer_huge : Bool → ℕ → ℕ → Tables → Result ℕ
unfolding is_2mb_aligned map_huge_pages phys_to_virt
map_framebuffer_huge interrupts fb_base fb_size t =
    let count = (fb_size + huge_page_size_2mb - 1) % 2 ^ 64 / huge_page_size_2mb in
    guarded interrupts t (
      if not (is_2mb_aligned fb_base)
      then (t, phys_to_virt fb_base)
      else map_huge_pages count 0 fb_base t >>= λ _ t'. (t', phys_to_virt fb_base))
