-- ===== src/Addr.antt =====
-- `kernel/src/addr.rs`: alignment, and the checks before an address becomes a reference, which is the
-- address here; and `is_guard_page_fault` of `kernel/src/stack.rs`.
use Prim.Native.Nat.{bit_and}
use vitr_os.Base.{
  ℕ, ◌+◌, ◌-◌, ◌%◌, ◌^◌, Bool, true, false, not, ◌&&◌, Option, none, some, ltb, leb, ◌==◌,
  if◌then◌else◌, Outcome, ok, err, panic,
}
use vitr_os.Paging.{PagingError, page_size, phys_to_virt}
mod Tests

pub data AddressError : Type 0 where
  null unaligned out_of_range conversion_failed : AddressError

abbrev pub from_paging_error : PagingError → AddressError
from_paging_error PagingError.invalid_address = null
from_paging_error PagingError.address_conversion_failed = conversion_failed
from_paging_error PagingError.guard_page_setup_failed = conversion_failed
from_paging_error PagingError.page_table_init_failed = conversion_failed
from_paging_error PagingError.address_out_of_range = conversion_failed
from_paging_error PagingError.feature_not_supported = conversion_failed
from_paging_error PagingError.existing_mapping_conflict = conversion_failed

unfoldable pub is_aligned : ℕ → ℕ → Bool
is_aligned addr align = addr % align == 0

-- An alignment is a power of two, so the mask `!(align - 1)` is `2 ^ 64 - align`.
unfoldable pub align_up : ℕ → ℕ → ℕ
align_up addr align = bit_and ((addr + align - 1) % 2 ^ 64) (2 ^ 64 - align)

unfoldable pub align_down : ℕ → ℕ → ℕ
align_down addr align = bit_and addr (2 ^ 64 - align)

abbrev pub convert : Outcome PagingError ℕ → Outcome AddressError ℕ
convert (ok v) = ok v
convert (err e) = err (from_paging_error e)
convert panic = panic

unfoldable pub phys_to_ref : ℕ → Outcome AddressError ℕ
phys_to_ref phys_addr = if phys_addr == 0 then err null else convert (phys_to_virt phys_addr)

unfoldable pub phys_to_mut : ℕ → Outcome AddressError ℕ
phys_to_mut phys_addr = if phys_addr == 0 then err null else convert (phys_to_virt phys_addr)

-- `align` is the alignment of the type.
unfoldable pub virt_to_ref : ℕ → ℕ → Outcome AddressError ℕ
unfolding is_aligned
virt_to_ref align virt_addr =
    if virt_addr == 0
    then err null
    else if not (is_aligned virt_addr align)
    then err unaligned
    else ok virt_addr

unfoldable pub virt_to_mut : ℕ → ℕ → Outcome AddressError ℕ
unfolding is_aligned
virt_to_mut align virt_addr =
    if virt_addr == 0
    then err null
    else if not (is_aligned virt_addr align)
    then err unaligned
    else ok virt_addr

-- The first argument is the address of the guard page, if there is one.
unfoldable pub is_guard_page_fault : Option ℕ → ℕ → Bool
is_guard_page_fault none fault_addr = false
is_guard_page_fault (some guard_addr) fault_addr =
    leb guard_addr fault_addr && ltb fault_addr ((guard_addr + page_size) % 2 ^ 64)
