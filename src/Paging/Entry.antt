-- ===== src/Paging/Entry.antt =====
-- Entries of page tables as arithmetic on their fields.
use vitr_os.Base.{ℕ, ◌+◌, ◌*◌, ◌/◌, ◌%◌, ◌^◌, ◌<◌, ◌≡◌, ap, ◌∙◌, ◌==◌, ok, arith}
use Prim.Native.Nat.{bit_and, bit_or}
use vitr_os.Base.Bits.{bit_and-field, bit_and-mask, bit_or-low, bit_or-fields, zero-bit_or}
use vitr_os.Sched.Task.{kernel_virtual_base}
use vitr_os.Paging.{
  make_entry, get_address, phys_to_virt, is_present, is_huge_page, physical_address_mask,
}

-- The number of the page frame that an address is cut to.
abbrev pub frame : ℕ → ℕ
frame addr = addr / 2 ^ 12 % 2 ^ 40

masked : (addr : ℕ) → bit_and addr physical_address_mask ≡ frame addr * 2 ^ 12
masked addr = bit_and-field 12 40 addr

-- Flags lie in the lowest twelve bits and above bit 51.
pub make_entry_lem :
    (addr high low : ℕ)
    → low < 2 ^ 12
    → make_entry addr (high * 2 ^ 52 + low) ≡ high * 2 ^ 52 + (frame addr * 2 ^ 12 + low)
unfolding make_entry
make_entry_lem addr high low h =
    let m : ℕ = frame addr in
    let z : 0 * 2 ^ 52 + m * 2 ^ 12 ≡ m * 2 ^ 12 = omega arith in
    let split : bit_or (m * 2 ^ 12) (high * 2 ^ 52 + low)
        ≡ bit_or 0 high * 2 ^ 52 + bit_or (m * 2 ^ 12) low =
      rw z at (bit_or-fields 52 0 (m * 2 ^ 12) high low (omega arith) (omega arith)) in
    rw (masked addr) (omega (arith, split, zero-bit_or high, bit_or-low 12 m low h))

pub get_address-make_entry :
    (addr high low : ℕ)
    → low < 2 ^ 12
    → get_address (make_entry addr (high * 2 ^ 52 + low)) ≡ frame addr * 2 ^ 12
unfolding get_address
get_address-make_entry addr high low h =
    omega (arith, masked (make_entry addr (high * 2 ^ 52 + low)), make_entry_lem addr high low h)

is_present_lem : (e : ℕ) → is_present e ≡ (e % 2 == 1)
unfolding is_present
is_present_lem e = ground (arith, bit_and-mask 1 e)

is_huge_page_lem : (e : ℕ) → is_huge_page e ≡ (e / 2 ^ 7 % 2 == 1)
unfolding is_huge_page
is_huge_page_lem e = ground (arith, bit_and-field 7 1 e)

pub is_present-make_entry :
    (addr high low : ℕ)
    → low < 2 ^ 12
    → is_present (make_entry addr (high * 2 ^ 52 + low)) ≡ (low % 2 == 1)
is_present-make_entry addr high low h =
    is_present_lem (make_entry addr (high * 2 ^ 52 + low))
    ∙ ap (λ r. r == 1) (omega (arith, make_entry_lem addr high low h))

pub is_huge_page-make_entry :
    (addr high low : ℕ)
    → low < 2 ^ 12
    → is_huge_page (make_entry addr (high * 2 ^ 52 + low)) ≡ (low / 2 ^ 7 % 2 == 1)
is_huge_page-make_entry addr high low h =
    is_huge_page_lem (make_entry addr (high * 2 ^ 52 + low))
    ∙ ap (λ r. r == 1) (omega (arith, make_entry_lem addr high low h))

pub phys_to_virt_lem : (p : ℕ) → 0 < p → p < 2 ^ 47 → phys_to_virt p ≡ ok (kernel_virtual_base + p)
unfolding phys_to_virt
phys_to_virt_lem p h l = ground arith
