-- ===== src/Addr/Tests.antt =====
-- Tests of alignment and references at concrete addresses.
use vitr_os.Base.{◌≡◌, refl, true, false, some, ok, err}
use vitr_os.Addr.{
  AddressError, is_aligned, align_up, align_down, phys_to_ref, virt_to_ref, is_guard_page_fault,
}

alignments :
    (align_up 0x1001 0x1000 ≡ 0x2000)
    × (align_up 0x1000 0x1000 ≡ 0x1000)
    × (align_down 0x1FFF 0x1000 ≡ 0x1000)
    × (is_aligned 0x1001 0x1000 ≡ false)
unfolding align_up align_down is_aligned
alignments = (refl, refl, refl, refl)

references :
    (phys_to_ref 0 ≡ err AddressError.null)
    × (virt_to_ref 8 0x1004 ≡ err AddressError.unaligned)
    × (virt_to_ref 8 0x1008 ≡ ok 0x1008)
unfolding phys_to_ref virt_to_ref is_aligned
references = (refl, refl, refl)

guard_page :
    (is_guard_page_fault (some 0x3000) 0x3FFF ≡ true)
    × (is_guard_page_fault (some 0x3000) 0x4000 ≡ false)
unfolding is_guard_page_fault
guard_page = (refl, refl)
