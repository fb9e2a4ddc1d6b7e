-- ===== src/Paging/Init/Rights.antt =====
-- The rights that the pages of the direct map are to have, and the tests of `init` of
-- `kernel/src/paging.rs` for them.
use vitr_os.Base.{
  ℕ, ◌+◌, ◌-◌, ◌*◌, ◌/◌, ◌%◌, ◌^◌, ◌≤◌, ◌<◌, ◌≡◌, refl, ap, ◌∙◌, Bool, true, false, ◌&&◌, Option,
  none, some, ltb, leb, ◌==◌, ==_iff, List, take, length, min, All, if◌then◌else◌, arith,
}
use vitr_os.Sched.Task.{kernel_virtual_base}
use vitr_os.Boot.{MemoryRegion, BootInfo}
use vitr_os.Paging.Init.Devices.{is_device, count_devices, IsApart, is_mmio_region_binary-extract}
use vitr_os.Paging.{page_size}
use vitr_os.Paging.Walk.{Translation}
use vitr_os.Paging.Mmio.{within}
use vitr_os.Paging.Init.{
  Symbols, actual_max, base_flags, text_flags, rodata_flags, data_flags, plain_pages, is_plain,
  extract_mmio_regions,
}

-- The sections lie in the direct map, in this order, each from a page's start on.
pub record IsLaidOut (y : Symbols) (b : BootInfo) : Type 0 where
  pub text : (kernel_virtual_base ≤ y.text_start) × (y.text_start ≤ y.text_end)
  pub rodata : (y.text_end ≤ y.rodata_start) × (y.rodata_start ≤ y.rodata_end)
  pub written : (y.rodata_end ≤ y.data_start) × (y.data_start ≤ y.bss_end)
  pub fits : y.bss_end ≤ kernel_virtual_base + actual_max b
  pub aligned :
      (y.text_start % 2 ^ 12 ≡ 0) × (y.rodata_start % 2 ^ 12 ≡ 0) × (y.data_start % 2 ^ 12 ≡ 0)

-- The physical address of one in the direct map.
abbrev pub phys : ℕ → ℕ
phys v = v - kernel_virtual_base

-- Whether an address is on a page of a range that starts with a page.
abbrev pub on_pages : ℕ → ℕ → ℕ → Bool
on_pages start end a =
    within (start / 2 ^ 12) ((end - start + page_size - 1) / page_size) (a / 2 ^ 12)

-- What the code's own tests lead to, for one page.
abbrev pub built_map : Symbols → BootInfo → ℕ → ℕ → Option ℕ
built_map y b guard_page a =
    if on_pages (phys y.data_start) (phys y.bss_end) a
    then some data_flags
    else if on_pages (phys y.rodata_start) (phys y.rodata_end) a
    then some rodata_flags
    else if on_pages (phys y.text_start) (phys y.text_end) a
    then some text_flags
    else if a / 2 ^ 12 == phys guard_page / 2 ^ 12
    then none
    else if plain_pages y b (phys y.text_start) (phys y.bss_end) (a / 2 ^ 12 * page_size)
    then some base_flags
    else none

-- The regions of the memory map that count.
abbrev pub counted : BootInfo → List MemoryRegion
counted b = take (min b.memory_map_count (length b.memory_map)) b.memory_map

-- Whether the page of an address starts in the kernel, between the first and the last section.
abbrev pub in_kernel : Symbols → ℕ → Bool
in_kernel y a =
    leb (phys y.text_start) (a / 2 ^ 12 * page_size)
    && ltb (a / 2 ^ 12 * page_size) (phys y.bss_end)

-- The rights that a physical address is to have in the direct map, or none for no mapping. An entry has
-- 1 if it is present, 2 if its page may be written, and 2 ^ 63 if no code may run there: the guard
-- page, gaps between sections and pages of devices are not mapped; data is written and not run, text
-- is run and not written, read-only data neither; all other memory may be written and run.
abbrev pub direct_map : Symbols → BootInfo → ℕ → ℕ → Option ℕ
direct_map y b guard_page a =
    if a / 2 ^ 12 == phys guard_page / 2 ^ 12
    then none
    else if on_pages (phys y.data_start) (phys y.bss_end) a
    then some (1 + 2 + 2 ^ 63)
    else if on_pages (phys y.rodata_start) (phys y.rodata_end) a
    then some (1 + 2 ^ 63)
    else if on_pages (phys y.text_start) (phys y.text_end) a
    then some 1
    else if in_kernel y a
    then none
    else if is_device (counted b) (a / 2 ^ 12 * page_size)
    then none
    else some (1 + 2)

-- The translation of `a` to itself with these rights.
abbrev pub maps_to : ℕ → Option ℕ → Translation
maps_to a none = none
maps_to a (some rights) = some (a, a / 2 ^ 12 * 2 ^ 12 + rights)

-- The devices of the memory map, as the search for them needs it.
pub record HasDevices (l : List MemoryRegion) : Type 0 where
  pub few : count_devices l ≤ 64
  pub low : All (λ r. r.start + r.size < 2 ^ 64) l
  pub apart : IsApart (extract_mmio_regions l)

plain_map :
    (y : Symbols) (b : BootInfo) (a : ℕ)
    → a < actual_max b
    → HasDevices (counted b)
    → (if plain_pages y b (phys y.text_start) (phys y.bss_end) (a / 2 ^ 12 * page_size)
        then some base_flags
        else none)
      ≡ (if in_kernel y a
          then none
          else if is_device (counted b) (a / 2 ^ 12 * page_size)
          then none
          else some (1 + 2))
unfolding is_plain
plain_map y b a h d =
    let p : ℕ = a / 2 ^ 12 * page_size in
    let low : ltb p (actual_max b) ≡ true = ground (arith, h) in
    let device = is_mmio_region_binary-extract p (counted b) d.few d.low d.apart in
    let first : plain_pages y b (phys y.text_start) (phys y.bss_end) p
        ≡ (if in_kernel y a then false else if is_device (counted b) p then false else true) =
      rw low (ap (λ x. if in_kernel y a then false else if x then false else true) device) in
    ap (λ x. if x then some base_flags else none) first
    ∙ nested (in_kernel y a) (is_device (counted b) p)
  where
    nested :
        (k m : Bool)
        → (if (if k then false else if m then false else true) then some base_flags else none)
          ≡ (if k then none else if m then none else some (1 + 2))
    nested true m = refl
    nested false true = refl
    nested false false = refl

-- The guard page comes behind the sections, so the order of the tests does not matter.
pub built_map_lem :
    (y : Symbols) (b : BootInfo) (v a : ℕ)
    → IsLaidOut y b
    → HasDevices (counted b)
    → y.bss_end ≤ v
    → v % 2 ^ 12 ≡ 0
    → a < actual_max b
    → built_map y b v a ≡ direct_map y b v a
built_map_lem y b v a h d l m k =
    order
      (if plain_pages y b (phys y.text_start) (phys y.bss_end) (a / 2 ^ 12 * page_size)
        then some base_flags
        else none)
      (a / 2 ^ 12 == phys v / 2 ^ 12) (on_pages (phys y.data_start) (phys y.bss_end) a)
      (on_pages (phys y.rodata_start) (phys y.rodata_end) a)
      (on_pages (phys y.text_start) (phys y.text_end) a)
      (λ e.
        let q : a / 2 ^ 12 ≡ phys v / 2 ^ 12 = (==_iff (a / 2 ^ 12) (phys v / 2 ^ 12)).0 e in
        (
          behind (phys y.data_start) (phys y.bss_end) (phys v) a (omega (arith, h.aligned))
              (omega (arith, m)) (omega (arith, h.written)) (omega (arith, l)) q,
          behind (phys y.rodata_start) (phys y.rodata_end) (phys v) a (omega (arith, h.aligned))
              (omega (arith, m)) (omega (arith, h.rodata)) (omega (arith, l, h.written)) q,
          behind (phys y.text_start) (phys y.text_end) (phys v) a (omega (arith, h.aligned))
              (omega (arith, m)) (omega (arith, h.text)) (omega (arith, l, h.written, h.rodata)) q,
        ))
    ∙ ap
        (λ x.
          if a / 2 ^ 12 == phys v / 2 ^ 12
          then none
          else if on_pages (phys y.data_start) (phys y.bss_end) a
          then some data_flags
          else if on_pages (phys y.rodata_start) (phys y.rodata_end) a
          then some rodata_flags
          else if on_pages (phys y.text_start) (phys y.text_end) a
          then some text_flags
          else x)
        (plain_map y b a k d)
  where
    behind :
        (start end g a : ℕ)
        → start % 2 ^ 12 ≡ 0
        → g % 2 ^ 12 ≡ 0
        → start ≤ end
        → end ≤ g
        → a / 2 ^ 12 ≡ g / 2 ^ 12
        → on_pages start end a ≡ false
    behind start end g a p q r s e = ground (arith, p, q, r, s, e)

    order :
        (x : Option ℕ) (g d r t : Bool)
        → (g ≡ true → (d ≡ false) × (r ≡ false) × (t ≡ false))
        → (if d
            then some data_flags
            else if r
            then some rodata_flags
            else if t
            then some text_flags
            else if g
            then none
            else x)
          ≡ (if g
              then none
              else if d
              then some data_flags
              else if r
              then some rodata_flags
              else if t
              then some text_flags
              else x)
    order x false true r t f = refl
    order x false false true t f = refl
    order x false false false true f = refl
    order x false false false false f = refl
    order x true d r t f = let (p, q, s) = f refl in rw (p, q, s) refl
