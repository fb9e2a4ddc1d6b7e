-- ===== src/Main/Heap.antt =====
-- The heap is the largest region of usable memory, and starts without a panic.
use vitr_os.Base.{
  ℕ, suc, ◌+◌, ◌-◌, ◌/◌, ◌%◌, ◌^◌, ◌≤◌, ◌<◌, ◌≡◌, refl, sym, ap, ◌∙◌, ◌⊎◌, inl, inr, Bool, true,
  false, Bool-cases, some, List, [], ◌∷◌, ltb, if◌then◌else◌, All, arith,
}
use mathlib.Core.Path.{subst}
use vitr_os.Boot.{BootInfo, MemoryRegion}
use vitr_os.Sched.Task.{kernel_virtual_base}
use vitr_os.Paging.Entry.{phys_to_virt_lem}
use vitr_os.Allocator.Size.{size_classes, align_down}
use vitr_os.Allocator.Buddy
use vitr_os.Allocator.Buddy.Packing.{no_blocks}
use vitr_os.Allocator.Buddy.Safety.{Reaches, started}
use vitr_os.Allocator.Buddy.Start.{init-IsSound}
use vitr_os.Allocator.Slab.{KernelAllocator, init_slabs, add_slab, set_cache, cache}
use vitr_os.Allocator.Slab
use vitr_os.Main.{
  Largest, no_memory, is_larger, find_largest, safe_regions, efi_conventional_memory, init_heap_at,
  start_heap,
}

-- The region is one of the list, usable, of this size and at this address.
abbrev pub IsOneOf : Largest → List MemoryRegion → Type 0
IsOneOf largest [] = ⊥
IsOneOf largest (r ∷ l) =
    (r.region_type ≡ efi_conventional_memory)
      × (largest.start_phys ≡ r.start)
      × (largest.size ≡ r.size)
    ⊎ IsOneOf largest l

-- The usable regions are not larger.
abbrev pub IsUpper : Largest → MemoryRegion → Type 0
IsUpper largest r = r.region_type ≡ efi_conventional_memory → r.size ≤ largest.size

-- What `find_largest_lem` states of the largest region found from `start` on.
abbrev pub IsLargest : Largest → List MemoryRegion → Largest → Type 0
IsLargest start l g = (start.size ≤ g.size) × All (IsUpper g) l × ((g ≡ start) ⊎ IsOneOf g l)

-- The first region replaces the largest of those before it, or it does not.
find_largest_step :
    (b : Bool) (r : MemoryRegion) (l : List MemoryRegion) (start : Largest)
    → is_larger r start ≡ b
    → find_largest (r ∷ l) start
      ≡ find_largest l (if b then record { start_phys = r.start; size = r.size } else start)
unfolding find_largest
find_largest_step b r l start e =
    ap (λ y. find_largest l (if y then record { start_phys = r.start; size = r.size } else start)) e

find_largest_lem :
    (l : List MemoryRegion) (start : Largest) → IsLargest start l (find_largest l start)
unfolding find_largest
find_largest_lem [] start = (omega arith, tt, inl refl)
find_largest_lem (r ∷ l) start = elim (Bool-cases (is_larger r start)) [
  | inr e ↦
      let (a, b, c) = find_largest_lem l start in
      subst (IsLargest start (r ∷ l)) (sym (find_largest_step false r l start e))
        (a, ((λ t. ground (arith, e, t, a)), b), elim c [ inl q ↦ inl q | inr q ↦ inr (inr q) ])
  | inl e ↦
      let (a, b, c) = find_largest_lem l (record { start_phys = r.start; size = r.size }) in
      subst (IsLargest start (r ∷ l)) (sym (find_largest_step true r l start e)) (
        ground (arith, e, a),
        ((λ t. a), b),
        elim c [
          | inl q ↦ inr (inl (ground (arith, e), ap (λ x. x.start_phys) q, ap (λ x. x.size) q))
          | inr q ↦ inr (inr q)
        ],
      )
]

init_slabs-buddy :
    (l : List ℕ) (i n current : ℕ) (k : KernelAllocator)
    → (init_slabs l i n current k).buddy ≡ k.buddy
unfolding init_slabs
init_slabs-buddy [] i n current k = refl
init_slabs-buddy (size ∷ l) i n current k =
    let aligned_size = align_down (n / 10) size in
    init_slabs-buddy l (suc i) n (current + aligned_size)
      (set_cache i (add_slab current aligned_size (k.links, cache i k)) k)

-- The heap at an address, with the part of the buddy allocator behind the slabs.
init_heap-Reaches :
    (start size : ℕ)
    → 0 < start
    → start + size + 4096 ≤ 2 ^ 64
    → size ≤ 2 ^ 31
    → (k : KernelAllocator) × (Slab.init start size Slab.new ≡ some k)
      × Reaches (start + size / 2) (size - size / 2) k.buddy no_blocks
unfolding Slab.init
init_heap-Reaches start size p h l =
    let n = size / 2 in
    let (s, u, g, e, _) =
      init-IsSound (start + n) (size - n) (omega (arith, p)) (omega (arith, h))
        (omega (arith, l)) in
    let k' = init_slabs size_classes 0 n start Slab.new in
    let w : (start + n) % 2 ^ 64 ≡ start + n = omega (arith, h) in
    let q : Buddy.init ((start + n) % 2 ^ 64) (size - n) k'.buddy ≡ some s =
      ap (λ a. Buddy.init a (size - n) k'.buddy) w
      ∙ ap (λ y. Buddy.init (start + n) (size - n) y)
          (init_slabs-buddy size_classes 0 n start Slab.new)
      ∙ e in
    (record k' { buddy = s }, rw (q, Slab.init) refl, started s e)

-- If the largest region of usable memory among the first regions of the memory map is not empty, at
-- most 2 GB large, not at address 0 and below 2 ^ 46, then the heap starts in this region of the direct
-- map: no usable region is larger, and the buddy allocator manages its second half.
pub start_heap-Reaches :
    (b : BootInfo)
    → let g = find_largest (safe_regions b) no_memory in
      0 < g.size
      → g.size ≤ 2 ^ 31
      → 0 < g.start_phys
      → g.start_phys + g.size ≤ 2 ^ 46
      → IsOneOf g (safe_regions b)
        × All (IsUpper g) (safe_regions b)
        × ((k : KernelAllocator) × (start_heap b Slab.new ≡ some k)
            × Reaches
                (kernel_virtual_base + g.start_phys + g.size / 2)
                (g.size - g.size / 2)
                k.buddy
                no_blocks)
unfolding start_heap
start_heap-Reaches b p l n h =
    let g = find_largest (safe_regions b) no_memory in
    let (_, upper, one) = find_largest_lem (safe_regions b) no_memory in
    let (k, e, r) =
      init_heap-Reaches (kernel_virtual_base + g.start_phys) g.size (omega (arith, n))
        (omega (arith, h)) l in
    let c : ltb 0 g.size ≡ true = ground (arith, p) in
    let v = phys_to_virt_lem g.start_phys n (omega (arith, h)) in
    (
      elim one [ inl q ↦ absurd (omega (arith, p, ap (λ x. x.size) q)) | inr q ↦ q ],
      upper,
      (k, rw c (ap (λ o. init_heap_at o g.size Slab.new) v ∙ e), r),
    )
