-- ===== src/Allocator/Slab/Heap.antt =====
-- `alloc` and `dealloc` of `KernelAllocator` on requests that a slab serves.
use vitr_os.Base.{
  ℕ, ◌≤◌, ◌<◌, ◌≡◌, ◌≢◌, refl, ap, ◌∙◌, ◌⊎◌, inl, inr, max, false, Option, none, some, List, ◌∷◌,
  leb, ◌==◌, Option-cases, ◌↔◌, All, length, get_or, get_or-set_self, get_or-set_ne, length-set,
  arith,
}
use vitr_os.Allocator.Size.{size_classes, num_size_classes, size_to_class, size_to_class_lem}
use vitr_os.Allocator.Buddy.{Layout, update}
use vitr_os.Allocator.Slab.{
  SlabCache, Links, KernelAllocator, new_cache, cache, set_cache, slab_allocate, slab_deallocate,
  alloc, alloc_small, alloc_large, dealloc, free_small,
}
use vitr_os.Allocator.Slab.Chain.{IsChain, IsChain-update, slab_deallocate_lem}

abbrev pub class_of : Layout → Option ℕ
class_of l = size_to_class (max l.size l.align)

slab_allocate-some :
    (links : Links) (c : SlabCache) (a : ℕ)
    → c.free_list ≡ some a
    → slab_allocate links c ≡ (record c { free_list = links a }, some a)
unfolding slab_allocate
slab_allocate-some links c a h = simp (h, slab_allocate) refl

alloc_small-some :
    (i a : ℕ) (l : Layout) (k : KernelAllocator)
    → (cache i k).free_list ≡ some a
    → alloc_small i l k
      ≡ some (set_cache i (k.links, record (cache i k) { free_list = k.links a }) k, a)
unfolding alloc_small
alloc_small-some i a l k h =
    let e = slab_allocate-some k.links (cache i k) a h in
    rw (e, alloc_small) (ap (λ r. some (set_cache i (k.links, r.0) k, a)) e)

cache-set_same :
    (i : ℕ) (links : Links) (c : SlabCache) (k : KernelAllocator)
    → i < length k.slab_caches
    → cache i (set_cache i (links, c) k) ≡ c
cache-set_same i links c k h = get_or-set_self k.slab_caches i c (new_cache 0) h

cache-set_other :
    (i j : ℕ) (links : Links) (c : SlabCache) (k : KernelAllocator)
    → i ≢ j
    → cache j (set_cache i (links, c) k) ≡ cache j k
cache-set_other i j links c k h = get_or-set_ne k.slab_caches c (new_cache 0) h

-- The class is the least whose blocks hold `need` bytes.
abbrev pub IsLeastClass : ℕ → ℕ → Type 0
IsLeastClass need i =
    (i < num_size_classes)
    × ((j : ℕ) → j < num_size_classes → (need ≤ get_or size_classes j 0) ↔ (i ≤ j))

-- What `alloc` leaves when it takes the block `a` from the class `i`.
abbrev pub Takes : ℕ → ℕ → KernelAllocator → KernelAllocator → Type 0
Takes i a k k' =
    ((cache i k').free_list ≡ k.links a)
    × (k'.links ≡ k.links)
    × (k'.buddy ≡ k.buddy)
    × ((j : ℕ) → i ≢ j → cache j k' ≡ cache j k)

-- For a heap with all its classes: a request, as large as the larger of its size and its alignment, is
-- served from the least class whose blocks hold it, with the block at the front of its free list, and
-- only that list changes. It falls back to the buddy allocator exactly if it is above 4096 bytes or
-- that list is empty.
pub alloc_lem :
    (l : Layout) (k : KernelAllocator)
    → length k.slab_caches ≡ num_size_classes
    → (alloc l k ≡ alloc_large l k)
        × ((4096 < max l.size l.align)
            ⊎ (i : ℕ) × IsLeastClass (max l.size l.align) i × ((cache i k).free_list ≡ none))
      ⊎ (i : ℕ) × (a : ℕ) × IsLeastClass (max l.size l.align) i
        × ((cache i k).free_list ≡ some a)
        × ((k' : KernelAllocator) × (alloc l k ≡ some (k', a)) × Takes i a k k')
unfolding alloc alloc_small slab_allocate
alloc_lem l k n = elim (size_to_class_lem (max l.size l.align)) [
  | inl (g, e) ↦ inl (rw (e, alloc) refl, inl g)
  | inr (_, (i, e, b, f)) ↦ elim (Option-cases (cache i k).free_list) [
    | inl z ↦ inl (rw (e, alloc) (rw (z, alloc_small, slab_allocate) refl), inr (i, (b, f), z))
    | inr (a, z) ↦
        let c : SlabCache = record (cache i k) { free_list = k.links a } in
        inr (
          i,
          a,
          (b, f),
          z,
          (
            set_cache i (k.links, c) k,
            rw (e, alloc) (alloc_small-some i a l k z),
            (
              ap (λ (x : SlabCache). x.free_list)
                  (cache-set_same i k.links c k (omega (arith, n, b))),
              refl,
              refl,
              λ j d. cache-set_other i j k.links c k d,
            ),
          ),
        )
  ]
]

dealloc-small :
    (a i : ℕ) (l : Layout) (k : KernelAllocator)
    → 0 < l.size
    → a < k.buddy.region_start
    → class_of l ≡ some i
    → dealloc a l k ≡ some (set_cache i (slab_deallocate a (k.links, cache i k)) k)
unfolding dealloc free_small
dealloc-small a i l k z s e =
    let p : (l.size == 0) ≡ false = ground arith in
    let q : leb k.buddy.region_start a ≡ false = ground arith in
    rw (p, dealloc) (rw q (rw (e, free_small) refl))

-- What `alloc` takes from a slab, `dealloc` gives back, whatever was written meanwhile where the
-- link of the block stood: the free list of the class is the same list of blocks as before, and the
-- other classes and the buddy allocator are as they were. This holds for a request that has a
-- class, which the heap has, of a size that is not 0, and a block that is not null, stands below
-- the region of the buddy allocator and only once in its list.
pub dealloc-alloc :
    (l : Layout) (k : KernelAllocator) (i a : ℕ) (rest : List ℕ) (written : Option ℕ)
    → 0 < l.size
    → class_of l ≡ some i
    → i < length k.slab_caches
    → 0 < a
    → a < k.buddy.region_start
    → All (λ b. b ≢ a) rest
    → IsChain k.links (cache i k).free_list (a ∷ rest)
    → (k' : KernelAllocator) × (k'' : KernelAllocator) × (alloc l k ≡ some (k', a))
      × (dealloc a l (record k' { links = update a written k'.links }) ≡ some k'')
      × IsChain k''.links (cache i k'').free_list (a ∷ rest)
      × (k''.buddy ≡ k.buddy)
      × ((j : ℕ) → i ≢ j → cache j k'' ≡ cache j k)
unfolding alloc alloc_small slab_allocate
dealloc-alloc l k i a rest written z e h p s n c =
    let c' : SlabCache = record (cache i k) { free_list = k.links a } in
    let k' : KernelAllocator = set_cache i (k.links, c') k in
    let links : Links = update a written k.links in
    let same : cache i k' ≡ c' = cache-set_same i k.links c' k h in
    let f = slab_deallocate a (links, c') in
    (
      k',
      set_cache i f k',
      rw (e, alloc) (alloc_small-some i a l k c.0),
      dealloc-small a i l (record k' { links = links }) z s e ∙ rw same refl,
      rw (cache-set_same i f.0 f.1 k' (rw (length-set k.slab_caches i c') h)) (
          slab_deallocate_lem a links c' rest p n
            (IsChain-update k.links a written (k.links a) rest n c.1)),
      refl,
      λ j d. cache-set_other i j f.0 f.1 k' d ∙ cache-set_other i j k.links c' k d,
    )
