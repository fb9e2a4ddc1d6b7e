-- ===== src/Paging/Mmio.antt =====
-- `map_mmio` changes the translation of its pages, and of no other.
use Prim.Native.Nat.{bit_and}
use vitr_os.Base.{
  ℕ, zero, suc, ◌+◌, ◌-◌, ◌*◌, ◌/◌, ◌%◌, ◌^◌, ◌≤◌, ◌<◌, ◌≡◌, refl, sym, ap, ◌∙◌, inl, inr, Bool,
  true, false, ◌&&◌, some, ltb, leb, ◌==◌, ==_iff, Bool-cases, if◌then◌else◌, ok, err, Outcome,
  arith,
}
use vitr_os.Base.Bits.{bit_and-mask}
use vitr_os.Sched.Task.{kernel_virtual_base}
use vitr_os.Paging.{
  PagingError, Tables, set_page, make_entry, map_pages, map_mmio, uc_flags, page_size, pt_count,
}
use vitr_os.Paging.Entry.{make_entry_lem, phys_to_virt_lem}
use vitr_os.Paging.Walk.{Statics, IsPlaced, IsLinked, walk, leaf, walk-IsLinked, leaf-make_entry}

-- The entry of a page table for the page with this number.
abbrev pub page_entry : Tables → ℕ → ℕ
page_entry t page = t.pt_high (page / 512) (page % 512)

pub page_entry-set_page :
    (page p e : ℕ) (t : Tables)
    → page_entry (set_page page e t) p ≡ (if p == page then e else page_entry t p)
page_entry-set_page page p e t = elim (Bool-cases (p / 512 == page / 512)) [
  | inr n ↦ let d : (p == page) ≡ false = ground arith in rw (n, d) refl
  | inl y ↦
      let q : p / 512 ≡ page / 512 = (==_iff (p / 512) (page / 512)).0 y in
      elim (Bool-cases (p % 512 == page % 512)) [
        | inr n ↦
            let d : (p == page) ≡ false = ground arith in
            rw (y, n, d) (ap (λ k. t.pt_high k (p % 512)) (sym q))
        | inl z ↦ let d : (p == page) ≡ true = ground arith in rw (y, z, d) refl
      ]
]

-- The pages from `first`, `n` of them.
abbrev pub within : ℕ → ℕ → ℕ → Bool
within first n page = leb first page && ltb page (first + n)

within-step :
    (first n p page x y z : ℕ)
    → page ≡ first
    → (p ≡ page → y ≡ x)
    → (if within (suc first) n p then x else (if p == page then y else z))
      ≡ (if within first (suc n) p then x else z)
within-step first n p page x y z e h = elim (Bool-cases (p == page)) [
  | inl q ↦
      let r : y ≡ x = h ((==_iff p page).0 q) in
      let u : within (suc first) n p ≡ false = ground arith in
      let v : within first (suc n) p ≡ true = ground arith in rw (q, u, v) r
  | inr q ↦ let u : within (suc first) n p ≡ within first (suc n) p = ground arith in rw (q, u) refl
]

pub map_pages_lem :
    (out : Outcome PagingError (Unit {0})) (n i phys flags : ℕ) (t : Tables)
    → phys % 2 ^ 12 ≡ 0
    → phys + (i + n) * page_size ≤ pt_count * 2 ^ 21
    → (t' : Tables) × (map_pages out n i phys flags t ≡ (t', ok tt))
      × (t' ≡ record t { pt_high = t'.pt_high })
      × ((p : ℕ)
          → page_entry t' p ≡ (
              if within (phys / 2 ^ 12 + i) n p
              then make_entry (p * 2 ^ 12) flags
              else page_entry t p))
unfolding map_pages
map_pages_lem out zero i phys flags t a h =
    (t, refl, refl, λ p. let w : within (phys / 2 ^ 12 + i) 0 p ≡ false = ground arith in rw w refl)
map_pages_lem out (suc n) i phys flags t a h =
    let addr : ℕ = (phys + i * page_size) % 2 ^ 64 in
    let page : ℕ = addr / 2 ^ 12 in
    let e : page ≡ phys / 2 ^ 12 + i = omega arith in
    let f : addr ≡ page * 2 ^ 12 = omega arith in
    let b : leb pt_count (page / 512) ≡ false = ground arith in
    let next : phys / 2 ^ 12 + suc i ≡ suc (phys / 2 ^ 12 + i) = omega arith in
    let u : Tables = set_page page (make_entry addr flags) t in
    let (t', r, k, m) = map_pages_lem out n (suc i) phys flags u a (omega arith) in
    (
      t',
      rw (b, map_pages) r,
      k,
      λ p.
          m p
          ∙ ap
              (λ k. if within (phys / 2 ^ 12 + suc i) n p then make_entry (p * 2 ^ 12) flags else k)
              (page_entry-set_page page p (make_entry addr flags) t)
          ∙ ap
              (λ w.
                if w
                then make_entry (p * 2 ^ 12) flags
                else (if p == page then make_entry addr flags else page_entry t p))
              (ap (λ j. within j n p) next)
          ∙ within-step (phys / 2 ^ 12 + i) n p page (make_entry (p * 2 ^ 12) flags)
              (make_entry addr flags) (page_entry t p) e
              (λ q. ap (λ j. make_entry j flags) (omega (arith, q, f))),
    )

-- Only the page tables have changed, so what is linked stays so.
pub IsLinked-pt_high :
    (s : Statics) (t t' : Tables) (a : ℕ)
    → t' ≡ record t { pt_high = t'.pt_high }
    → IsLinked s t a
    → IsLinked s t' a
IsLinked-pt_high s t t' a e i = rw e (record { cr3 = i.cr3; pml4 = i.pml4; pdp = i.pdp; pd = i.pd })

-- The pages that a device of `size` bytes at `phys` takes.
abbrev pub of_device : ℕ → ℕ → ℕ → Bool
of_device phys size a = within (phys / 2 ^ 12) ((size + 2 ^ 12 - 1) / 2 ^ 12) (a / 2 ^ 12)

-- The walk down to the entry, by the number of the page.
pub walk-page :
    (s : Statics) (t : Tables)
    → IsPlaced s
    → (a : ℕ) → a < 2 ^ 33
    → IsLinked s t a
    → walk s t (kernel_virtual_base + a)
      ≡ leaf (page_entry t (a / 2 ^ 12)) (kernel_virtual_base + a)
walk-page s t placed a l i =
    let x : a / 2 ^ 12 / 512 ≡ a / 2 ^ 21 = omega arith in
    walk-IsLinked s t placed a l i
    ∙ ap (λ k. leaf (t.pt_high k (a / 2 ^ 12 % 512)) (kernel_virtual_base + a)) (sym x)

mapped :
    (s : Statics) (t : Tables)
    → IsPlaced s
    → (a flags : ℕ) (w : Bool) → a < 2 ^ 33
    → IsLinked s t a
    → leaf (make_entry (a / 2 ^ 12 * 2 ^ 12) flags) (kernel_virtual_base + a)
      ≡ some (a, make_entry (a / 2 ^ 12 * 2 ^ 12) flags)
    → leaf
        (if w then make_entry (a / 2 ^ 12 * 2 ^ 12) flags else page_entry t (a / 2 ^ 12))
        (kernel_virtual_base + a)
      ≡ (if w
          then some (a, make_entry (a / 2 ^ 12 * 2 ^ 12) flags)
          else walk s t (kernel_virtual_base + a))
mapped s t placed a flags true l i e = e
mapped s t placed a flags false l i e = sym (walk-page s t placed a l i)

-- The call itself, on the entries of the page tables.
pub map_mmio_lem :
    (t : Tables) (phys size : ℕ)
    → phys % 2 ^ 12 ≡ 0
    → 0 < phys
    → phys + size ≤ 2 ^ 33
    → (t' : Tables) × (map_mmio false phys size t ≡ (t', ok (kernel_virtual_base + phys)))
      × (t' ≡ record t { pt_high = t'.pt_high })
      × ((p : ℕ)
          → page_entry t' p ≡ (
              if within (phys / 2 ^ 12 + 0) ((size + page_size - 1) % 2 ^ 64 / page_size) p
              then make_entry (p * 2 ^ 12) uc_flags
              else page_entry t p))
unfolding map_mmio
map_mmio_lem t phys size aligned pos h =
    let n : ℕ = (size + page_size - 1) % 2 ^ 64 / page_size in
    let (t', r, k, e) =
      map_pages_lem (err PagingError.page_table_init_failed) n 0 phys uc_flags t aligned
        (omega arith) in
    let b : (bit_and phys 0xFFF == 0) ≡ true = ground (arith, bit_and-mask 12 phys) in
    let v = phys_to_virt_lem phys pos (omega arith) in
    (t', rw (b, map_mmio) (rw r (rw v refl)), k, e)

-- An entry of the direct map that is present and writable (1 + 2) and not cached (16).
abbrev pub uncached : ℕ → ℕ
uncached a = a / 2 ^ 12 * 2 ^ 12 + 19

make_entry-uncached : (a : ℕ) → a < 2 ^ 33 → make_entry (a / 2 ^ 12 * 2 ^ 12) uc_flags ≡ uncached a
make_entry-uncached a h = omega (arith, make_entry_lem (a / 2 ^ 12 * 2 ^ 12) 0 19 (omega arith))

-- For static tables that are aligned and do not overlap, and whose upper levels lead to a page
-- table for all of the first 8 GB: `map_mmio` of a device of at least one byte in there, at a
-- page's start and not at address 0, succeeds and returns the device's address in the direct map.
-- The upper levels stay so, the pages of the device translate to themselves, writable and uncached,
-- and every other address of the first 8 GB of the direct map as before.
pub map_mmio-walk :
    (s : Statics) (t : Tables) (phys size : ℕ)
    → IsPlaced s
    → phys % 2 ^ 12 ≡ 0
    → 0 < phys
    → 0 < size
    → phys + size ≤ 2 ^ 33
    → ((a : ℕ) → a < 2 ^ 33 → IsLinked s t a)
    → (t' : Tables) × (map_mmio false phys size t ≡ (t', ok (kernel_virtual_base + phys)))
      × ((a : ℕ)
          → a < 2 ^ 33
          → IsLinked s t' a
            × (walk s t' (kernel_virtual_base + a) ≡ (
                if of_device phys size a
                then some (a, uncached a)
                else walk s t (kernel_virtual_base + a))))
map_mmio-walk s t phys size placed aligned pos some_size h linked =
    let n : ℕ = (size + page_size - 1) % 2 ^ 64 / page_size in
    let m : n ≡ (size + 2 ^ 12 - 1) / 2 ^ 12 = omega arith in
    let (t', r, k, e) = map_mmio_lem t phys size aligned pos h in
    (
      t',
      r,
      λ a l.
          let i = linked a l in
          let j = IsLinked-pt_high s t t' a k i in
          let p : ℕ = a / 2 ^ 12 in
          let f : page_entry t' p ≡ (
              if of_device phys size a then make_entry (p * 2 ^ 12) uc_flags else page_entry t p) =
            e p
            ∙ ap (λ w. if w then make_entry (p * 2 ^ 12) uc_flags else page_entry t p)
                (ap (λ x. within x n p) (omega arith) ∙ ap (λ x. within (phys / 2 ^ 12) x p) m) in
          (
            j,
            walk-page s t' placed a l j
                ∙ ap (λ x. leaf x (kernel_virtual_base + a)) f
                ∙ mapped s t placed a uc_flags (of_device phys size a) l i
                    (leaf-make_entry a 0 uc_flags (omega arith) (omega arith) refl)
                ∙ ap
                    (λ (e : ℕ).
                      if of_device phys size a
                      then some (a, e)
                      else walk s t (kernel_virtual_base + a))
                    (make_entry-uncached a l),
          ),
    )
