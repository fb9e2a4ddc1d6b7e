-- ===== src/Paging/Walk.antt =====
-- What the tables mean: the four-level walk of the processor, as its manual describes it, over the
-- static tables of the kernel.
use vitr_os.Base.{
  ℕ, ◌+◌, ◌-◌, ◌*◌, ◌/◌, ◌%◌, ◌^◌, ◌≤◌, ◌<◌, ◌≡◌, refl, ap, ◌∙◌, ◌⊎◌, true, false, ◌&&◌, Option,
  none, some, ltb, leb, ◌==◌, if◌then◌else◌, arith,
}
use vitr_os.Sched.Task.{kernel_virtual_base}
use vitr_os.Paging.{
  Tables, PageTable, make_entry, get_address, is_present, is_huge_page, pt_count,
  max_supported_memory_gb,
}
use vitr_os.Paging.Entry.{get_address-make_entry, is_present-make_entry, is_huge_page-make_entry}

-- The virtual addresses of the static tables.
pub record Statics : Type 0 where
  pub pml4 : ℕ
  pub pdp : ℕ
  pub pd : ℕ
  pub pt : ℕ

-- The table at a physical address.
abbrev pub table_at : Statics → Tables → ℕ → Option PageTable
table_at s t p =
    let a = p + kernel_virtual_base in
    if a == s.pdp
    then some t.pdp_high
    else if leb s.pd a && ltb a (s.pd + max_supported_memory_gb * 2 ^ 12)
    then some (t.pd_high ((a - s.pd) / 2 ^ 12))
    else if leb s.pt a && ltb a (s.pt + pt_count * 2 ^ 12)
    then some (t.pt_high ((a - s.pt) / 2 ^ 12))
    else none

-- A translation gives the physical address and the last entry, which has the access rights.
abbrev pub Translation : Type 0
Translation = Option (ℕ × ℕ)

-- The page of an entry that maps `2 ^ k` bytes.
unfoldable pub page_of : ℕ → ℕ → ℕ → Translation
page_of k e v = some (get_address e / 2 ^ k * 2 ^ k + v % 2 ^ k, e)

unfoldable pub leaf : ℕ → ℕ → Translation
unfolding page_of
leaf e v = if is_present e then page_of 12 e v else none

-- The entry of the level above, with what it leads to.
unfoldable pub descend : Statics → Tables → ℕ → (PageTable → Translation) → Translation
descend s t e next =
    if is_present e
    then (elim (table_at s t (get_address e)) [ none ↦ none | some table ↦ next table ])
    else none

unfoldable pub descend_huge : Statics → Tables → ℕ → ℕ → ℕ → (PageTable → Translation) → Translation
unfolding descend page_of
descend_huge s t k e v next =
    if is_present e && is_huge_page e then page_of k e v else descend s t e next

unfoldable pub walk : Statics → Tables → ℕ → Translation
walk s t v =
    if t.cr3 + kernel_virtual_base == s.pml4
    then descend s t (t.pml4 (v / 2 ^ 39 % 512)) (λ pdp.
      descend_huge s t 30 (pdp (v / 2 ^ 30 % 512)) v (λ pd.
        descend_huge s t 21 (pd (v / 2 ^ 21 % 512)) v (λ pt. leaf (pt (v / 2 ^ 12 % 512)) v)))
    else none

-- The tables are aligned, in the direct map, and do not overlap.
pub record IsPlaced (s : Statics) : Type 0 where
  pub pml4 : kernel_virtual_base ≤ s.pml4
  pub pdp : (kernel_virtual_base ≤ s.pdp) × (s.pdp < kernel_virtual_base + 2 ^ 36)
  pub pd : (kernel_virtual_base ≤ s.pd) × (s.pd < kernel_virtual_base + 2 ^ 36)
  pub pt : (kernel_virtual_base ≤ s.pt) × (s.pt < kernel_virtual_base + 2 ^ 36)
  pub pdp_aligned : s.pdp % 2 ^ 12 ≡ 0
  pub pd_aligned : s.pd % 2 ^ 12 ≡ 0
  pub pt_aligned : s.pt % 2 ^ 12 ≡ 0
  pub pdp_pd : (s.pdp < s.pd) ⊎ (s.pd + max_supported_memory_gb * 2 ^ 12 ≤ s.pdp)
  pub pdp_pt : (s.pdp < s.pt) ⊎ (s.pt + pt_count * 2 ^ 12 ≤ s.pdp)
  pub pd_pt : (s.pd + max_supported_memory_gb * 2 ^ 12 ≤ s.pt) ⊎ (s.pt + pt_count * 2 ^ 12 ≤ s.pd)

-- The upper levels lead to the entry of a page table for the physical address `a`.
pub record IsLinked (s : Statics) (t : Tables) (a : ℕ) : Type 0 where
  pub cr3 : t.cr3 + kernel_virtual_base ≡ s.pml4
  pub pml4 : t.pml4 256 ≡ make_entry (s.pdp - kernel_virtual_base) 3
  pub pdp :
      t.pdp_high (a / 2 ^ 30) ≡ make_entry (s.pd + a / 2 ^ 30 * 2 ^ 12 - kernel_virtual_base) 3
  pub pd :
      t.pd_high (a / 2 ^ 30) (a / 2 ^ 21 % 512)
      ≡ make_entry (s.pt + a / 2 ^ 21 * 2 ^ 12 - kernel_virtual_base) 3

module _ (p : ℕ) where
  link-address : p % 2 ^ 12 ≡ 0 → p < 2 ^ 52 → get_address (make_entry p 3) ≡ p
  link-address h l = omega (arith, get_address-make_entry p 0 3 (omega arith))

  link-present : is_present (make_entry p 3) ≡ true
  link-present = is_present-make_entry p 0 3 (omega arith)

  link-huge_page : is_huge_page (make_entry p 3) ≡ false
  link-huge_page = is_huge_page-make_entry p 0 3 (omega arith)

module _ (s : Statics) (t : Tables) (p : ℕ) (table : PageTable) (next : PageTable → Translation)
    (aligned : p % 2 ^ 12 ≡ 0) (small : p < 2 ^ 52) (found : table_at s t p ≡ some table) where
  descend-link : descend s t (make_entry p 3) next ≡ next table
  unfolding descend
  descend-link = rw (link-present p) (rw (link-address p aligned small) (rw found refl))

  descend_huge-link : (k v : ℕ) → descend_huge s t k (make_entry p 3) v next ≡ next table
  unfolding descend_huge
  descend_huge-link k v =
      rw (link-present p)
        (rw (link-huge_page p) (rw (link-address p aligned small) (rw found refl)))

module _ (s : Statics) (t : Tables) (placed : IsPlaced s) where
  at_pdp : table_at s t (s.pdp - kernel_virtual_base) ≡ some t.pdp_high
  at_pdp = ground (arith, placed.pdp)

  at_pd :
      (i : ℕ)
      → i < max_supported_memory_gb
      → table_at s t (s.pd + i * 2 ^ 12 - kernel_virtual_base) ≡ some (t.pd_high i)
  at_pd i h =
      let x : ℕ = s.pd + i * 2 ^ 12 in
      let a : x - kernel_virtual_base + kernel_virtual_base ≡ x = omega (arith, placed.pd) in
      let n : (x == s.pdp) ≡ false = ground (arith, placed.pdp_pd) in
      let l : leb s.pd x ≡ true = ground arith in
      let m : ltb x (s.pd + max_supported_memory_gb * 2 ^ 12) ≡ true = ground arith in
      let d : (x - s.pd) / 2 ^ 12 ≡ i = omega arith in rw a (rw n (rw l (rw m (rw d refl))))

  at_pt :
      (i : ℕ)
      → i < pt_count
      → table_at s t (s.pt + i * 2 ^ 12 - kernel_virtual_base) ≡ some (t.pt_high i)
  at_pt i h =
      let x : ℕ = s.pt + i * 2 ^ 12 in
      let a : x - kernel_virtual_base + kernel_virtual_base ≡ x = omega (arith, placed.pt) in
      let n : (x == s.pdp) ≡ false = ground (arith, placed.pdp_pt) in
      let o : (leb s.pd x && ltb x (s.pd + max_supported_memory_gb * 2 ^ 12)) ≡ false =
        ground (arith, placed.pd_pt) in
      let l : leb s.pt x ≡ true = ground arith in
      let m : ltb x (s.pt + pt_count * 2 ^ 12) ≡ true = ground arith in
      let d : (x - s.pt) / 2 ^ 12 ≡ i = omega arith in rw a (rw n (rw o (rw l (rw m (rw d refl)))))

  -- Where the upper levels are linked, the walk comes down to the entry of the page table.
  pub walk-IsLinked :
      (a : ℕ)
      → a < 2 ^ 33
      → IsLinked s t a
      → walk s t (kernel_virtual_base + a)
        ≡ leaf (t.pt_high (a / 2 ^ 21) (a / 2 ^ 12 % 512)) (kernel_virtual_base + a)
  unfolding walk
  walk-IsLinked a h i =
      let v : ℕ = kernel_virtual_base + a in
      let c : (t.cr3 + kernel_virtual_base == s.pml4) ≡ true = ground (arith, i.cr3) in
      let i4 : v / 2 ^ 39 % 512 ≡ 256 = omega arith in
      let i3 : v / 2 ^ 30 % 512 ≡ a / 2 ^ 30 = omega arith in
      let i2 : v / 2 ^ 21 % 512 ≡ a / 2 ^ 21 % 512 = omega arith in
      let i1 : v / 2 ^ 12 % 512 ≡ a / 2 ^ 12 % 512 = omega arith in
      let k1 : PageTable → Translation = λ pt. leaf (pt (v / 2 ^ 12 % 512)) v in
      let k2 : PageTable → Translation = λ pd. descend_huge s t 21 (pd (v / 2 ^ 21 % 512)) v k1 in
      let k3 : PageTable → Translation = λ pdp. descend_huge s t 30 (pdp (v / 2 ^ 30 % 512)) v k2 in
      let p3 : ℕ = s.pdp - kernel_virtual_base in
      let p2 : ℕ = s.pd + a / 2 ^ 30 * 2 ^ 12 - kernel_virtual_base in
      let p1 : ℕ = s.pt + a / 2 ^ 21 * 2 ^ 12 - kernel_virtual_base in
      let from_pml4 : walk s t v ≡ descend s t (make_entry p3 3) k3 =
        rw (c, walk) (ap (λ e. descend s t e k3) (ap t.pml4 i4 ∙ i.pml4)) in
      from_pml4
      ∙ descend-link s t p3 t.pdp_high k3 (omega (arith, placed.pdp, placed.pdp_aligned))
          (omega (arith, placed.pdp)) at_pdp
      ∙ ap (λ e. descend_huge s t 30 e v k2) (ap t.pdp_high i3 ∙ i.pdp)
      ∙ descend_huge-link s t p2 (t.pd_high (a / 2 ^ 30)) k2
          (omega (arith, placed.pd, placed.pd_aligned)) (omega (arith, placed.pd))
          (at_pd (a / 2 ^ 30) (omega arith)) 30 v
      ∙ ap (λ e. descend_huge s t 21 e v k1) (ap (t.pd_high (a / 2 ^ 30)) i2 ∙ i.pd)
      ∙ descend_huge-link s t p1 (t.pt_high (a / 2 ^ 21)) k1
          (omega (arith, placed.pt, placed.pt_aligned)) (omega (arith, placed.pt))
          (at_pt (a / 2 ^ 21) (omega arith)) 21 v
      ∙ ap (λ e. leaf e v) (ap (t.pt_high (a / 2 ^ 21)) i1)

-- A present entry for the page of `a` maps `a` of the direct map to itself.
pub leaf-make_entry :
    (a high low : ℕ)
    → a < 2 ^ 52
    → low < 2 ^ 12
    → low % 2 ≡ 1
    → leaf (make_entry (a / 2 ^ 12 * 2 ^ 12) (high * 2 ^ 52 + low)) (kernel_virtual_base + a)
      ≡ some (a, make_entry (a / 2 ^ 12 * 2 ^ 12) (high * 2 ^ 52 + low))
unfolding leaf
leaf-make_entry a high low h l o =
    let p : ℕ = a / 2 ^ 12 * 2 ^ 12 in
    let e : ℕ = make_entry p (high * 2 ^ 52 + low) in
    let q : (low % 2 == 1) ≡ true = ground arith in
    let r : get_address e / 2 ^ 12 * 2 ^ 12 + (kernel_virtual_base + a) % 2 ^ 12 ≡ a =
      omega (arith, get_address-make_entry p high low l) in
    rw (is_present-make_entry p high low l) (rw q (ap (λ x. some (x, e)) r))

-- An absent entry maps nothing.
pub leaf-absent :
    (a v high low : ℕ)
    → low < 2 ^ 12
    → low % 2 ≡ 0
    → leaf (make_entry a (high * 2 ^ 52 + low)) v ≡ none
unfolding leaf
leaf-absent a v high low l o =
    let q : (low % 2 == 1) ≡ false = ground arith in
    rw (is_present-make_entry a high low l) (rw q refl)

pub leaf-zero : (v : ℕ) → leaf 0 v ≡ none
unfolding leaf is_present
leaf-zero v = refl
