-- ===== src/Loader/Pages/Windows.antt =====
-- What the tables of the boot loader mean, by the walk of the processor over them: the memory below
-- 8 GB appears at its own address and again from the base of the kernel on.
use Prim.Native.Nat.{bit_or}
use vitr_os.Base.{
  ℕ, ◌+◌, ◌-◌, ◌*◌, ◌/◌, ◌%◌, ◌^◌, ◌≤◌, ◌<◌, ◌≡◌, ◌≢◌, refl, ap, ◌∙◌, ◌⊎◌, Bool, true, false, ◌&&◌,
  Option, none, some, ltb, leb, ◌==◌, if◌then◌else◌, arith,
}
use vitr_os.Base.Bits.{bit_or-low}
use vitr_os.Paging.{PageTable, make_entry, get_address, is_present, is_huge_page}
use vitr_os.Paging.Entry.{
  make_entry_lem, get_address-make_entry, is_present-make_entry, is_huge_page-make_entry,
}
use vitr_os.Paging.Walk.{Translation, page_of, leaf}
use vitr_os.Loader.Pages.{Places, BootTables, flags, huge_flags}

-- The table at a physical address.
abbrev pub table_at : Places → BootTables → ℕ → Option PageTable
table_at p t a =
    if a == p.boot_pdp_low
    then some t.pdp_low
    else if a == p.boot_pdp_high
    then some t.pdp_high
    else if leb p.boot_pd_low a && ltb a (p.boot_pd_low + 8 * 2 ^ 12)
    then some (t.pd_low ((a - p.boot_pd_low) / 2 ^ 12))
    else if leb p.boot_pd_high a && ltb a (p.boot_pd_high + 8 * 2 ^ 12)
    then some (t.pd_high ((a - p.boot_pd_high) / 2 ^ 12))
    else none

unfoldable pub descend : (ℕ → Option PageTable) → ℕ → (PageTable → Translation) → Translation
descend at e next =
    if is_present e
    then (elim (at (get_address e)) [ none ↦ none | some table ↦ next table ])
    else none

unfoldable pub descend_huge :
    (ℕ → Option PageTable) → ℕ → ℕ → ℕ → (PageTable → Translation) → Translation
unfolding descend page_of
descend_huge at k e v next =
    if is_present e && is_huge_page e then page_of k e v else descend at e next

-- From an entry of the third level on.
unfoldable pub walk_down : (ℕ → Option PageTable) → ℕ → PageTable → Translation
unfolding descend_huge leaf
walk_down at v pdp =
    descend_huge at 30 (pdp (v / 2 ^ 30 % 512)) v
      (λ pd. descend_huge at 21 (pd (v / 2 ^ 21 % 512)) v (λ pt. leaf (pt (v / 2 ^ 12 % 512)) v))

unfoldable pub walk : Places → BootTables → ℕ → Translation
unfolding walk_down
walk p t v = descend (table_at p t) (t.pml4 (v / 2 ^ 39 % 512)) (walk_down (table_at p t) v)

-- The tables are aligned and do not overlap.
pub record IsPlaced (p : Places) : Type 0 where
  pub pdp_low : (p.boot_pdp_low % 2 ^ 12 ≡ 0) × (p.boot_pdp_low < 2 ^ 40)
  pub pdp_high : (p.boot_pdp_high % 2 ^ 12 ≡ 0) × (p.boot_pdp_high < 2 ^ 40)
  pub pd_low : (p.boot_pd_low % 2 ^ 12 ≡ 0) × (p.boot_pd_low < 2 ^ 40)
  pub pd_high : (p.boot_pd_high % 2 ^ 12 ≡ 0) × (p.boot_pd_high < 2 ^ 40)
  pub pdps : p.boot_pdp_low ≢ p.boot_pdp_high
  pub low_low : (p.boot_pdp_low < p.boot_pd_low) ⊎ (p.boot_pd_low + 8 * 2 ^ 12 ≤ p.boot_pdp_low)
  pub low_high : (p.boot_pdp_low < p.boot_pd_high) ⊎ (p.boot_pd_high + 8 * 2 ^ 12 ≤ p.boot_pdp_low)
  pub high_low : (p.boot_pdp_high < p.boot_pd_low) ⊎ (p.boot_pd_low + 8 * 2 ^ 12 ≤ p.boot_pdp_high)
  pub high_high :
      (p.boot_pdp_high < p.boot_pd_high) ⊎ (p.boot_pd_high + 8 * 2 ^ 12 ≤ p.boot_pdp_high)
  pub pds :
      (p.boot_pd_low + 8 * 2 ^ 12 ≤ p.boot_pd_high) ⊎ (p.boot_pd_high + 8 * 2 ^ 12 ≤ p.boot_pd_low)

-- The physical address `a` is below 8 GB and in a 2 MB page that starts below the end of the memory.
abbrev pub is_covered : ℕ → ℕ → Bool
is_covered max_phys_addr a = ltb a (2 ^ 33) && ltb (a / 2 ^ 21 * 2 ^ 21) max_phys_addr

-- What the address is to be translated to: writable, in a page of 2 MB, or nothing.
abbrev pub expected : ℕ → ℕ → Translation
expected max_phys_addr a =
    if is_covered max_phys_addr a then some (a, a / 2 ^ 21 * 2 ^ 21 + huge_flags) else none

module _ (q : ℕ) where
  with_flags : (low : ℕ) → low < 2 ^ 12 → bit_or (q * 2 ^ 12) low ≡ q * 2 ^ 12 + low
  with_flags low h = bit_or-low 12 q low h

  module _ (small : q < 2 ^ 40) where
    as_entry : bit_or (q * 2 ^ 12) flags ≡ make_entry (q * 2 ^ 12) 3
    as_entry =
        omega
          (arith, with_flags 3 (omega arith), make_entry_lem (q * 2 ^ 12) 0 3 (omega arith), small)

    as_huge_entry : bit_or (q * 2 ^ 12) huge_flags ≡ make_entry (q * 2 ^ 12) 131
    as_huge_entry = omega (
      arith,
      with_flags 131 (omega arith),
      make_entry_lem (q * 2 ^ 12) 0 131 (omega arith),
      small,
    )

    link_address : get_address (bit_or (q * 2 ^ 12) flags) ≡ q * 2 ^ 12
    link_address =
        rw as_entry (omega (arith, get_address-make_entry (q * 2 ^ 12) 0 3 (omega arith), small))

    link_present : is_present (bit_or (q * 2 ^ 12) flags) ≡ true
    link_present = rw as_entry (is_present-make_entry (q * 2 ^ 12) 0 3 (omega arith))

    link_huge_page : is_huge_page (bit_or (q * 2 ^ 12) flags) ≡ false
    link_huge_page = rw as_entry (is_huge_page-make_entry (q * 2 ^ 12) 0 3 (omega arith))

    pub descend-link :
        (at : ℕ → Option PageTable) (table : PageTable) (next : PageTable → Translation)
        → at (q * 2 ^ 12) ≡ some table
        → descend at (bit_or (q * 2 ^ 12) flags) next ≡ next table
    unfolding descend
    descend-link at table next e = rw (link_present, link_address, e) refl

    pub descend_huge-link :
        (at : ℕ → Option PageTable) (table : PageTable) (next : PageTable → Translation) (k v : ℕ)
        → at (q * 2 ^ 12) ≡ some table
        → descend_huge at k (bit_or (q * 2 ^ 12) flags) v next ≡ next table
    unfolding descend_huge
    descend_huge-link at table next k v e = rw (link_present, link_huge_page, link_address, e) refl

    pub descend_huge-page :
        (at : ℕ → Option PageTable) (next : PageTable → Translation) (v : ℕ)
        → descend_huge at 21 (bit_or (q * 2 ^ 12) huge_flags) v next
          ≡ some (q * 2 ^ 12 / 2 ^ 21 * 2 ^ 21 + v % 2 ^ 21, q * 2 ^ 12 + huge_flags)
    unfolding descend_huge
    descend_huge-page at next v =
        let e = make_entry (q * 2 ^ 12) 131 in
        let f : e ≡ q * 2 ^ 12 + 131 =
          omega (arith, make_entry_lem (q * 2 ^ 12) 0 131 (omega arith), small) in
        let g : get_address e ≡ q * 2 ^ 12 =
          omega (arith, get_address-make_entry (q * 2 ^ 12) 0 131 (omega arith), small) in
        rw as_huge_entry (
          rw (is_present-make_entry (q * 2 ^ 12) 0 131 (omega arith)) (
            rw (is_huge_page-make_entry (q * 2 ^ 12) 0 131 (omega arith)) (
              ap (λ x. some (x / 2 ^ 21 * 2 ^ 21 + v % 2 ^ 21, e)) g
              ∙ ap (λ x. some (q * 2 ^ 12 / 2 ^ 21 * 2 ^ 21 + v % 2 ^ 21, x)) f)))

pub descend-zero :
    (at : ℕ → Option PageTable) (next : PageTable → Translation) → descend at 0 next ≡ none
unfolding descend is_present
descend-zero at next = refl

pub descend_huge-zero :
    (at : ℕ → Option PageTable) (next : PageTable → Translation) (k v : ℕ)
    → descend_huge at k 0 v next ≡ none
unfolding descend_huge is_present
descend_huge-zero at next k v = refl
