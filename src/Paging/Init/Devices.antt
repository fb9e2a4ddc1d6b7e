-- ===== src/Paging/Init/Devices.antt =====
-- The binary search of `kernel/src/paging.rs` for the ranges of devices, against the memory map.
use mathlib.Core.List.{reverse_aux}
use vitr_os.Base.{
  ℕ, zero, suc, ◌+◌, ◌%◌, ◌^◌, ◌≤◌, ◌<◌, ◌≡◌, refl, sym, ap, ◌∙◌, inl, inr, Bool, true, false, ◌&&◌,
  ◌||◌, Bool-cases, Option, none, some, List, [], ◌∷◌, All, All-mono, ltb, leb, ◌==◌, if◌then◌else◌,
  arith,
}
use vitr_os.Boot.{MemoryRegion}
use vitr_os.Paging.Init.{
  MmioRange, is_mmio, mmio_ranges, insert_range, sort_onto, extract_mmio_regions, last_from,
  ends_above, is_mmio_region_binary,
}

-- Whether the memory map has a region of a device, of type 11 or 12, with this address in it.
abbrev pub is_device : List MemoryRegion → ℕ → Bool
is_device [] p = false
is_device (r ∷ l) p =
    (r.region_type == 11 || r.region_type == 12) && (leb r.start p && ltb p (r.start + r.size))
    || is_device l p

-- The number of regions of devices.
abbrev pub count_devices : List MemoryRegion → ℕ
count_devices [] = 0
count_devices (r ∷ l) =
    if r.region_type == 11 || r.region_type == 12 then suc (count_devices l) else count_devices l

abbrev in_range : ℕ → MmioRange → Bool
in_range p r = leb r.start p && ltb p r.end

abbrev any_range : ℕ → List MmioRange → Bool
any_range p [] = false
any_range p (r ∷ l) = in_range p r || any_range p l

-- No range overlaps with a later one.
abbrev pub IsApart : List MmioRange → Type 0
IsApart [] = Unit
IsApart (r ∷ l) = All (λ q. r.end ≤ q.start) l × (r.start ≤ r.end) × IsApart l

or_swap : (a b c : Bool) → a || (b || c) ≡ b || (a || c)
or_swap true true c = refl
or_swap true false c = refl
or_swap false b c = refl

or_rotate : (a b c : Bool) → (a || b) || c ≡ b || (a || c)
or_rotate true true c = refl
or_rotate true false c = refl
or_rotate false b c = refl

or_false : (a : Bool) → a || false ≡ a
or_false true = refl
or_false false = refl

any_range-insert_range :
    (p : ℕ) (key : MmioRange) (l : List MmioRange)
    → any_range p (insert_range key l) ≡ in_range p key || any_range p l
unfolding insert_range
any_range-insert_range p key [] = refl
any_range-insert_range p key (r ∷ l) = elim (Bool-cases (ltb key.start r.start)) [
  | inl e ↦ rw e (
      ap (λ x. in_range p r || x) (any_range-insert_range p key l)
      ∙ or_swap (in_range p r) (in_range p key) (any_range p l))
  | inr e ↦ rw e refl
]

any_range-sort_onto :
    (p : ℕ) (sorted l : List MmioRange)
    → any_range p (sort_onto sorted l) ≡ any_range p sorted || any_range p l
unfolding sort_onto
any_range-sort_onto p sorted [] = sym (or_false (any_range p sorted))
any_range-sort_onto p sorted (key ∷ l) =
    any_range-sort_onto p (insert_range key sorted) l
    ∙ ap (λ x. x || any_range p l) (any_range-insert_range p key sorted)
    ∙ or_rotate (in_range p key) (any_range p sorted) (any_range p l)

any_range-reverse_aux :
    (p : ℕ) (l m : List MmioRange) → any_range p (reverse_aux l m) ≡ any_range p l || any_range p m
any_range-reverse_aux p [] m = refl
any_range-reverse_aux p (r ∷ l) m =
    any_range-reverse_aux p l (r ∷ m)
    ∙ sym (or_rotate (in_range p r) (any_range p l) (any_range p m))

no_room : (l : List MemoryRegion) → mmio_ranges 0 l ≡ []
unfolding mmio_ranges
no_room [] = refl
no_room (r ∷ l) = refl

mmio_ranges-device :
    (room : ℕ) (r : MemoryRegion) (l : List MemoryRegion)
    → is_mmio r ≡ true
    → mmio_ranges (suc room) (r ∷ l)
      ≡ record { start = r.start; end = (r.start + r.size) % 2 ^ 64 } ∷ mmio_ranges room l
unfolding mmio_ranges
mmio_ranges-device room r l e = rw (e, mmio_ranges) refl

mmio_ranges-other :
    (room : ℕ) (r : MemoryRegion) (l : List MemoryRegion)
    → is_mmio r ≡ false
    → mmio_ranges (suc room) (r ∷ l) ≡ mmio_ranges (suc room) l
unfolding mmio_ranges
mmio_ranges-other room r l e = rw (e, mmio_ranges) refl

any_range-mmio_ranges :
    (p room : ℕ) (l : List MemoryRegion)
    → count_devices l ≤ room
    → All (λ r. r.start + r.size < 2 ^ 64) l
    → any_range p (mmio_ranges room l) ≡ is_device l p
unfolding mmio_ranges
any_range-mmio_ranges p room [] n s = refl
any_range-mmio_ranges p zero (r ∷ l) n s = elim (Bool-cases (is_mmio r)) [
  | inl e ↦ absurd (omega (arith, rw e at n))
  | inr e ↦
      rw e (ap (any_range p) (sym (no_room l)) ∙ any_range-mmio_ranges p zero l (rw e at n) s.1)
]
any_range-mmio_ranges p (suc room) (r ∷ l) n s = elim (Bool-cases (is_mmio r)) [
  | inl e ↦
      let w : (r.start + r.size) % 2 ^ 64 ≡ r.start + r.size = omega (arith, s.0) in
      rw e (
        ap (any_range p) (mmio_ranges-device room r l e)
        ∙ ap (λ n. (leb r.start p && ltb p n) || any_range p (mmio_ranges room l)) w
        ∙ ap (λ x. (leb r.start p && ltb p (r.start + r.size)) || x)
            (any_range-mmio_ranges p room l (omega (arith, rw e at n)) s.1))
  | inr e ↦ rw e (
      ap (any_range p) (mmio_ranges-other room r l e)
      ∙ any_range-mmio_ranges p (suc room) l (rw e at n) s.1)
]

-- Ranges above the address are not looked at.
last_from-above :
    (p : ℕ) (o : Option MmioRange) (l : List MmioRange)
    → All (λ q. p < q.start) l
    → (last_from p o l ≡ o) × (any_range p l ≡ false)
unfolding last_from
last_from-above p o [] a = (refl, refl)
last_from-above p o (r ∷ l) a =
    let e : leb r.start p ≡ false = ground (arith, a.0) in
    rw e (refl, (last_from-above p o l a.1).1)

-- The last range that starts at or below the address is the only one that can have it.
last_from-apart :
    (p : ℕ) (o : Option MmioRange) (r : MmioRange) (l : List MmioRange)
    → IsApart (r ∷ l)
    → r.start ≤ p
    → ends_above p (last_from p o (r ∷ l)) ≡ any_range p (r ∷ l)
unfolding last_from
last_from-apart p o r [] a h =
    let e : leb r.start p ≡ true = ground (arith, h) in rw e (sym (or_false (ltb p r.end)))
last_from-apart p o r (q ∷ l) a h =
    let e : leb r.start p ≡ true = ground (arith, h) in
    elim (Bool-cases (leb q.start p)) [
      | inl f ↦
          let below : q.start ≤ p = ground (arith, f) in
          let past : ltb p r.end ≡ false = ground (arith, a.0.0, below) in
          rw (e, past) (last_from-apart p (some r) q l a.2 below)
      | inr f ↦
          let above : p < q.start = ground (arith, f) in
          let (same, z) =
            last_from-above p (some r) (q ∷ l)
              (above, All-mono (λ x b. omega (arith, above, a.2.1, b)) l a.2.0) in
          rw e
            (ap (ends_above p) same ∙ sym (ap (λ x. ltb p r.end || x) z ∙ or_false (ltb p r.end)))
    ]

is_mmio_region_binary-any_range :
    (p : ℕ) (l : List MmioRange) → IsApart l → is_mmio_region_binary p l ≡ any_range p l
unfolding is_mmio_region_binary
is_mmio_region_binary-any_range p [] a = refl
is_mmio_region_binary-any_range p (r ∷ l) a = elim (Bool-cases (leb r.start p)) [
  | inl e ↦ last_from-apart p none r l a (ground (arith, e))
  | inr e ↦
      let above : p < r.start = ground (arith, e) in
      let (same, z) =
        last_from-above p none (r ∷ l)
          (above, All-mono (λ x b. omega (arith, above, a.1, b)) l a.0) in
      ap (ends_above p) same ∙ sym z
]

-- If no region of a device reaches the end of the address space, there are at most 64 of them, and they
-- do not overlap once they are sorted, then the search in the sorted ranges finds an address exactly
-- if it is in a region of a device.
pub is_mmio_region_binary-extract :
    (p : ℕ) (l : List MemoryRegion)
    → count_devices l ≤ 64
    → All (λ r. r.start + r.size < 2 ^ 64) l
    → IsApart (extract_mmio_regions l)
    → is_mmio_region_binary p (extract_mmio_regions l) ≡ is_device l p
unfolding extract_mmio_regions
is_mmio_region_binary-extract p l n s a =
    is_mmio_region_binary-any_range p (extract_mmio_regions l) a
    ∙ any_range-reverse_aux p (sort_onto [] (mmio_ranges 64 l)) []
    ∙ or_false (any_range p (sort_onto [] (mmio_ranges 64 l)))
    ∙ any_range-sort_onto p [] (mmio_ranges 64 l)
    ∙ any_range-mmio_ranges p 64 l n s
