-- ===== src/Allocator/Buddy/Blocks.antt =====
-- The blocks of the region of the buddy allocator: their addresses, their indices in the bit maps and
-- their buddies.
use Prim.Native.Nat.{bit_xor}
use vitr_os.Base.{
  ℕ, suc, ◌+◌, ◌*◌, ◌/◌, ◌%◌, ◌^◌, ◌≤◌, ◌<◌, ◌≡◌, refl, ap, ◌∙◌, ◌⊎◌, inl, inr, true, ◌==◌, ==_iff,
  Bool-cases, arith,
}
use vitr_os.Base.Bits.{bit_xor-fields, bit_xor-zero}
use vitr_os.Allocator.Size.{max_order, order_to_size, order_to_size-pow, pow_mono, pow_pos}
use vitr_os.Allocator.Buddy.{Buddy, relative_to, addr_to_bit_index, in_bitmap, buddy_address}

-- A region that the bit maps have room for, which does not reach the end of the address space.
pub record IsRegion (start size : ℕ) : Type 0 where
  pub positive : 0 < start
  pub inside : start + size < 2 ^ 64
  pub limit : size ≤ 2 ^ 30

-- The block is whole in the region.
pub record IsBlock (start size o a : ℕ) : Type 0 where
  pub index : ℕ
  pub at_index : a ≡ start + index * order_to_size o
  pub small : o < max_order
  pub fits : index * order_to_size o + order_to_size o ≤ size

-- The block starts in the region.
pub record IsSpot (start size o a : ℕ) : Type 0 where
  pub index : ℕ
  pub at_index : a ≡ start + index * order_to_size o
  pub small : o < max_order
  pub starts : index * order_to_size o < size

pub order_to_size-bounds :
    (o : ℕ) → o < max_order → (4096 ≤ order_to_size o) × (order_to_size o ≤ 2 ^ 24)
order_to_size-bounds o h = omega (
  arith,
  order_to_size-pow o h,
  pow_mono 12 (12 + o) (omega arith),
  pow_mono (12 + o) 24 (omega arith),
)

pub order_to_size-suc :
    (o : ℕ) → suc o < max_order → order_to_size (suc o) ≡ order_to_size o + order_to_size o
order_to_size-suc o h =
    let e : 2 ^ (12 + suc o) ≡ 2 ^ suc (12 + o) = ap (λ m. 2 ^ m) (omega arith) in
    omega (arith, order_to_size-pow o (omega arith), order_to_size-pow (suc o) h, e)

abbrev pub IsBlock-IsSpot : (start size o a : ℕ) → IsBlock start size o a → IsSpot start size o a
IsBlock-IsSpot start size o a b = record {
  index = b.index;
  at_index = b.at_index;
  small = b.small;
  starts = omega (arith, b.fits, (order_to_size-bounds o b.small).0);
}

quotient : (k n : ℕ) → 0 < n → k * n / n ≡ k
quotient k n h = grind arith

few : (k n : ℕ) → 4096 ≤ n → k * n < 2 ^ 30 → k < 2 ^ 18
few k n h l = grind arith

pub index-inj : (k l n : ℕ) → 0 < n → k * n ≡ l * n → k ≡ l
index-inj k l n h e = grind arith

module _ (start size : ℕ) (s : Buddy) (region : IsRegion start size)
    (at_start : s.region_start ≡ start) (o a : ℕ) (spot : IsSpot start size o a) where
  relative-spot : relative_to s.region_start a ≡ spot.index * order_to_size o
  relative-spot = omega (arith, at_start, spot.at_index, spot.starts, region.inside)

  pub addr_to_bit_index-spot : addr_to_bit_index a o s ≡ spot.index
  addr_to_bit_index-spot = rw relative-spot (
      rw (← order_to_size-pow o spot.small) (
        quotient spot.index (order_to_size o)
          (omega (arith, (order_to_size-bounds o spot.small).0))))

  pub in_bitmap-spot : in_bitmap (addr_to_bit_index a o s) o ≡ true
  in_bitmap-spot =
      let f =
        few spot.index (order_to_size o) (order_to_size-bounds o spot.small).0
          (omega (arith, spot.starts, region.limit)) in
      rw addr_to_bit_index-spot (ground (arith, f, spot.small))

-- The number of the buddy: the next one of an even number, the last one of an odd number.
xor_one : (k : ℕ) → (k % 2 ≡ 0) × (bit_xor k 1 ≡ k + 1) ⊎ (k % 2 ≡ 1) × (bit_xor k 1 + 1 ≡ k)
xor_one k =
    let q = k / 2 in
    let f = bit_xor-fields 1 q (k % 2) 0 1 (omega arith) (omega arith) in
    let e : q * 2 ^ 1 + k % 2 ≡ k = omega arith in
    let g : bit_xor k 1 ≡ q * 2 + bit_xor (k % 2) 1 = rw (e, bit_xor-zero) at f in
    elim (Bool-cases (k % 2 == 0)) [
      | inl c ↦
          let z : k % 2 ≡ 0 = (==_iff (k % 2) 0).0 c in
          inl (z, let h : bit_xor (k % 2) 1 ≡ 1 = rw z refl in omega (arith, g, h, z))
      | inr c ↦
          let z : k % 2 ≡ 1 = ground arith in
          inr (z, let h : bit_xor (k % 2) 1 ≡ 0 = rw z refl in omega (arith, g, h, z))
    ]

xor_size : (k n : ℕ) → bit_xor (k * 2 ^ n) (2 ^ n) ≡ bit_xor k 1 * 2 ^ n
xor_size k n =
    let f = bit_xor-fields n k 0 1 0 (omega (arith, pow_pos n)) (omega (arith, pow_pos n)) in
    let e : k * 2 ^ n + 0 ≡ k * 2 ^ n = omega arith in
    let e' : 1 * 2 ^ n + 0 ≡ 2 ^ n = omega arith in
    let e'' : bit_xor k 1 * 2 ^ n + bit_xor 0 0 ≡ bit_xor k 1 * 2 ^ n = omega arith in
    rw (e, e', e'') at f

-- The two halves of a block of the next order.
pub record AreBuddies (start size o a b : ℕ) : Type 0 where
  pub pair : ℕ
  pub low : a ≡ start + (pair + pair) * order_to_size o
  pub high : b ≡ a + order_to_size o

module _ (start size : ℕ) (s : Buddy) (region : IsRegion start size)
    (at_start : s.region_start ≡ start) (o a : ℕ) (block : IsBlock start size o a) where
  -- The buddy of a block is the other half of the same block of the next order.
  pub buddy_address-AreBuddies :
      AreBuddies start size o a (buddy_address a o s)
      ⊎ AreBuddies start size o (buddy_address a o s) a
  buddy_address-AreBuddies =
      let k = block.index in
      let n = order_to_size o in
      let spot = IsBlock-IsSpot start size o a block in
      let p : n ≡ 2 ^ (12 + o) = order_to_size-pow o block.small in
      let x : bit_xor (k * n) n ≡ bit_xor k 1 * n = rw (p) (xor_size k (12 + o)) in
      let r : relative_to s.region_start a ≡ k * n =
        relative-spot start size s region at_start o a spot in
      let q : buddy_address a o s ≡ (s.region_start + bit_xor k 1 * n) % 2 ^ 64 =
        ap (λ y. (s.region_start + bit_xor y n) % 2 ^ 64) r
        ∙ ap (λ y. (s.region_start + y) % 2 ^ 64) x in
      elim (xor_one k) [
        | inl (z, e) ↦
            let m : bit_xor k 1 * n ≡ k * n + n = rw e (grind arith) in
            inl (record {
              pair = k / 2;
              low = let d : k / 2 + k / 2 ≡ k = omega (arith, z) in rw d block.at_index;
              high = omega (arith, q, m, at_start, block.at_index, block.fits, region.inside);
            })
        | inr (z, e) ↦
            let m : bit_xor k 1 * n + n ≡ k * n = rw (← e) (grind arith) in
            let d : k / 2 + k / 2 ≡ bit_xor k 1 = omega (arith, z, e) in
            inr (record {
              pair = k / 2;
              low = rw d (omega (arith, q, m, at_start, block.fits, region.inside));
              high = omega (arith, q, m, at_start, block.at_index, block.fits, region.inside);
            })
      ]
