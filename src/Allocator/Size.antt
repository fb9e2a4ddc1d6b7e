-- ===== src/Allocator/Size.antt =====
-- `kernel/src/allocator.rs`: sizes, orders of the buddy allocator, size classes of the slabs.
use Prim.Native.Nat.{bit_and}
use vitr_os.Base.{
  ℕ, zero, suc, ◌+◌, ◌-◌, ◌*◌, ◌/◌, ◌%◌, ◌^◌, ◌≤◌, ◌<◌, ◌≡◌, refl, ◌∙◌, ap, ◌↔◌, ◌⊎◌, Option, none,
  some, List, [], ◌∷◌, ltb, leb, leb→le, ltb→ge, ◌==◌, ==_iff, if◌then◌else◌, Bool-cases, get_or,
  inl, inr, arith,
}

abbrev pub size_classes : List ℕ
size_classes = 8 ∷ 16 ∷ 32 ∷ 64 ∷ 128 ∷ 256 ∷ 512 ∷ 1024 ∷ 2048 ∷ 4096 ∷ []

abbrev pub num_size_classes : ℕ
num_size_classes = 10

abbrev pub min_slab_size_log2 : ℕ
min_slab_size_log2 = 3

abbrev pub min_block_size : ℕ
min_block_size = 4096

abbrev pub min_block_size_log2 : ℕ
min_block_size_log2 = 12

abbrev pub max_order : ℕ
max_order = 13

abbrev pub max_bitmap_words : ℕ
max_bitmap_words = 4096

-- `usize::BITS - x.leading_zeros()` is `bit_length 64 x`.
unfoldable pub bit_length : ℕ → ℕ → ℕ
bit_length zero x = 0
bit_length (suc n) x = if x == 0 then 0 else suc (bit_length n (x / 2))

-- `x.trailing_zeros()` is `trailing_zeros 64 x`; 64 at 0.
unfoldable pub trailing_zeros : ℕ → ℕ → ℕ
trailing_zeros zero x = 0
trailing_zeros (suc n) x = if x % 2 == 1 then 0 else suc (trailing_zeros n (x / 2))

-- The shift drops what leaves the word.
abbrev pub order_to_size : ℕ → ℕ
order_to_size order = min_block_size * 2 ^ order % 2 ^ 64

-- The subtraction of 12, here and below, stops at 0 in the source too.
unfoldable pub size_to_order : ℕ → ℕ
unfolding bit_length
size_to_order size =
    if leb size min_block_size then 0 else bit_length 64 (size - 1) - min_block_size_log2

unfoldable pub max_order_for_size : ℕ → ℕ
unfolding bit_length
max_order_for_size size =
    if ltb size min_block_size then 0 else bit_length 64 size - 1 - min_block_size_log2

unfoldable pub size_to_class : ℕ → Option ℕ
unfolding bit_length
size_to_class size =
    if size == 0
    then some 0
    else if ltb 4096 size
    then none
    else some (bit_length 64 (size - 1) - min_slab_size_log2)

-- `!(align - 1)` on 64 bits.
abbrev pub align_mask : ℕ → ℕ
align_mask align = 2 ^ 64 - 1 - (align + 2 ^ 64 - 1) % 2 ^ 64

unfoldable pub align_up : ℕ → ℕ → ℕ
align_up addr align = bit_and ((addr + align + 2 ^ 64 - 1) % 2 ^ 64) (align_mask align)

unfoldable pub align_down : ℕ → ℕ → ℕ
align_down addr align = bit_and addr (align_mask align)

pub pow_pos : (n : ℕ) → 0 < 2 ^ n
pow_pos zero = omega arith
pow_pos (suc n) = omega (arith, pow_pos n)

pub pow_mono : (a b : ℕ) → a ≤ b → 2 ^ a ≤ 2 ^ b
pow_mono zero b h = omega (arith, pow_pos b)
pow_mono (suc a) zero h = absurd (omega arith)
pow_mono (suc a) (suc b) h = omega (arith, pow_mono a b (omega arith))

pub bit_length-bound : (n x k : ℕ) → x < 2 ^ n → bit_length n x ≤ k → x < 2 ^ k
unfolding bit_length
bit_length-bound zero x k h l = omega (arith, pow_pos k)
bit_length-bound (suc n) x zero h l = ground arith
bit_length-bound (suc n) x (suc k) h l = elim (Bool-cases (x == 0)) [
  | inl e ↦ ground (arith, pow_pos (suc k))
  | inr e ↦
      let m : bit_length n (x / 2) ≤ k = ground arith in
      omega (arith, bit_length-bound n (x / 2) k (omega arith) m)
]

pub bit_length-least : (n x k : ℕ) → x < 2 ^ k → bit_length n x ≤ k
unfolding bit_length
bit_length-least zero x k h = omega arith
bit_length-least (suc n) x zero h = ground arith
bit_length-least (suc n) x (suc k) h = elim (Bool-cases (x == 0)) [
  | inl e ↦ rw e (omega arith)
  | inr e ↦ rw e (omega (arith, bit_length-least n (x / 2) k (omega arith)))
]

pub shift-pow : (o : ℕ) → min_block_size * 2 ^ o ≡ 2 ^ (12 + o)
shift-pow zero = refl
shift-pow (suc o) =
    let e : 2 ^ (12 + suc o) ≡ 2 ^ suc (12 + o) = ap (λ m. 2 ^ m) (omega arith) in
    omega (arith, e, shift-pow o)

pub order_to_size-pow : (order : ℕ) → order < max_order → order_to_size order ≡ 2 ^ (12 + order)
order_to_size-pow order h = omega (arith, shift-pow order, pow_mono (12 + order) 24 (omega arith))

-- `size_to_order` gives the least order whose blocks hold `size` bytes: for each order of the
-- allocator, a block of that order is large enough exactly if the order is not below the result.
pub size_to_order_lem :
    (size order : ℕ)
    → size ≤ 2 ^ 64
    → order < max_order
    → (size ≤ order_to_size order) ↔ (size_to_order size ≤ order)
unfolding size_to_order
size_to_order_lem size order s o =
    let e : order_to_size order ≡ 2 ^ (12 + order) = order_to_size-pow order o in
    elim (Bool-cases (leb size min_block_size)) [
      | inl c ↦ (
        λ h. ground arith,
        λ h.
            rw e
              (omega (arith, leb→le size min_block_size c, pow_mono 12 (12 + order) (omega arith))),
      )
      | inr c ↦ (
        λ h. ground (arith, e, bit_length-least 64 (size - 1) (12 + order) (ground (arith, e))),
        λ h.
            ground
              (arith, e, bit_length-bound 64 (size - 1) (12 + order) (omega arith) (ground arith)),
      )
    ]

powers : ℕ → ℕ → List ℕ
powers n zero = []
powers n (suc k) = 2 ^ n ∷ powers (suc n) k

get_or-powers : (n k c : ℕ) → c < k → get_or (powers n k) c 0 ≡ 2 ^ (n + c)
unfolding powers
get_or-powers n zero c h = absurd (omega arith)
get_or-powers n (suc k) zero h = ap (λ m. 2 ^ m) (omega arith)
get_or-powers n (suc k) (suc c) h =
    get_or-powers (suc n) k c (omega arith) ∙ ap (λ m. 2 ^ m) (omega arith)

class_size : (c : ℕ) → c < num_size_classes → get_or size_classes c 0 ≡ 2 ^ (3 + c)
unfolding powers
class_size c h = get_or-powers 3 num_size_classes c h

-- A request gets no size class exactly if it is above 4096 bytes. Otherwise its class exists, and is
-- the first whose blocks are large enough: a class holds the request exactly if it is not below it.
pub size_to_class_lem :
    (size : ℕ)
    → (4096 < size) × (size_to_class size ≡ none)
      ⊎ (size ≤ 4096)
        × ((c : ℕ) × (size_to_class size ≡ some c)
            × (c < num_size_classes)
            × ((i : ℕ) → i < num_size_classes → (size ≤ get_or size_classes i 0) ↔ (c ≤ i)))
unfolding size_to_class
size_to_class_lem size = elim (Bool-cases (size == 0)) [
  | inl e ↦ inr (
    ground arith,
    (0, rw e refl, omega arith, λ i h. (λ _. omega arith, λ _. omega (arith, (==_iff size 0).0 e))),
  )
  | inr e ↦ elim (Bool-cases (ltb 4096 size)) [
    | inl l ↦ inl (ground arith, rw (e, l) refl)
    | inr l ↦
        let n : size ≤ 4096 = ltb→ge 4096 size l in
        let z : 0 < size = ground arith in
        inr (
          n,
          (
            bit_length 64 (size - 1) - 3,
            rw (e, l) refl,
            omega (arith, bit_length-least 64 (size - 1) 12 (omega arith)),
            λ i h. (
              λ f.
                  omega
                    (arith, bit_length-least 64 (size - 1) (3 + i) (omega (arith, class_size i h))),
              λ f. omega (
                arith,
                class_size i h,
                bit_length-bound 64 (size - 1) (3 + i) (omega arith) (omega arith),
              ),
            ),
          ),
        )
  ]
]
