-- ===== src/Pci/Registers.antt =====
-- Reads of registers after writes.
use Prim.Native.Nat.{bit_and, bit_or}
use vitr_os.Base.{
  ℕ, ◌+◌, ◌*◌, ◌/◌, ◌%◌, ◌^◌, ◌<◌, ◌≡◌, ◌≢◌, refl, sym, ap, ◌∙◌, ◌⊎◌, inl, inr, true, false, ◌==◌,
  ==_iff, Bool-cases, if◌then◌else◌, arith,
}
use vitr_os.Base.Bits.{
  bit_and-field, bit_and-mask, bit_or-low, bit_or-fields, bit_or-zero, zero-bit_or,
}
use vitr_os.Pci.{
  Pci, Location, put, config_address, pci_config_read_u32, pci_config_write_u32,
  is_mmconfig_available, mmconfig_address, mmconfig_read_u32, mmconfig_write_u32, read_u32,
  write_u32, read_u16, write_u16, replace_bits,
}

put-same : (a v : ℕ) (f : ℕ → ℕ) → put a v f a ≡ v
put-same a v f = let e : (a == a) ≡ true = ground arith in rw e refl

put-other : (a b v : ℕ) (f : ℕ → ℕ) → b ≢ a → put a v f b ≡ f b
put-other a b v f n = let e : (b == a) ≡ false = ground arith in rw e refl

-- The fields above the offset make a multiple of 256.
or_multiples : (q r : ℕ) → bit_or (q * 2 ^ 8) (r * 2 ^ 8) ≡ bit_or q r * 2 ^ 8
or_multiples q r =
    let a : q * 2 ^ 8 + 0 ≡ q * 2 ^ 8 = omega arith in
    let b : r * 2 ^ 8 + 0 ≡ r * 2 ^ 8 = omega arith in
    let e : bit_or (q * 2 ^ 8) (r * 2 ^ 8) ≡ bit_or q r * 2 ^ 8 + bit_or 0 0 =
      rw a at (rw b at (bit_or-fields 8 q 0 r 0 (omega arith) (omega arith))) in
    omega (arith, e)

abbrev above_offset : Location → ℕ
above_offset l = bit_or (bit_or (bit_or (2 ^ 23) (l.bus * 2 ^ 8)) (l.device * 2 ^ 3)) l.function

config_address_lem :
    (l : Location) (n : ℕ) → n < 64 → config_address l (n * 4) ≡ above_offset l * 2 ^ 8 + n * 4
unfolding config_address
config_address_lem l n h =
    let b : l.bus * 2 ^ 16 ≡ l.bus * 2 ^ 8 * 2 ^ 8 = omega arith in
    let d : l.device * 2 ^ 11 ≡ l.device * 2 ^ 3 * 2 ^ 8 = omega arith in
    let o : bit_and (n * 4) 0xFC ≡ n * 4 = omega (arith, bit_and-field 2 6 (n * 4)) in
    rw (b, d, o)
      (rw (or_multiples (2 ^ 23) (l.bus * 2 ^ 8)) (
        rw (or_multiples (bit_or (2 ^ 23) (l.bus * 2 ^ 8)) (l.device * 2 ^ 3)) (
          rw (or_multiples (bit_or (bit_or (2 ^ 23) (l.bus * 2 ^ 8)) (l.device * 2 ^ 3)) l.function)
            (bit_or-low 8 (above_offset l) (n * 4) (omega arith)))))

-- The words of one function's standard space, by memory and by ports.
module _ (l : Location) (p : Pci) where
  by_memory :
      (f : ℕ → ℕ) (o : ℕ)
      → is_mmconfig_available l.bus p ≡ true
      → read_u32 l o (record p { memory = f }) ≡ f (mmconfig_address l o p)
  unfolding read_u32 mmconfig_read_u32 is_mmconfig_available
  by_memory f o e = rw e refl

  by_ports :
      (f : ℕ → ℕ) (o : ℕ)
      → is_mmconfig_available l.bus p ≡ false
      → read_u32 l o (record p { ports = f }) ≡ f (config_address l (o % 2 ^ 8))
  unfolding read_u32 pci_config_read_u32 is_mmconfig_available
  by_ports f o e = rw e refl

  write_by_memory :
      (o v : ℕ)
      → is_mmconfig_available l.bus p ≡ true
      → write_u32 l o v p ≡ record p { memory = put (mmconfig_address l o p) v p.memory }
  unfolding write_u32 mmconfig_write_u32
  write_by_memory o v e = rw e refl

  write_by_ports :
      (o v : ℕ)
      → is_mmconfig_available l.bus p ≡ false
      → write_u32 l o v p ≡ record p { ports = put (config_address l (o % 2 ^ 8)) v p.ports }
  unfolding write_u32 pci_config_write_u32
  write_by_ports o v e = rw e refl

  pub read_u32-same : (o v : ℕ) → read_u32 l o (write_u32 l o v p) ≡ v
  read_u32-same o v = elim (Bool-cases (is_mmconfig_available l.bus p)) [
    | inl e ↦
        let a : ℕ = mmconfig_address l o p in
        ap (read_u32 l o) (write_by_memory o v e)
        ∙ by_memory (put a v p.memory) o e
        ∙ put-same a v p.memory
    | inr e ↦
        let a : ℕ = config_address l (o % 2 ^ 8) in
        ap (read_u32 l o) (write_by_ports o v e)
        ∙ by_ports (put a v p.ports) o e
        ∙ put-same a v p.ports
  ]

  apart :
      (n m : ℕ)
      → n < 64
      → m < 64
      → m ≢ n
      → mmconfig_address l (m * 4) p ≢ mmconfig_address l (n * 4) p
  unfolding mmconfig_address
  apart n m h k d q = d (omega (arith, q))

  pub read_u32-other :
      (n m v : ℕ)
      → n < 64
      → m < 64
      → m ≢ n
      → read_u32 l (m * 4) (write_u32 l (n * 4) v p) ≡ read_u32 l (m * 4) p
  read_u32-other n m v h k d = elim (Bool-cases (is_mmconfig_available l.bus p)) [
    | inl e ↦
        let a : ℕ = mmconfig_address l (n * 4) p in
        ap (read_u32 l (m * 4)) (write_by_memory (n * 4) v e)
        ∙ by_memory (put a v p.memory) (m * 4) e
        ∙ put-other a (mmconfig_address l (m * 4) p) v p.memory (apart n m h k d)
        ∙ sym (by_memory p.memory (m * 4) e)
    | inr e ↦
        let a : n * 4 % 2 ^ 8 ≡ n * 4 = omega arith in
        let b : m * 4 % 2 ^ 8 ≡ m * 4 = omega arith in
        let c : config_address l (m * 4 % 2 ^ 8) ≢ config_address l (n * 4 % 2 ^ 8) =
          rw (a, b)
            (λ q. d (omega (arith, q, config_address_lem l n h, config_address_lem l m k))) in
        ap (read_u32 l (m * 4)) (write_by_ports (n * 4) v e)
        ∙ by_ports (put (config_address l (n * 4 % 2 ^ 8)) v p.ports) (m * 4) e
        ∙ put-other (config_address l (n * 4 % 2 ^ 8)) (config_address l (m * 4 % 2 ^ 8)) v p.ports
            c
        ∙ sym (by_ports p.ports (m * 4) e)
  ]

-- A half of a word.
abbrev half : ℕ → ℕ → ℕ
half n word = if n == 0 then word % 2 ^ 16 else word / 2 ^ 16 % 2 ^ 16

abbrev with_half : ℕ → ℕ → ℕ → ℕ
with_half n v word = if n == 0 then word / 2 ^ 16 * 2 ^ 16 + v else v * 2 ^ 16 + word % 2 ^ 16

half_cases : (n : ℕ) → (n % 2 ≡ 0) ⊎ (n % 2 ≡ 1)
half_cases n = ground arith

-- A register of two bytes: its word and the half in it.
aligned_lem : (n : ℕ) → n < 128 → bit_and (n * 2) 0xFFFC ≡ n / 2 * 4
aligned_lem n h = omega (arith, bit_and-field 2 14 (n * 2))

shift_lem : (n : ℕ) → bit_and (n * 2) 0x02 * 8 ≡ n % 2 * 16
shift_lem n = omega (arith, bit_and-field 1 1 (n * 2))

read_u16_lem :
    (l : Location) (n : ℕ) (p : Pci)
    → n < 128
    → read_u16 l (n * 2) p ≡ half (n % 2) (read_u32 l (n / 2 * 4) p)
unfolding read_u16
read_u16_lem l n p h =
    let word : ℕ = read_u32 l (n / 2 * 4) p in
    rw (aligned_lem n h) (
      rw (shift_lem n) (elim (half_cases n) [
        | inl e ↦ rw e (bit_and-mask 16 (word / 1) ∙ omega arith)
        | inr e ↦ rw e (bit_and-mask 16 (word / 2 ^ 16))
      ]))

replace_bits_lem :
    (n v word : ℕ)
    → v < 2 ^ 16
    → word < 2 ^ 32
    → replace_bits 0xFFFF (n % 2 * 16) v word ≡ with_half (n % 2) v word
unfolding replace_bits
replace_bits_lem n v word h k = elim (half_cases n) [
  | inl e ↦
      let a : v * 1 % 2 ^ 32 ≡ v = omega arith in
      let b : bit_and word 0xFFFF_0000 ≡ word / 2 ^ 16 * 2 ^ 16 =
        omega (arith, bit_and-field 16 16 word) in
      rw e (rw (a, b) (bit_or-low 16 (word / 2 ^ 16) v h))
  | inr e ↦
      let a : v * 2 ^ 16 % 2 ^ 32 ≡ v * 2 ^ 16 = omega arith in
      let b : bit_and word 0xFFFF ≡ word % 2 ^ 16 = bit_and-mask 16 word in
      let r : ℕ = word % 2 ^ 16 in
      let z : 0 * 2 ^ 16 + r ≡ r = omega arith in
      let y : v * 2 ^ 16 + 0 ≡ v * 2 ^ 16 = omega arith in
      let split : bit_or r (v * 2 ^ 16) ≡ bit_or 0 v * 2 ^ 16 + bit_or r 0 =
        rw z at (rw y at (bit_or-fields 16 0 r v 0 (omega arith) (omega arith))) in
      rw e (rw (a, b) (omega (arith, split, zero-bit_or v, bit_or-zero r)))
]

write_u16_lem :
    (l : Location) (n v : ℕ) (p : Pci)
    → n < 128
    → v < 2 ^ 16
    → read_u32 l (n / 2 * 4) p < 2 ^ 32
    → write_u16 l (n * 2) v p
      ≡ write_u32 l (n / 2 * 4) (with_half (n % 2) v (read_u32 l (n / 2 * 4) p)) p
unfolding write_u16
write_u16_lem l n v p h k w = rw (aligned_lem n h) (
    rw (shift_lem n)
      (ap (λ x. write_u32 l (n / 2 * 4) x p) (replace_bits_lem n v (read_u32 l (n / 2 * 4) p) k w)))

half-with_half : (n v word : ℕ) → v < 2 ^ 16 → half n (with_half n v word) ≡ v
half-with_half n v word h = ground arith

half-with_other :
    (n m v word : ℕ)
    → v < 2 ^ 16
    → n % 2 ≢ m % 2
    → half (m % 2) (with_half (n % 2) v word) ≡ half (m % 2) word
half-with_other n m v word h d = ground arith

-- `read_u16` after `write_u16` in the standard space of a function: the register holds the value that
-- was written, and the other registers, in the same word too, what they held before.
pub read_u16-write_u16 :
    (l : Location) (n v : ℕ) (p : Pci)
    → n < 128
    → v < 2 ^ 16
    → read_u32 l (n / 2 * 4) p < 2 ^ 32
    → (read_u16 l (n * 2) (write_u16 l (n * 2) v p) ≡ v)
      × ((m : ℕ)
          → m < 128
          → m ≢ n
          → read_u16 l (m * 2) (write_u16 l (n * 2) v p) ≡ read_u16 l (m * 2) p)
read_u16-write_u16 l n v p h k w =
    let word : ℕ = read_u32 l (n / 2 * 4) p in
    let new : ℕ = with_half (n % 2) v word in
    rw (write_u16_lem l n v p h k w) (
      read_u16_lem l n (write_u32 l (n / 2 * 4) new p) h
          ∙ ap (half (n % 2)) (read_u32-same l p (n / 2 * 4) new)
          ∙ half-with_half (n % 2) v word k,
      λ m i d.
          read_u16_lem l m (write_u32 l (n / 2 * 4) new p) i
          ∙ elim (Bool-cases (m / 2 == n / 2)) [
            | inl y ↦
                let q : m / 2 ≡ n / 2 = (==_iff (m / 2) (n / 2)).0 y in
                ap (λ x. half (m % 2) (read_u32 l (x * 4) (write_u32 l (n / 2 * 4) new p))) q
                ∙ ap (half (m % 2)) (read_u32-same l p (n / 2 * 4) new)
                ∙ half-with_other n m v word k (λ r. d (omega (arith, q, r)))
                ∙ ap (λ x. half (m % 2) (read_u32 l (x * 4) p)) (sym q)
            | inr y ↦
                ap (half (m % 2)) (
                  read_u32-other l p (n / 2) (m / 2) new (omega arith) (omega arith) (ground arith))
          ]
          ∙ sym (read_u16_lem l m p i),
    )
