-- ===== src/Base/Bits.antt =====
-- The bit operations on fields of a word: each acts on the fields separately.
use Prim.Native.Nat.{
  ℕ, zero, suc, ◌+◌, ◌-◌, ◌*◌, ◌/◌, ◌%◌, ◌^◌, ◌≤◌, ◌<◌, min, max, bit_and, bit_or, bit_xor, bitwise,
  digits, differ, bit_and-bitwise, bit_or-bitwise, bit_xor-bitwise,
}
use mathlib.Core.Path.{◌≡◌, refl, sym, ap, ◌∙◌}
use native.Mathlib.Omega.{arith}
use native.Mathlib.Nat.{mod-add-div', mod-lt}

-- A function of two words that works digit by digit: `f` on the lowest ones, and itself on the rest.
record IsDigitwise (op f : ℕ → ℕ → ℕ) : Type 0 where
  by_digit : (a b : ℕ) → op a b ≡ op (a / 2) (b / 2) * 2 + f (a % 2) (b % 2)
  zeros : op 0 0 ≡ 0

module _ (z : ℕ → ℕ) (f : ℕ → ℕ → ℕ) where
  -- Any count of digits serves that is not below the first number.
  enough : (n m a b : ℕ) → a ≤ n → a ≤ m → digits z f n a b ≡ digits z f m a b
  enough n m zero b p q = enough_zero n ∙ sym (enough_zero m)
    where
      enough_zero : (k : ℕ) → digits z f k 0 b ≡ z b
      enough_zero zero = refl
      enough_zero (suc k) = refl
  enough zero m (suc a) b p q = absurd (omega arith)
  enough (suc n) zero (suc a) b p q = absurd (omega arith)
  enough (suc n) (suc m) (suc a) b p q =
      ap (λ r. r * 2 + f (suc a % 2) (b % 2))
        (enough n m (suc a / 2) (b / 2) (omega arith) (omega arith))

  bitwise-by_digit :
      ((b : ℕ) → z b ≡ z (b / 2) * 2 + f 0 (b % 2))
      → (a b : ℕ) → bitwise z f a b ≡ bitwise z f (a / 2) (b / 2) * 2 + f (a % 2) (b % 2)
  bitwise-by_digit h zero b = h b
  bitwise-by_digit h (suc a) b =
      ap (λ r. r * 2 + f (suc a % 2) (b % 2))
        (enough a (suc a / 2) (suc a / 2) (b / 2) (omega arith) (omega arith))

and-IsDigitwise : IsDigitwise bit_and min
and-IsDigitwise = record {
  by_digit = λ a b.
      rw (bit_and-bitwise a b) (
        rw (bit_and-bitwise (a / 2) (b / 2))
          (bitwise-by_digit (λ _. 0) min (λ b. omega arith) a b));
  zeros = refl;
}

or-IsDigitwise : IsDigitwise bit_or max
or-IsDigitwise = record {
  by_digit = λ a b.
      rw (bit_or-bitwise a b) (
        rw (bit_or-bitwise (a / 2) (b / 2)) (bitwise-by_digit (λ b. b) max (λ b. omega arith) a b));
  zeros = refl;
}

xor-IsDigitwise : IsDigitwise bit_xor differ
xor-IsDigitwise = record {
  by_digit = λ a b. rw (bit_xor-bitwise a b) (
      rw (bit_xor-bitwise (a / 2) (b / 2))
        (bitwise-by_digit (λ b. b) differ (λ b. omega arith) a b));
  zeros = refl;
}

twice : (q k : ℕ) → q * 2 ^ suc k ≡ 2 * (q * 2 ^ k)
twice q k = let e : 2 ^ suc k ≡ 2 * 2 ^ k = omega arith in omega (arith, ap (λ t. q * t) e)

module _ (op f : ℕ → ℕ → ℕ) (law : IsDigitwise op f) where
  fields :
      (k q r q' r' : ℕ)
      → r < 2 ^ k
      → r' < 2 ^ k
      → op (q * 2 ^ k + r) (q' * 2 ^ k + r') ≡ op q q' * 2 ^ k + op r r'
  fields zero q r q' r' h h' =
      let e : r ≡ 0 = omega arith in
      let e' : r' ≡ 0 = omega arith in
      let z : op r r' ≡ 0 = rw (e, e') law.zeros in
      let a : q * 2 ^ 0 + r ≡ q = omega arith in
      let a' : q' * 2 ^ 0 + r' ≡ q' = omega arith in rw (a, a') (omega (arith, z))
  fields (suc k) q r q' r' h h' =
      let t = twice q k in
      let t' = twice q' k in
      let d : (q * 2 ^ suc k + r) / 2 ≡ q * 2 ^ k + r / 2 = omega (arith, t) in
      let d' : (q' * 2 ^ suc k + r') / 2 ≡ q' * 2 ^ k + r' / 2 = omega (arith, t') in
      let m : (q * 2 ^ suc k + r) % 2 ≡ r % 2 = omega (arith, t) in
      let m' : (q' * 2 ^ suc k + r') % 2 ≡ r' % 2 = omega (arith, t') in
      let step : op (q * 2 ^ suc k + r) (q' * 2 ^ suc k + r')
          ≡ op (q * 2 ^ k + r / 2) (q' * 2 ^ k + r' / 2) * 2 + f (r % 2) (r' % 2) =
        rw (← d, ← d', ← m, ← m') (law.by_digit (q * 2 ^ suc k + r) (q' * 2 ^ suc k + r')) in
      omega (
        arith,
        step,
        fields k q (r / 2) q' (r' / 2) (omega arith) (omega arith),
        law.by_digit r r',
        twice (op q q') k,
      )

-- The same for words that are not written as fields.
pub bit_and-fields :
    (k q r q' r' : ℕ)
    → r < 2 ^ k
    → r' < 2 ^ k
    → bit_and (q * 2 ^ k + r) (q' * 2 ^ k + r') ≡ bit_and q q' * 2 ^ k + bit_and r r'
bit_and-fields = fields bit_and min and-IsDigitwise

pub bit_or-fields :
    (k q r q' r' : ℕ)
    → r < 2 ^ k
    → r' < 2 ^ k
    → bit_or (q * 2 ^ k + r) (q' * 2 ^ k + r') ≡ bit_or q q' * 2 ^ k + bit_or r r'
bit_or-fields = fields bit_or max or-IsDigitwise

pub bit_xor-fields :
    (k q r q' r' : ℕ)
    → r < 2 ^ k
    → r' < 2 ^ k
    → bit_xor (q * 2 ^ k + r) (q' * 2 ^ k + r') ≡ bit_xor q q' * 2 ^ k + bit_xor r r'
bit_xor-fields = fields bit_xor differ xor-IsDigitwise

-- By induction on a bound, as the digits of `a / 2` come first.
and_zero_below : (n a : ℕ) → a ≤ n → bit_and a 0 ≡ 0
and_zero_below n zero h = refl
and_zero_below zero (suc a) h = absurd (omega arith)
and_zero_below (suc n) (suc a) h =
    omega (arith, and-IsDigitwise.by_digit (suc a) 0, and_zero_below n (suc a / 2) (omega arith))

pub bit_and-zero : (a : ℕ) → bit_and a 0 ≡ 0
bit_and-zero a = and_zero_below a a (omega arith)

pub zero-bit_and : (a : ℕ) → bit_and 0 a ≡ 0
zero-bit_and a = bit_and-bitwise 0 a

or_zero_below : (n a : ℕ) → a ≤ n → bit_or a 0 ≡ a
or_zero_below n zero h = refl
or_zero_below zero (suc a) h = absurd (omega arith)
or_zero_below (suc n) (suc a) h =
    omega (arith, or-IsDigitwise.by_digit (suc a) 0, or_zero_below n (suc a / 2) (omega arith))

pub bit_or-zero : (a : ℕ) → bit_or a 0 ≡ a
bit_or-zero a = or_zero_below a a (omega arith)

pub zero-bit_or : (a : ℕ) → bit_or 0 a ≡ a
zero-bit_or a = bit_or-bitwise 0 a

xor_zero_below : (n a : ℕ) → a ≤ n → bit_xor a 0 ≡ a
xor_zero_below n zero h = refl
xor_zero_below zero (suc a) h = absurd (omega arith)
xor_zero_below (suc n) (suc a) h =
    let d : differ (suc a % 2) 0 ≡ suc a % 2 = digit (suc a % 2) (omega arith) in
    omega (arith, xor-IsDigitwise.by_digit (suc a) 0, xor_zero_below n (suc a / 2) (omega arith), d)
  where
    digit : (r : ℕ) → r < 2 → differ r 0 ≡ r
    digit zero h = refl
    digit (suc zero) h = refl
    digit (suc (suc r)) h = absurd (omega arith)

pub bit_xor-zero : (a : ℕ) → bit_xor a 0 ≡ a
bit_xor-zero a = xor_zero_below a a (omega arith)

power_pos : (k : ℕ) → 0 < 2 ^ k
power_pos zero = omega arith
power_pos (suc k) = omega (arith, power_pos k)

-- A mask of ones keeps the digits under it.
and_ones : (k r : ℕ) → r < 2 ^ k → bit_and r (2 ^ k - 1) ≡ r
and_ones zero r h = let e : r ≡ 0 = omega arith in rw e refl
and_ones (suc k) r h =
    let d : (2 ^ suc k - 1) / 2 ≡ 2 ^ k - 1 = omega (arith, power_pos k) in
    let step : bit_and r (2 ^ suc k - 1)
        ≡ bit_and (r / 2) (2 ^ k - 1) * 2 + min (r % 2) ((2 ^ suc k - 1) % 2) =
      rw (← d) (and-IsDigitwise.by_digit r (2 ^ suc k - 1)) in
    omega (arith, step, and_ones k (r / 2) (omega arith), power_pos k)

-- A low mask is a remainder.
pub bit_and-mask : (k a : ℕ) → bit_and a (2 ^ k - 1) ≡ a % 2 ^ k
bit_and-mask k a =
    let q : ℕ = a / 2 ^ k in
    let r : ℕ = a % 2 ^ k in
    let p = power_pos k in
    let small : r < 2 ^ k = mod-lt a p in
    let e : q * 2 ^ k + r ≡ a = omega (arith, mod-add-div' a (2 ^ k)) in
    let z : 0 * 2 ^ k + (2 ^ k - 1) ≡ 2 ^ k - 1 = omega arith in
    let w : bit_and q 0 * 2 ^ k ≡ 0 = rw (bit_and-zero q) (omega arith) in
    let split : bit_and a (2 ^ k - 1) ≡ bit_and q 0 * 2 ^ k + bit_and r (2 ^ k - 1) =
      rw e at (rw z at (bit_and-fields k q r 0 (2 ^ k - 1) small (omega (arith, p)))) in
    omega (arith, split, w, and_ones k r small)

-- A mask on the digits from `k` up to `k + n` cuts out this field.
pub bit_and-field : (k n a : ℕ) → bit_and a ((2 ^ n - 1) * 2 ^ k) ≡ a / 2 ^ k % 2 ^ n * 2 ^ k
bit_and-field k n a =
    let q : ℕ = a / 2 ^ k in
    let r : ℕ = a % 2 ^ k in
    let small : r < 2 ^ k = mod-lt a (power_pos k) in
    let e : q * 2 ^ k + r ≡ a = omega (arith, mod-add-div' a (2 ^ k)) in
    let z : (2 ^ n - 1) * 2 ^ k + 0 ≡ (2 ^ n - 1) * 2 ^ k = omega arith in
    let split : bit_and a ((2 ^ n - 1) * 2 ^ k) ≡ bit_and q (2 ^ n - 1) * 2 ^ k + bit_and r 0 =
      rw e at (rw z at (bit_and-fields k q r (2 ^ n - 1) 0 small (power_pos k))) in
    let m : bit_and q (2 ^ n - 1) * 2 ^ k ≡ q % 2 ^ n * 2 ^ k =
      ap (λ t. t * 2 ^ k) (bit_and-mask n q) in
    omega (arith, split, m, bit_and-zero r)

-- Words with no digit in common below and from `k` on are added.
pub bit_or-low : (k q r : ℕ) → r < 2 ^ k → bit_or (q * 2 ^ k) r ≡ q * 2 ^ k + r
bit_or-low k q r h =
    let a : q * 2 ^ k + 0 ≡ q * 2 ^ k = omega arith in
    let b : 0 * 2 ^ k + r ≡ r = omega arith in
    let split : bit_or (q * 2 ^ k) r ≡ bit_or q 0 * 2 ^ k + bit_or 0 r =
      rw a at (rw b at (bit_or-fields k q 0 0 r (power_pos k) h)) in
    let m : bit_or q 0 * 2 ^ k ≡ q * 2 ^ k = ap (λ t. t * 2 ^ k) (bit_or-zero q) in
    omega (arith, split, m, zero-bit_or r)
