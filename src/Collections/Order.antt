-- ===== src/Collections/Order.antt =====
-- The total orders on the keys: `u64`, and pairs of integers in lexicographic order.
use vitr_os.Base.{ℕ, ◌≡◌, Bool, true, false, ◌&&◌, ◌||◌, ltb, ◌==◌, arith}

pub record Order {ℓ} (K : Type ℓ) : Type ℓ where
  pub lt : K → K → Bool
  pub lt_trans : (a b c : K) → lt a b ≡ true → lt b c ≡ true → lt a c ≡ true
  pub lt_irrefl : (a : K) → lt a a ≡ false
  pub lt_total : (a b : K) → lt a b ≡ false → lt b a ≡ false → a ≡ b

abbrev pub lt {ℓ} : {K : Type ℓ} ⦃o : Order K⦄ → K → K → Bool
lt ⦃o⦄ = o.lt

pub ltb_trans : (a b c : ℕ) → ltb a b ≡ true → ltb b c ≡ true → ltb a c ≡ true
ltb_trans a b c p q = ground arith

pub ltb_irrefl : (a : ℕ) → ltb a a ≡ false
ltb_irrefl a = ground arith

pub ltb_total : (a b : ℕ) → ltb a b ≡ false → ltb b a ≡ false → a ≡ b
ltb_total a b p q = ground arith

instance abbrev pub nat_order : Order ℕ
nat_order = record { lt = ltb; lt_trans = ltb_trans; lt_irrefl = ltb_irrefl; lt_total = ltb_total }

-- The derived order of a pair: the first fields decide, then the second ones.
abbrev pub lex : ℕ × ℕ → ℕ × ℕ → Bool
lex p q = ltb p.0 q.0 || (p.0 == q.0) && ltb p.1 q.1

pub lex_trans : (a b c : ℕ × ℕ) → lex a b ≡ true → lex b c ≡ true → lex a c ≡ true
lex_trans a b c p q = ground arith

pub lex_irrefl : (a : ℕ × ℕ) → lex a a ≡ false
lex_irrefl a = ground arith

pub lex_total : (a b : ℕ × ℕ) → lex a b ≡ false → lex b a ≡ false → a ≡ b
lex_total a b p q = ground arith

instance abbrev pub pair_order : Order (ℕ × ℕ)
pair_order = record { lt = lex; lt_trans = lex_trans; lt_irrefl = lex_irrefl; lt_total = lex_total }
