-- ===== src/Allocator/Buddy/Bits.antt =====
-- The bit maps of the buddy allocator: `is_free` reads what `mark_free` and `unmark_free` wrote.
use vitr_os.Base.{
  ℕ, ◌/◌, ◌%◌, ◌≡◌, ◌≢◌, refl, sym, ap, ◌∙◌, ◌⊎◌, inl, inr, Bool, true, false, some, none,
  if◌then◌else◌, ◌==◌, ==_iff, Bool-cases, arith,
}
use vitr_os.Allocator.Buddy.{Buddy, set_bit, is_free, addr_to_bit_index, in_bitmap, update}

update_same {ℓ} : {A : Type ℓ} (i : ℕ) (a : A) (f : ℕ → A) → update i a f i ≡ a
update_same i a f = let e : (i == i) ≡ true = ground arith in rw e refl

update_other {ℓ} : {A : Type ℓ} (i j : ℕ) (a : A) (f : ℕ → A) → j ≢ i → update i a f j ≡ f j
update_other i j a f n = let e : (j == i) ≡ false = ground arith in rw e refl

abbrev pub Maps : Type 0
Maps = ℕ → ℕ → ℕ → Bool

-- The bit maps after a write of `b` to the bit `i` of an order.
abbrev pub written : Maps → ℕ → ℕ → Bool → Maps
written f order i b =
    update order (update (i / 64) (update (i % 64) b (f order (i / 64))) (f order)) f

pub written-same :
    (f : Maps) (order i : ℕ) (b : Bool) → written f order i b order (i / 64) (i % 64) ≡ b
written-same f order i b =
    let word = update (i % 64) b (f order (i / 64)) in
    ap (λ r. r (i / 64) (i % 64)) (update_same order (update (i / 64) word (f order)) f)
    ∙ ap (λ w. w (i % 64)) (update_same (i / 64) word (f order))
    ∙ update_same (i % 64) b (f order (i / 64))

row-other :
    (f : ℕ → ℕ → Bool) (i j : ℕ) (b : Bool)
    → j ≢ i
    → update (i / 64) (update (i % 64) b (f (i / 64))) f (j / 64) (j % 64) ≡ f (j / 64) (j % 64)
row-other f i j b n = elim (Bool-cases (j / 64 == i / 64)) [
  | inr e ↦ rw e refl
  | inl e ↦
      let q : j / 64 ≡ i / 64 = (==_iff (j / 64) (i / 64)).0 e in
      let m : j % 64 ≢ i % 64 = λ h. n (omega (arith, q, h)) in
      rw e (update_other (i % 64) (j % 64) b (f (i / 64)) m ∙ ap (λ k. f k (j % 64)) (sym q))
]

pub written-other :
    (f : Maps) (order i o j : ℕ) (b : Bool)
    → (o ≢ order) ⊎ (j ≢ i)
    → written f order i b o (j / 64) (j % 64) ≡ f o (j / 64) (j % 64)
written-other f order i o j b d = elim (Bool-cases (o == order)) [
  | inr e ↦ rw e refl
  | inl e ↦
      let q : o ≡ order = (==_iff o order).0 e in
      let m : j ≢ i = elim d [ inl n ↦ absurd (n q) | inr n ↦ n ] in
      rw e (row-other (f order) i j b m ∙ ap (λ k. f k (j / 64) (j % 64)) (sym q))
]

-- Marking a block as free or not, if its bit exists, makes `is_free` answer so for this block, and
-- leaves the answer for every other block of the same order and for all other orders.
pub is_free-set_bit :
    (b : Bool) (addr order : ℕ) (s : Buddy)
    → in_bitmap (addr_to_bit_index addr order s) order ≡ true
    → (s' : Buddy) × (set_bit b addr order s ≡ some s')
      × (is_free addr order s' ≡ some b)
      × ((a o : ℕ)
          → (o ≢ order) ⊎ (addr_to_bit_index a o s ≢ addr_to_bit_index addr order s)
          → is_free a o s' ≡ is_free a o s)
unfolding set_bit is_free
is_free-set_bit b addr order s h =
    let i : ℕ = addr_to_bit_index addr order s in
    (
      record s { free_bitmaps = written s.free_bitmaps order i b },
      rw (h, set_bit) refl,
      rw (h, is_free) (ap some (written-same s.free_bitmaps order i b)),
      λ a o d.
          ap (λ v. if in_bitmap (addr_to_bit_index a o s) o then some v else none)
            (written-other s.free_bitmaps order i o (addr_to_bit_index a o s) b d),
    )
