-- ===== src/Sched/Task/Weight.antt =====
-- Weights and virtual run time.
use native.Mathlib.Decide.{dec_le}
use vitr_os.Base.{
  ℕ, zero, suc, ◌+◌, ◌-◌, ◌*◌, ◌/◌, ◌%◌, ◌^◌, ◌≤◌, ◌<◌, ◌≡◌, ◌≢◌, refl, ◌⊎◌, inl, inr, min, ap,
  some, List, [], ◌∷◌, length, All, get_elem?, ℤ, pos, negsuc, ◌-ℤ◌, ◌≤ℤ◌, to_usize, arith,
}
use vitr_os.Sched.Task.{
  Task, clamp, nice_min, nice_max, prio_to_weight, nice_to_weight, update_vruntime,
}

index : ℤ → ℕ
index nice = to_usize (clamp nice nice_min nice_max -ℤ nice_min)

index-lt : (n : ℤ) → index n < 40
unfolding index
index-lt (pos n) = ground arith
index-lt (negsuc n) = ground arith

index_mono : (n m : ℤ) → n ≤ℤ m → index n ≤ index m
unfolding index
index_mono (pos n) (pos m) h = ground arith
index_mono (pos n) (negsuc m) h = ground arith
index_mono (negsuc n) (pos m) h = ground arith
index_mono (negsuc n) (negsuc m) h = ground arith

-- Each weight is at most the one before it; a step of one is by a factor of 1.2 to 1.3.
StepsDown : List ℕ → Type 0
StepsDown [] = Unit
StepsDown (x ∷ []) = Unit
StepsDown (x ∷ y ∷ r) = (12 * y ≤ 10 * x) × (10 * x ≤ 13 * y) × StepsDown (y ∷ r)

table-StepsDown : StepsDown prio_to_weight
unfolding StepsDown
table-StepsDown = omega arith

get_elem?-StepsDown :
    (l : List ℕ) (i : ℕ)
    → StepsDown l
    → suc i < length l
    → (a b : ℕ) × (get_elem? l i ≡ some a)
      × (get_elem? l (suc i) ≡ some b)
      × (12 * b ≤ 10 * a)
      × (10 * a ≤ 13 * b)
unfolding StepsDown
get_elem?-StepsDown [] i s h = absurd (omega arith)
get_elem?-StepsDown (x ∷ []) i s h = absurd (omega arith)
get_elem?-StepsDown (x ∷ y ∷ r) zero s h = (x, y, refl, refl, s.0, s.1)
get_elem?-StepsDown (x ∷ y ∷ r) (suc i) s h = get_elem?-StepsDown (y ∷ r) i s.2 (omega arith)

head-ge :
    (x : ℕ) (l : List ℕ) (j : ℕ) {b : ℕ} → StepsDown (x ∷ l) → get_elem? (x ∷ l) j ≡ some b → b ≤ x
unfolding StepsDown
head-ge x l zero s e = ground arith
head-ge x [] (suc j) s e = absurd (ground arith)
head-ge x (y ∷ l) (suc j) s e = omega (arith, head-ge y l j s.2 e)

get_elem?-antitone :
    (l : List ℕ) (i j : ℕ) {a b : ℕ}
    → StepsDown l
    → i ≤ j
    → get_elem? l i ≡ some a
    → get_elem? l j ≡ some b
    → b ≤ a
unfolding StepsDown
get_elem?-antitone [] i j s h p q = absurd (ground arith)
get_elem?-antitone (x ∷ l) zero j s h p q = ground (arith, head-ge x l j s q)
get_elem?-antitone (x ∷ l) (suc i) zero s h p q = absurd (omega arith)
get_elem?-antitone (x ∷ []) (suc i) (suc j) s h p q = absurd (ground arith)
get_elem?-antitone (x ∷ y ∷ l) (suc i) (suc j) s h p q =
    get_elem?-antitone (y ∷ l) i j s.2 (omega arith) p q

get_elem?-total :
    (l : List ℕ) (lo hi i : ℕ)
    → All (λ w. (lo ≤ w) × (w ≤ hi)) l
    → i < length l
    → (w : ℕ) × (get_elem? l i ≡ some w) × (lo ≤ w) × (w ≤ hi)
get_elem?-total [] lo hi i a h = absurd (omega arith)
get_elem?-total (x ∷ l) lo hi zero a h = (x, refl, a.0.0, a.0.1)
get_elem?-total (x ∷ l) lo hi (suc i) a h = get_elem?-total l lo hi i a.1 (omega arith)

-- Every nice value, in range or not, has a weight between 15 and 88761: the table is never read out
-- of bounds, and no weight is zero.
pub nice_to_weight_total : (n : ℤ) → (w : ℕ) × (nice_to_weight n ≡ some w) × (15 ≤ w) × (w ≤ 88761)
unfolding nice_to_weight index
nice_to_weight_total n =
    get_elem?-total prio_to_weight 15 88761 (index n) (omega arith) (index-lt n)

-- A lower nice value never has a smaller weight.
nice_to_weight_antitone :
    (n m : ℤ) {a b : ℕ} → n ≤ℤ m → nice_to_weight n ≡ some a → nice_to_weight m ≡ some b → b ≤ a
unfolding nice_to_weight index
nice_to_weight_antitone n m h p q =
    get_elem?-antitone prio_to_weight (index n) (index m) table-StepsDown (index_mono n m h) p q

-- Between neighbouring nice values -20 + i and -19 + i the weight falls by a factor of 1.2 to 1.3.
pub nice_to_weight_step :
    (i : ℕ)
    → i < 39
    → (a b : ℕ) × (nice_to_weight (pos i -ℤ pos 20) ≡ some a)
      × (nice_to_weight (pos (suc i) -ℤ pos 20) ≡ some b)
      × (12 * b ≤ 10 * a)
      × (10 * a ≤ 13 * b)
unfolding nice_to_weight index
nice_to_weight_step i h =
    rw (index_at i (omega arith), index_at (suc i) (omega arith))
      (get_elem?-StepsDown prio_to_weight i table-StepsDown (omega arith))
  where
    index_at : (k : ℕ) → k < 40 → index (pos k -ℤ pos 20) ≡ k
    index_at k h = ground arith

div-pos : (p w : ℕ) → w ≢ 0 → w ≤ p → 0 < p / w
div-pos p w h k = grind arith

div-eq-zero : (p w : ℕ) → p < w → p / w ≡ 0
div-eq-zero p w h = grind arith

update_vruntime_lem :
    (delta : ℕ) (t : Task)
    → t.weight ≢ 0
    → delta * 1024 < 2 ^ 64
    → (update_vruntime delta t).vruntime ≡ min (t.vruntime + delta * 1024 / t.weight) (2 ^ 64 - 1)
unfolding update_vruntime
update_vruntime_lem delta t h d =
    let e : delta * 1024 % 2 ^ 64 ≡ delta * 1024 = omega arith in
    ground (arith, ap (λ (x : ℕ). x / t.weight) e)

-- If the weight is not 0, the virtual run time is below 2^64 - 1 and 1024 * `delta` does not wrap:
-- run time `delta` moves the virtual run time forward, not past 2^64 - 1, exactly when 1024 * `delta`
-- reaches the task's weight; otherwise the virtual run time stays as it was.
pub update_vruntime_advances :
    (delta : ℕ) (t : Task)
    → t.weight ≢ 0
    → t.vruntime < 2 ^ 64 - 1
    → delta * 1024 < 2 ^ 64
    → ((update_vruntime delta t).vruntime < 2 ^ 64)
      × ((t.weight ≤ delta * 1024) × (t.vruntime < (update_vruntime delta t).vruntime)
          ⊎ (delta * 1024 < t.weight) × ((update_vruntime delta t).vruntime ≡ t.vruntime))
update_vruntime_advances delta t h v d =
    rw (update_vruntime_lem delta t h d) (elim (dec_le t.weight (delta * 1024)) [
      | yes p ↦ (omega arith, inl (p, omega (arith, div-pos (delta * 1024) t.weight h p)))
      | no p ↦ (
        omega arith,
        inr (omega arith, omega (arith, div-eq-zero (delta * 1024) t.weight (omega arith))),
      )
    ])
