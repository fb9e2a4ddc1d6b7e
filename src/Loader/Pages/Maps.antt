-- ===== src/Loader/Pages/Maps.antt =====
-- `setup_initial_page_tables` maps the memory in both windows.
use Prim.Native.Nat.{bit_or}
use vitr_os.Base.{
  ℕ, zero, suc, ◌+◌, ◌*◌, ◌/◌, ◌%◌, ◌^◌, ◌≤◌, ◌<◌, ◌≡◌, refl, sym, ap, ◌∙◌, inl, inr, Bool, true,
  false, ◌&&◌, Bool-cases, Option, none, some, ltb, leb, ◌==◌, ==_iff, if◌then◌else◌, arith,
}
use vitr_os.Paging.{PageTable, set_entry, set_table}
use vitr_os.Paging.Walk.{Translation, leaf}
use vitr_os.Loader.Pages.{
  Places, BootTables, flags, huge_flags, required_gb, map_directory, map_gigabytes,
}
use vitr_os.Loader.Pages.Windows.{
  descend_huge, walk_down, is_covered, expected, descend_huge-link, descend_huge-page,
  descend_huge-zero,
}

-- Whether a number is one of `n` from `i` on.
abbrev pub within : ℕ → ℕ → ℕ → Bool
within i n x = leb i x && ltb x (i + n)

abbrev pub huge_entry : ℕ → ℕ → ℕ → ℕ
huge_entry i x max_phys_addr =
    if ltb ((i * 512 + x) * 2 * 1024 * 1024) max_phys_addr
    then bit_or ((i * 512 + x) * 2 * 1024 * 1024) huge_flags
    else 0

-- The directory of an empty table.
map_directory-out : (n i j m x : ℕ) (pd : PageTable) → x < j → map_directory n i j m pd x ≡ pd x
unfolding map_directory
map_directory-out zero i j m x pd h = refl
map_directory-out (suc n) i j m x pd h =
    elim (Bool-cases (ltb ((i * 512 + j) * 2 * 1024 * 1024) m)) [
      | inl e ↦
          let f : (x == j) ≡ false = ground (arith, h) in
          rw e (
            map_directory-out n i (suc j) m x
              (set_entry j (bit_or ((i * 512 + j) * 2 * 1024 * 1024) huge_flags) pd)
              (omega (arith, h))
            ∙ rw f refl)
      | inr e ↦ rw e (map_directory-out n i (suc j) m x pd (omega (arith, h)))
    ]

pub map_directory-in :
    (n i j m x : ℕ) (pd : PageTable)
    → j ≤ x
    → x < j + n
    → pd x ≡ 0
    → map_directory n i j m pd x ≡ huge_entry i x m
unfolding map_directory
map_directory-in zero i j m x pd h l z = absurd (omega (arith, h, l))
map_directory-in (suc n) i j m x pd h l z =
    let c = ltb ((i * 512 + j) * 2 * 1024 * 1024) m in
    let pd' =
      if c then set_entry j (bit_or ((i * 512 + j) * 2 * 1024 * 1024) huge_flags) pd else pd in
    elim (Bool-cases (x == j)) [
      | inr e ↦
          let ne : (x == j) ≡ false = e in
          let same : pd' x ≡ 0 = elim (Bool-cases c) [ inl f ↦ rw f (rw e z) | inr f ↦ rw f z ] in
          map_directory-in n i (suc j) m x pd' (ground (arith, h, e)) (omega (arith, l)) same
      | inl e ↦
          let q = (==_iff x j).0 e in
          let mine : pd' j ≡ huge_entry i j m = elim (Bool-cases c) [
            | inl f ↦ let r : (j == j) ≡ true = ground arith in rw f (rw r refl)
            | inr f ↦ rw f (ap pd (sym q) ∙ z)
          ] in
          map_directory-out n i (suc j) m x pd' (omega (arith, q))
          ∙ ap pd' q
          ∙ mine
          ∙ ap (λ y. huge_entry i y m) (sym q)
    ]

within_zero : (i x : ℕ) → within i 0 x ≡ false
within_zero i x = ground arith

-- An update at `i` before a loop over the numbers after it.
updated {ℓ} :
    {A : Type ℓ} (f : ℕ → A) (g : ℕ → A → A) (i n x : ℕ)
    → (if within (suc i) n x
        then g x (if x == i then g i (f i) else f x)
        else if x == i
        then g i (f i)
        else f x)
      ≡ (if within i (suc n) x then g x (f x) else f x)
updated f g i n x = elim (Bool-cases (x == i)) [
  | inl e ↦
      let q = (==_iff x i).0 e in
      let a : within (suc i) n x ≡ false = ground (arith, q) in
      let b : within i (suc n) x ≡ true = ground (arith, q) in
      rw a (rw b (rw e (ap (λ y. g y (f y)) (sym q))))
  | inr e ↦ let a : within (suc i) n x ≡ within i (suc n) x = ground (arith, e) in rw e (rw a refl)
]

module _ (p : Places) (m : ℕ) where
  -- The gigabytes from number `i` on, `n` of them, are linked and mapped.
  pub record AreMapped (i n : ℕ) (t t' : BootTables) : Type 0 where
    pub root : t'.pml4 ≡ t.pml4
    pub links_low :
        (x : ℕ)
        → t'.pdp_low x
          ≡ (if within i n x then bit_or (p.boot_pd_low + x * 4096) flags else t.pdp_low x)
    pub links_high :
        (x : ℕ)
        → t'.pdp_high x
          ≡ (if within i n x then bit_or (p.boot_pd_high + x * 4096) flags else t.pdp_high x)
    pub low :
        (x : ℕ)
        → t'.pd_low x ≡ (if within i n x then map_directory 512 x 0 m (t.pd_low x) else t.pd_low x)
    pub high :
        (x : ℕ)
        → t'.pd_high x
          ≡ (if within i n x then map_directory 512 x 0 m (t.pd_high x) else t.pd_high x)

  pub map_gigabytes-AreMapped :
      (n i : ℕ) (t : BootTables) → AreMapped i n t (map_gigabytes n i p m t)
  unfolding map_gigabytes
  map_gigabytes-AreMapped zero i t = record {
    root = refl;
    links_low = λ x. rw (within_zero i x) refl;
    links_high = λ x. rw (within_zero i x) refl;
    low = λ x. rw (within_zero i x) refl;
    high = λ x. rw (within_zero i x) refl;
  }
  map_gigabytes-AreMapped (suc n) i t =
      let t1 : BootTables = record t {
        pdp_low = set_entry i (bit_or (p.boot_pd_low + i * 4096) flags) t.pdp_low;
        pdp_high = set_entry i (bit_or (p.boot_pd_high + i * 4096) flags) t.pdp_high;
        pd_low = set_table i (map_directory 512 i 0 m (t.pd_low i)) t.pd_low;
        pd_high = set_table i (map_directory 512 i 0 m (t.pd_high i)) t.pd_high;
      } in
      let r = map_gigabytes-AreMapped n (suc i) t1 in
      record {
        root = r.root;
        links_low = λ x.
            r.links_low x
            ∙ updated t.pdp_low (λ y _. bit_or (p.boot_pd_low + y * 4096) flags) i n x;
        links_high = λ x.
            r.links_high x
            ∙ updated t.pdp_high (λ y _. bit_or (p.boot_pd_high + y * 4096) flags) i n x;
        low = λ x. r.low x ∙ updated t.pd_low (λ y. map_directory 512 y 0 m) i n x;
        high = λ x. r.high x ∙ updated t.pd_high (λ y. map_directory 512 y 0 m) i n x;
      }

pub required_gb-most : (m : ℕ) → required_gb m ≤ 8
unfolding required_gb
required_gb-most m = omega arith

-- The gigabytes that are not linked hold nothing to map.
beyond : (m a : ℕ) → m < 2 ^ 63 → required_gb m ≤ a / 2 ^ 30 → is_covered m a ≡ false
unfolding required_gb
beyond m a h l = ground (arith, h, l)

-- The walk from an entry of the third level, where the directories are at `base`.
module _ (at : ℕ → Option PageTable) (base m : ℕ) (pdp : PageTable) (pd : ℕ → PageTable)
    (small : m < 2 ^ 63) (placed : (base % 2 ^ 12 ≡ 0) × (base < 2 ^ 40))
    (linked : (x : ℕ)
      → pdp x ≡ (if within 0 (required_gb m) x then bit_or (base + x * 4096) flags else 0))
    (mapped : (x y : ℕ) → x < required_gb m → y < 512 → pd x y ≡ huge_entry x y m)
    (found : (x : ℕ) → x < 8 → at (base + x * 4096) ≡ some (pd x)) where
  -- The entry of a directory, with the page that it maps.
  page_entry :
      (at' : ℕ → Option PageTable) (next : PageTable → Translation) (v a : ℕ)
      → v % 2 ^ 39 ≡ a
      → a < 2 ^ 33
      → descend_huge at' 21 (huge_entry (a / 2 ^ 30) (a / 2 ^ 21 % 512) m) v next ≡ expected m a
  page_entry at' next v a e l =
      let q : ℕ = a / 2 ^ 21 * 2 ^ 9 in
      let n : (a / 2 ^ 30 * 512 + a / 2 ^ 21 % 512) * 2 * 1024 * 1024 ≡ q * 2 ^ 12 = omega arith in
      let s : q * 2 ^ 12 ≡ a / 2 ^ 21 * 2 ^ 21 = omega arith in
      let c : ltb a (2 ^ 33) ≡ true = ground (arith, l) in
      ap (λ z. descend_huge at' 21 (if ltb z m then bit_or z huge_flags else 0) v next) n
      ∙ elim (Bool-cases (ltb (a / 2 ^ 21 * 2 ^ 21) m)) [
        | inl f ↦
            let g : ltb (q * 2 ^ 12) m ≡ true = ap (λ z. ltb z m) s ∙ f in
            let r : q * 2 ^ 12 / 2 ^ 21 * 2 ^ 21 + v % 2 ^ 21 ≡ a = omega (arith, e) in
            rw (g, c, f)
              (descend_huge-page q (omega (arith, l)) at' next v
                ∙ ap (λ z. some (z, q * 2 ^ 12 + huge_flags)) r
                ∙ ap (λ z. some (a, z + huge_flags)) s)
        | inr f ↦
            let g : ltb (q * 2 ^ 12) m ≡ false = ap (λ z. ltb z m) s ∙ f in
            rw (g, c, f) (descend_huge-zero at' next 21 v)
      ]

  pub window : (v a : ℕ) → v % 2 ^ 39 ≡ a → walk_down at v pdp ≡ expected m a
  unfolding walk_down
  window v a e =
      let x : ℕ = a / 2 ^ 30 in
      let y : ℕ = a / 2 ^ 21 % 512 in
      let i3 : v / 2 ^ 30 % 512 ≡ x = omega (arith, e) in
      let i2 : v / 2 ^ 21 % 512 ≡ y = omega (arith, e) in
      let k1 : PageTable → Translation = λ pt. leaf (pt (v / 2 ^ 12 % 512)) v in
      let k2 : PageTable → Translation = λ d. descend_huge at 21 (d (v / 2 ^ 21 % 512)) v k1 in
      ap (λ z. descend_huge at 30 (pdp z) v k2) i3
      ∙ ap (λ z. descend_huge at 30 z v k2) (linked x)
      ∙ elim (Bool-cases (within 0 (required_gb m) x)) [
        | inr f ↦
            let c : is_covered m a ≡ false = beyond m a small (ground (arith, f)) in
            ap (λ b. descend_huge at 30 (if b then bit_or (base + x * 4096) flags else 0) v k2) f
            ∙ descend_huge-zero at k2 30 v
            ∙ sym (ap (λ b. if b then some (a, a / 2 ^ 21 * 2 ^ 21 + huge_flags) else none) c)
        | inl f ↦
            let l : x < required_gb m = ground (arith, f) in
            let w : x < 8 = omega (arith, l, required_gb-most m) in
            let q : ℕ = base / 2 ^ 12 + x in
            let n : base + x * 4096 ≡ q * 2 ^ 12 = omega (arith, placed) in
            ap (λ b. descend_huge at 30 (if b then bit_or (base + x * 4096) flags else 0) v k2) f
            ∙ ap (λ z. descend_huge at 30 (bit_or z flags) v k2) n
            ∙ descend_huge-link q (omega (arith, placed, w)) at (pd x) k2 30 v
                (ap at (sym n) ∙ found x w)
            ∙ ap (λ z. descend_huge at 21 (pd x z) v k1) i2
            ∙ ap (λ z. descend_huge at 21 z v k1) (mapped x y l (omega arith))
            ∙ page_entry at k1 v a e (omega (arith, w))
      ]
