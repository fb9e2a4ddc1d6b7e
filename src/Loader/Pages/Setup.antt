-- ===== src/Loader/Pages/Setup.antt =====
-- The tables that the boot loader enters the kernel with.
use Prim.Native.Nat.{bit_or}
use vitr_os.Base.{
  ℕ, ◌+◌, ◌-◌, ◌*◌, ◌/◌, ◌%◌, ◌^◌, ◌<◌, ◌≡◌, ◌≢◌, refl, sym, ap, ◌∙◌, true, false, ◌&&◌, none, some,
  ltb, leb, ◌==◌, if◌then◌else◌, arith,
}
use vitr_os.Sched.Task.{kernel_virtual_base}
use vitr_os.Paging.{PageTable, set_entry, cleared}
use vitr_os.Loader.Pages.{
  Places, BootTables, new, flags, required_gb, map_directory, map_gigabytes,
  setup_initial_page_tables,
}
use vitr_os.Loader.Pages.Windows.{
  table_at, descend, walk_down, walk, IsPlaced, expected, descend-link, descend-zero,
}
use vitr_os.Loader.Pages.Maps.{
  AreMapped, map_gigabytes-AreMapped, map_directory-in, window, within, huge_entry,
}

module _ (p : Places) (placed : IsPlaced p) (t : BootTables) where
  at_pdp_low : table_at p t p.boot_pdp_low ≡ some t.pdp_low
  at_pdp_low = let e : (p.boot_pdp_low == p.boot_pdp_low) ≡ true = ground arith in rw e refl

  at_pdp_high : table_at p t p.boot_pdp_high ≡ some t.pdp_high
  at_pdp_high =
      let e : (p.boot_pdp_high == p.boot_pdp_high) ≡ true = ground arith in
      let f : (p.boot_pdp_high == p.boot_pdp_low) ≡ false = ground (arith, placed.pdps) in
      rw (f, e) refl

  at_pd_low : (i : ℕ) → i < 8 → table_at p t (p.boot_pd_low + i * 4096) ≡ some (t.pd_low i)
  at_pd_low i h =
      let x : ℕ = p.boot_pd_low + i * 4096 in
      let a : (x == p.boot_pdp_low) ≡ false = ground (arith, placed.low_low, h) in
      let b : (x == p.boot_pdp_high) ≡ false = ground (arith, placed.high_low, h) in
      let l : leb p.boot_pd_low x ≡ true = ground arith in
      let m : ltb x (p.boot_pd_low + 8 * 2 ^ 12) ≡ true = ground (arith, h) in
      let d : (x - p.boot_pd_low) / 2 ^ 12 ≡ i = omega arith in rw (a, b, l, m, d) refl

  at_pd_high : (i : ℕ) → i < 8 → table_at p t (p.boot_pd_high + i * 4096) ≡ some (t.pd_high i)
  at_pd_high i h =
      let x : ℕ = p.boot_pd_high + i * 4096 in
      let a : (x == p.boot_pdp_low) ≡ false = ground (arith, placed.low_high, h) in
      let b : (x == p.boot_pdp_high) ≡ false = ground (arith, placed.high_high, h) in
      let c : (leb p.boot_pd_low x && ltb x (p.boot_pd_low + 8 * 2 ^ 12)) ≡ false =
        ground (arith, placed.pds, h) in
      let l : leb p.boot_pd_high x ≡ true = ground arith in
      let m : ltb x (p.boot_pd_high + 8 * 2 ^ 12) ≡ true = ground (arith, h) in
      let d : (x - p.boot_pd_high) / 2 ^ 12 ≡ i = omega arith in rw (a, b, c, l, m, d) refl

-- The tables at the end.
abbrev pub rooted : Places → BootTables
rooted p = record new {
  pml4 =
      set_entry 256 (bit_or p.boot_pdp_high flags)
        (set_entry 0 (bit_or p.boot_pdp_low flags) cleared);
}

module _ (p : Places) (placed : IsPlaced p) (m : ℕ) (small : m < 2 ^ 63) where
  abbrev final : BootTables
  final = map_gigabytes (required_gb m) 0 p m (rooted p)

  mapped :
      AreMapped p m 0 (required_gb m) (rooted p) (map_gigabytes (required_gb m) 0 p m (rooted p))
  mapped = map_gigabytes-AreMapped p m (required_gb m) 0 (rooted p)

  directory :
      (pd : ℕ → PageTable) (x y : ℕ)
      → pd x ≡ (if within 0 (required_gb m) x then map_directory 512 x 0 m cleared else cleared)
      → x < required_gb m
      → y < 512
      → pd x y ≡ huge_entry x y m
  directory pd x y e l b =
      let w : within 0 (required_gb m) x ≡ true = ground (arith, l) in
      ap (λ d. d y) e
      ∙ ap (λ c. (if c then map_directory 512 x 0 m cleared else cleared) y) w
      ∙ map_directory-in 512 x 0 m y cleared (omega arith) (omega (arith, b)) refl

  low_window :
      (v a : ℕ) → v % 2 ^ 39 ≡ a → walk_down (table_at p final) v final.pdp_low ≡ expected m a
  low_window =
      window (table_at p final) p.boot_pd_low m final.pdp_low final.pd_low small placed.pd_low
        mapped.links_low (λ x y. directory final.pd_low x y (mapped.low x))
        (at_pd_low p placed final)

  high_window :
      (v a : ℕ) → v % 2 ^ 39 ≡ a → walk_down (table_at p final) v final.pdp_high ≡ expected m a
  high_window =
      window (table_at p final) p.boot_pd_high m final.pdp_high final.pd_high small placed.pd_high
        mapped.links_high (λ x y. directory final.pd_high x y (mapped.high x))
        (at_pd_high p placed final)

  at_root : (i : ℕ) → final.pml4 i ≡ (rooted p).pml4 i
  at_root i = ap (λ f. f i) mapped.root

  -- For tables that are aligned and do not overlap, and an end of the memory below 2 ^ 63:
  -- below 2 ^ 39, and from the base of the kernel on, the tables map the physical address `a` if it is
  -- below 8 GB and its 2 MB page starts below the end of the memory; nothing else is mapped.
  pub setup-walk :
      ((setup_initial_page_tables p m new).1 ≡ p.boot_pml4)
      × ((a : ℕ)
          → a < 2 ^ 39
          → (walk p (setup_initial_page_tables p m new).0 a ≡ expected m a)
            × (walk p (setup_initial_page_tables p m new).0 (kernel_virtual_base + a)
                ≡ expected m a))
      × ((v : ℕ)
          → v / 2 ^ 39 % 512 ≢ 0
          → v / 2 ^ 39 % 512 ≢ 256
          → walk p (setup_initial_page_tables p m new).0 v ≡ none)
  unfolding setup_initial_page_tables walk
  setup-walk = (
    refl,
    λ a h.
        let q = p.boot_pdp_low / 2 ^ 12 in
        let n : p.boot_pdp_low ≡ q * 2 ^ 12 = omega (arith, placed.pdp_low) in
        let r = p.boot_pdp_high / 2 ^ 12 in
        let k : p.boot_pdp_high ≡ r * 2 ^ 12 = omega (arith, placed.pdp_high) in
        let i : a / 2 ^ 39 % 512 ≡ 0 = omega (arith, h) in
        let j : (kernel_virtual_base + a) / 2 ^ 39 % 512 ≡ 256 = omega (arith, h) in
        (
          ap (λ z. descend (table_at p final) (final.pml4 z) (walk_down (table_at p final) a)) i
              ∙ ap (λ e. descend (table_at p final) e (walk_down (table_at p final) a)) (at_root 0)
              ∙ ap
                  (λ z.
                    descend (table_at p final) (bit_or z flags) (walk_down (table_at p final) a))
                  n
              ∙ descend-link q (omega (arith, placed.pdp_low)) (table_at p final) final.pdp_low
                  (walk_down (table_at p final) a)
                  (ap (table_at p final) (sym n) ∙ at_pdp_low p placed final)
              ∙ low_window a a (omega (arith, h)),
          ap
                (λ z.
                  descend (table_at p final) (final.pml4 z)
                    (walk_down (table_at p final) (kernel_virtual_base + a)))
                j
              ∙ ap
                  (λ e.
                    descend (table_at p final) e
                      (walk_down (table_at p final) (kernel_virtual_base + a)))
                  (at_root 256)
              ∙ ap
                  (λ z.
                    descend (table_at p final) (bit_or z flags)
                      (walk_down (table_at p final) (kernel_virtual_base + a)))
                  k
              ∙ descend-link r (omega (arith, placed.pdp_high)) (table_at p final) final.pdp_high
                  (walk_down (table_at p final) (kernel_virtual_base + a))
                  (ap (table_at p final) (sym k) ∙ at_pdp_high p placed final)
              ∙ high_window (kernel_virtual_base + a) a (omega (arith, h)),
        ),
    λ v a b.
        let i = v / 2 ^ 39 % 512 in
        let c : (i == 256) ≡ false = ground (arith, b) in
        let d : (i == 0) ≡ false = ground (arith, a) in
        let z : (rooted p).pml4 i ≡ 0 = rw (c, d) refl in
        ap (λ e. descend (table_at p final) e (walk_down (table_at p final) v)) (at_root i ∙ z)
        ∙ descend-zero (table_at p final) (walk_down (table_at p final) v),
  )
