-- ===== src/Hpet/Elapsed.antt =====
-- The time that the HPET measures.
use Prim.Native.Nat.{bit_or}
use vitr_os.Base.{
  ℕ, ◌+◌, ◌*◌, ◌/◌, ◌%◌, ◌^◌, ◌≤◌, ◌<◌, ◌≡◌, ◌≢◌, refl, ap, ◌∙◌, true, false, ltb, ◌==◌, ok, arith,
}
use vitr_os.Sched.Task.{kernel_virtual_base}
use vitr_os.Paging.{Tables, page_size}
use vitr_os.Paging.Mmio.{map_mmio_lem}
use vitr_os.Pci.{put}
use vitr_os.Hpet.{
  Hpet, read_hpet_reg, write_hpet_reg, general_cap_id, general_config, main_counter, frequency_of,
  calibrate, use_mapping, init, read_counter, elapsed_counts, elapsed_ns,
}

-- Division before the multiplication loses nothing if the remainder is multiplied too.
split_product : (c p : ℕ) → c / 1000000 * p + c % 1000000 * p / 1000000 ≡ c * p / 1000000
split_product c p =
    let e : c * p ≡ c / 1000000 * p * 1000000 + c % 1000000 * p =
      ap (λ x. x * p) (digits c) ∙ expand (c / 1000000) (c % 1000000) p in
    omega (arith, e)
  where
    digits : (c : ℕ) → c ≡ c / 1000000 * 1000000 + c % 1000000
    digits c = omega arith

    expand : (q r p : ℕ) → (q * 1000000 + r) * p ≡ q * p * 1000000 + r * p
    expand q r p = omega arith

small_product : (r p : ℕ) → r < 2 ^ 20 → p < 2 ^ 32 → r * p < 2 ^ 64
small_product r p h l = grind arith

elapsed_ns_lem :
    (h : Hpet)
    → h.hpet_available ≡ true
    → h.hpet_period_fs ≢ 0
    → h.hpet_period_fs < 2 ^ 32
    → elapsed_counts h * h.hpet_period_fs / 1000000 < 2 ^ 64
    → elapsed_ns h ≡ elapsed_counts h * h.hpet_period_fs / 1000000
unfolding elapsed_ns elapsed_counts read_hpet_reg
elapsed_ns_lem h a z l m =
    let c : ℕ = elapsed_counts h in
    let p : ℕ = h.hpet_period_fs in
    let s = split_product c p in
    let k : c % 1000000 * p < 2 ^ 64 = small_product (c % 1000000) p (omega arith) l in
    let n : (p == 0) ≡ false = ground (arith, z) in rw a (rw n (omega (arith, s, k, m)))

-- The HPET as `init` leaves it.
abbrev running : Hpet → Hpet
running h = record h {
  hpet_period_fs = h.registers h.hpet_base / 2 ^ 32;
  hpet_frequency = frequency_of (h.registers h.hpet_base / 2 ^ 32);
  registers =
      put (h.hpet_base + general_config) (bit_or (h.registers (h.hpet_base + general_config)) 1)
        h.registers;
  hpet_start_counter = h.registers (h.hpet_base + main_counter);
  hpet_available = true;
}

calibrate_lem :
    (h : Hpet) (t : Tables)
    → 0 < h.hpet_base
    → h.hpet_base + main_counter < 2 ^ 64
    → calibrate h t ≡ ((t, running h), ok tt)
unfolding calibrate read_hpet_reg write_hpet_reg
calibrate_lem h t pos fits =
    let b : (h.hpet_base == 0) ≡ false = ground arith in
    let e : (h.hpet_base + general_cap_id) % 2 ^ 64 ≡ h.hpet_base = omega arith in
    let f : (h.hpet_base + general_config) % 2 ^ 64 ≡ h.hpet_base + general_config = omega arith in
    let g : (h.hpet_base + main_counter) % 2 ^ 64 ≡ h.hpet_base + main_counter = omega arith in
    let n : (h.hpet_base + main_counter == h.hpet_base + general_config) ≡ false = ground arith in
    simp (b, e, f, g, n)

-- The counter at a later moment.
abbrev pub at_count : ℕ → ℕ → Hpet → Hpet
at_count base count h = record h {
  registers = put (kernel_virtual_base + base + main_counter) count h.registers;
}

counted :
    (base start n : ℕ) (h : Hpet)
    → h.hpet_base ≡ kernel_virtual_base + base
    → h.hpet_start_counter ≡ start
    → base + 2 ^ 12 ≤ 2 ^ 33
    → start < 2 ^ 64
    → n < 2 ^ 64
    → elapsed_counts (at_count base ((start + n) % 2 ^ 64) h) ≡ n
unfolding elapsed_counts read_counter read_hpet_reg
counted base start n h b c fits l m =
    let z : (h.hpet_base == 0) ≡ false = ground (arith, b) in
    let e : (h.hpet_base + main_counter) % 2 ^ 64 ≡ kernel_virtual_base + base + main_counter =
      omega (arith, b) in
    let f : (kernel_virtual_base + base + main_counter == kernel_virtual_base + base + main_counter)
        ≡ true =
      ground arith in
    rw (z, elapsed_counts, read_counter, read_hpet_reg) (rw e (rw f (rw c (omega arith))))

-- After `init` of a device that tells its period, within the first 8 GB and not at address 0, the
-- frequency is that of the period. When the counter has advanced by `n`, past its end too, then
-- `elapsed_ns` is exactly `n` periods in nanoseconds, rounded down, also where the number of
-- femtoseconds leaves 64 bits; only the result has to fit.
pub init-elapsed_ns :
    (h : Hpet) (t : Tables) (base : ℕ)
    → base % 2 ^ 12 ≡ 0
    → 0 < base
    → base + 2 ^ 12 ≤ 2 ^ 33
    → h.registers (kernel_virtual_base + base) < 2 ^ 64
    → 2 ^ 32 ≤ h.registers (kernel_virtual_base + base)
    → h.registers (kernel_virtual_base + base + main_counter) < 2 ^ 64
    → (t' : Tables) × (h' : Hpet) × (init false base h t ≡ ((t', h'), ok tt))
      × (h'.hpet_frequency ≡ 10 ^ 15 / (h.registers (kernel_virtual_base + base) / 2 ^ 32))
      × ((n : ℕ)
          → n < 2 ^ 64
          → n * (h.registers (kernel_virtual_base + base) / 2 ^ 32) / 1000000 < 2 ^ 64
          → elapsed_ns (
              at_count base
                ((h.registers (kernel_virtual_base + base + main_counter) + n) % 2 ^ 64)
                h')
            ≡ n * (h.registers (kernel_virtual_base + base) / 2 ^ 32) / 1000000)
unfolding init use_mapping
init-elapsed_ns h t base aligned pos fits small period start =
    let v : ℕ = kernel_virtual_base + base in
    let (t', r, k, e) = map_mmio_lem t base page_size aligned pos fits in
    let c = calibrate_lem (record h { hpet_base = v }) t' (omega arith) (omega arith) in
    let p : (ltb 0 (h.registers v / 2 ^ 32)) ≡ true = ground arith in
    (
      t',
      running (record h { hpet_base = v }),
      ap (use_mapping h) r ∙ c,
      rw p refl,
      λ n l m.
          let q : elapsed_counts (
                at_count base ((h.registers (v + main_counter) + n) % 2 ^ 64)
                  (running (record h { hpet_base = v })))
              ≡ n =
            counted base (h.registers (v + main_counter)) n (running (record h { hpet_base = v }))
              refl refl fits start l in
          elapsed_ns_lem
            (at_count base ((h.registers (v + main_counter) + n) % 2 ^ 64)
              (running (record h { hpet_base = v })))
            refl (omega arith) (omega arith) (rw q m)
          ∙ ap (λ c. c * (h.registers v / 2 ^ 32) / 1000000) q,
    )
