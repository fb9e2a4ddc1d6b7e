-- ===== src/Apic/Periodic.antt =====
-- The timer of the local APIC after its calibration and start.
use vitr_os.Base.{
  ℕ, ◌+◌, ◌-◌, ◌*◌, ◌/◌, ◌%◌, ◌^◌, ◌≤◌, ◌<◌, ◌≡◌, refl, sym, ap, ◌∙◌, ◌⊎◌, inl, inr, true, false,
  Bool-cases, List, [], ◌∷◌, leb, ◌==◌, ==_iff, if◌then◌else◌, get_or, ok, err, arith,
}
use mathlib.Core.Path.{subst}
use native.Mathlib.Decide.{dec_le}
use vitr_os.Apic.{
  Apic, ApicError, calibrate_timer, init_timer, sort, timer_lvt, timer_initial_count,
  timer_divide_config, timer_interrupt_vector, lvt_value,
}
use vitr_os.Pci.{put}
use vitr_os.Apic.Median.{count, sort-median}

-- The ticks of the measurements with the PIT.
abbrev pub ticks : (ℕ → ℕ) → ℕ → ℕ
ticks counts i = 0xFFFF_FFFF - counts i

abbrev pub all_ticks : (ℕ → ℕ) → List ℕ
all_ticks counts =
    ticks counts 0 ∷ ticks counts 1 ∷ ticks counts 2 ∷ ticks counts 3 ∷ ticks counts 4 ∷ []

-- The frequency comes from one of the measurements, such that at least three are not above it and at
-- least three not below it.
calibrate_timer-median :
    (counts : ℕ → ℕ) (s : Apic)
    → s.apic_mmio_mapped ≡ true
    → (m : ℕ) × (3 ≤ count (λ x. leb x m) (all_ticks counts))
      × (3 ≤ count (λ x. leb m x) (all_ticks counts))
      × ((calibrate_timer false counts s).0.apic_mmio_mapped ≡ true)
      × ((calibrate_timer false counts s).0.apic_timer_frequency ≡ m * 20 % 2 ^ 32)
      × ((calibrate_timer false counts s).0.registers timer_divide_config ≡ 3)
      × ((calibrate_timer false counts s).1
          ≡ (if m * 20 % 2 ^ 32 == 0 then err ApicError.calibration_failed else ok tt))
unfolding calibrate_timer
calibrate_timer-median counts s mapped =
    let (a, b) = sort-median (all_ticks counts) refl in
    (
      get_or (sort (all_ticks counts)) 2 0,
      a,
      b,
      rw mapped refl,
      rw mapped refl,
      rw mapped refl,
      rw mapped refl,
    )

-- The timer is periodic, not masked, and counts down from the quotient.
init_timer-starts :
    (f : ℕ) (s : Apic)
    → s.apic_mmio_mapped ≡ true
    → 0 < f
    → (s.apic_timer_frequency == 0) ≡ false
    → (s' : Apic) × (init_timer f s ≡ ok s')
      × (s'.registers timer_initial_count ≡ s.apic_timer_frequency / f)
      × (s'.registers timer_lvt ≡ 2 ^ 17 + timer_interrupt_vector)
      × (s'.registers timer_divide_config ≡ 3)
unfolding init_timer
init_timer-starts f s mapped h n =
    let z : (f == 0) ≡ false = ground (arith, h) in
    let start =
      put timer_initial_count (s.apic_timer_frequency / f)
        (put timer_lvt lvt_value (put timer_divide_config 3 s.registers)) in
    (record s { registers = start }, rw (z, n, mapped) refl, refl, refl, refl)

-- A periodic timer runs if its initial count is not 0; a count of 0 stops it.
abbrev pub RunsUpTo : ℕ → ℕ → ℕ → Type 0
RunsUpTo measured f count = (f ≤ measured) × (0 < count) ⊎ (measured < f) × (count ≡ 0)

quotient-RunsUpTo : (m f : ℕ) → 0 < f → RunsUpTo m f (m / f)
quotient-RunsUpTo m f h = elim (dec_le f m) [
  | yes p ↦ inl (p, grind (arith, p, h))
  | no p ↦ let l : m < f = omega arith in inr (l, grind (arith, l))
]

-- If the registers are mapped and the wanted frequency is positive: the calibration with the PIT
-- measures with the divider 16, and `init_timer` then sets the timer to the same divider, to periodic
-- interrupts with its vector, and to count down from the quotient of the measured frequency, a median,
-- and the wanted one. So it runs unless the wanted frequency is above the measured one, when
-- the count is 0 and it stands still. Or the calibration has failed with an error, since the measured
-- frequency was 0.
pub calibrate_timer-init_timer :
    (counts : ℕ → ℕ) (s : Apic) (frequency_hz : ℕ)
    → s.apic_mmio_mapped ≡ true
    → 0 < frequency_hz
    → (m : ℕ) × (3 ≤ count (λ x. leb x m) (all_ticks counts))
      × (3 ≤ count (λ x. leb m x) (all_ticks counts))
      × ((m * 20 % 2 ^ 32 ≡ 0)
            × ((calibrate_timer false counts s).1 ≡ err ApicError.calibration_failed)
          ⊎ ((calibrate_timer false counts s).1 ≡ ok tt)
            × ((s' : Apic) × (init_timer frequency_hz (calibrate_timer false counts s).0 ≡ ok s')
                × (s'.registers timer_initial_count ≡ m * 20 % 2 ^ 32 / frequency_hz)
                × (s'.registers timer_lvt ≡ 2 ^ 17 + timer_interrupt_vector)
                × (s'.registers timer_divide_config ≡ 3)
                × ((calibrate_timer false counts s).0.registers timer_divide_config ≡ 3)
                × RunsUpTo (m * 20 % 2 ^ 32) frequency_hz (s'.registers timer_initial_count)))
calibrate_timer-init_timer counts s f mapped h =
    let (m, a, b, on, set, divider, done) = calibrate_timer-median counts s mapped in
    let t = (calibrate_timer false counts s).0 in
    (
      m,
      a,
      b,
      elim (Bool-cases (m * 20 % 2 ^ 32 == 0)) [
        | inl e ↦ inl (
          (==_iff (m * 20 % 2 ^ 32) 0).0 e,
          done ∙ ap (λ c. if c then err ApicError.calibration_failed else ok tt) e,
        )
        | inr e ↦
            let (s', r, c, l, d) = init_timer-starts f t on h (ap (λ x. x == 0) set ∙ e) in
            inr (
              done ∙ ap (λ c. if c then err ApicError.calibration_failed else ok tt) e,
              (
                s',
                r,
                c ∙ ap (λ x. x / f) set,
                l,
                d,
                divider,
                subst (RunsUpTo (m * 20 % 2 ^ 32) f) (sym (c ∙ ap (λ x. x / f) set))
                    (quotient-RunsUpTo (m * 20 % 2 ^ 32) f h),
              ),
            )
      ],
    )
