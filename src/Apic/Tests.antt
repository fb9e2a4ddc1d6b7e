-- ===== src/Apic/Tests.antt =====
-- The theorem about the timer of the local APIC at five measurements, one of them far off.
use vitr_os.Base.{
  ℕ, ◌*◌, ◌/◌, ◌%◌, ◌^◌, ◌+◌, ◌-◌, ◌≤◌, ◌≡◌, ◌⊎◌, refl, true, false, leb, ok, err, if◌then◌else◌,
  ◌==◌, arith,
}
use vitr_os.Apic.{
  Apic, ApicError, default_apic_phys_base, calibrate_timer, init_timer, timer_initial_count,
  timer_lvt, timer_divide_config, timer_interrupt_vector,
}
use vitr_os.Apic.Median.{count}
use vitr_os.Apic.Periodic.{all_ticks, RunsUpTo, calibrate_timer-init_timer}

abbrev mapped : Apic
mapped = record {
  apic_phys_base = default_apic_phys_base;
  apic_mmio_mapped = true;
  apic_timer_frequency = 0;
  registers = λ _. 0;
  apic_base_msr = 0x900;
  pic_masked = true;
}

abbrev counts : ℕ → ℕ
counts i = if i == 2 then 0 else 0xFFFF_FFFF - 3125000 - i

calibrate_timer-init_timer_example :
    (m : ℕ) × (3 ≤ count (λ x. leb x m) (all_ticks counts))
    × (3 ≤ count (λ x. leb m x) (all_ticks counts))
    × ((m * 20 % 2 ^ 32 ≡ 0)
          × ((calibrate_timer false counts mapped).1 ≡ err ApicError.calibration_failed)
        ⊎ ((calibrate_timer false counts mapped).1 ≡ ok tt)
          × ((s : Apic) × (init_timer 250 (calibrate_timer false counts mapped).0 ≡ ok s)
              × (s.registers timer_initial_count ≡ m * 20 % 2 ^ 32 / 250)
              × (s.registers timer_lvt ≡ 2 ^ 17 + timer_interrupt_vector)
              × (s.registers timer_divide_config ≡ 3)
              × ((calibrate_timer false counts mapped).0.registers timer_divide_config ≡ 3)
              × RunsUpTo (m * 20 % 2 ^ 32) 250 (s.registers timer_initial_count)))
calibrate_timer-init_timer_example = calibrate_timer-init_timer counts mapped 250 refl (omega arith)

-- The median is the measurement in the middle, not the one that is far off.
frequency_runs : (calibrate_timer false counts mapped).0.apic_timer_frequency ≡ 62500060
unfolding calibrate_timer
frequency_runs = refl
