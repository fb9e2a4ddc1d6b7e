-- ===== src/Hpet/Tests.antt =====
-- The theorems about the HPET at a concrete device, and tests.
use vitr_os.Base.{
  ℕ, ◌+◌, ◌-◌, ◌*◌, ◌/◌, ◌%◌, ◌^◌, ◌<◌, ◌≡◌, refl, true, false, some, if◌then◌else◌, ◌==◌, ok,
  arith,
}
use vitr_os.Sched.Task.{kernel_virtual_base}
use vitr_os.Paging.{Tables}
use vitr_os.Paging.Tests.{empty_tables}
use vitr_os.Hpet.{Hpet, main_counter, init, elapsed_ns, delay_ns, spin}
use vitr_os.Hpet.Elapsed.{at_count, init-elapsed_ns}

-- A counter of 100 MHz that is about to wrap.
abbrev pub device : Hpet
device = record {
  hpet_available = false;
  hpet_base = 0;
  hpet_frequency = 0;
  hpet_period_fs = 0;
  hpet_start_counter = 0;
  registers = λ a.
      if a == kernel_virtual_base + 0xFED00000
      then 10000000 * 2 ^ 32
      else if a == kernel_virtual_base + 0xFED000F0
      then 2 ^ 64 - 5
      else 0;
}

abbrev calibrated : Hpet
calibrated = record device { hpet_available = true; hpet_period_fs = 10000000 }

-- A delay of 50 ns ends with the first reading that is five counts later.
delay_waits : delay_ns 9 (λ i. (2 ^ 64 - 5 + 2 * i) % 2 ^ 64) 50 calibrated ≡ some 3
unfolding delay_ns spin
delay_waits = refl

init-elapsed_ns_example :
    (t' : Tables) × (h' : Hpet) × (init false 0xFED00000 device empty_tables ≡ ((t', h'), ok tt))
    × (h'.hpet_frequency ≡ 10 ^ 15 / (device.registers (kernel_virtual_base + 0xFED00000) / 2 ^ 32))
    × ((n : ℕ)
        → n < 2 ^ 64
        → n * (device.registers (kernel_virtual_base + 0xFED00000) / 2 ^ 32) / 1000000 < 2 ^ 64
        → elapsed_ns (
            at_count 0xFED00000
              ((device.registers (kernel_virtual_base + 0xFED00000 + main_counter) + n) % 2 ^ 64)
              h')
          ≡ n * (device.registers (kernel_virtual_base + 0xFED00000) / 2 ^ 32) / 1000000)
init-elapsed_ns_example =
    init-elapsed_ns device empty_tables 0xFED00000 refl (omega arith) (omega arith) (omega arith)
      (omega arith) (omega arith)
