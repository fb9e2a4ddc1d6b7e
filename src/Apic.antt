-- ===== src/Apic.antt =====
-- `kernel/src/apic.rs`: the local APIC and its timer. The registers keep what is written to them, by
-- offset; the counter of the timer is an argument where it is read, after the delay of a measurement.
pub mod Pit
pub mod Median
pub mod Periodic
mod Tests
use Prim.Native.Nat.{bit_and, bit_or}
use vitr_os.Base.{
  ℕ, zero, suc, ◌+◌, ◌-◌, ◌*◌, ◌/◌, ◌%◌, ◌^◌, Bool, true, false, not, Option, none, some, List, [],
  ◌∷◌, leb, ◌==◌, if◌then◌else◌, get_or, Outcome, ok, err, panic,
}
use vitr_os.Paging.{PagingError, Tables, page_size, map_mmio}
use vitr_os.Pci.{put}

pub data ApicError : Type 0 where
  not_calibrated calibration_failed init_failed invalid_frequency : ApicError

abbrev pub default_apic_phys_base : ℕ
default_apic_phys_base = 0xFEE00000

abbrev pub spurious_interrupt_vector : ℕ
spurious_interrupt_vector = 0xF0

abbrev pub eoi : ℕ
eoi = 0xB0

abbrev pub timer_lvt : ℕ
timer_lvt = 0x320

abbrev pub timer_divide_config : ℕ
timer_divide_config = 0x3E0

abbrev pub timer_initial_count : ℕ
timer_initial_count = 0x380

abbrev pub timer_interrupt_vector : ℕ
timer_interrupt_vector = 32

-- The statics of the module, the registers, the register IA32_APIC_BASE of the processor, and whether
-- the old interrupt controllers are masked.
pub record Apic : Type 0 where
  pub apic_phys_base : ℕ
  pub apic_mmio_mapped : Bool
  pub apic_timer_frequency : ℕ
  pub registers : ℕ → ℕ
  pub apic_base_msr : ℕ
  pub pic_masked : Bool

-- Before the registers are mapped, an access panics.
unfoldable pub write_apic_register : {E : Type 0} → ℕ → ℕ → Apic → Outcome E Apic
write_apic_register offset value s =
    if s.apic_mmio_mapped then ok (record s { registers = put offset value s.registers }) else panic

infixl 5 ◌>>=◌
abbrev pub ◌>>=◌ : {E A B : Type 0} → Outcome E A → (A → Outcome E B) → Outcome E B
ok a >>= f = f a
err e >>= f = err e
panic >>= f = panic

-- The part of `enable_apic` after the mapping.
unfoldable pub switch_on : Apic → Outcome PagingError Apic
unfolding write_apic_register
switch_on s =
    write_apic_register spurious_interrupt_vector 0x1FF
      (record s { apic_mmio_mapped = true; apic_base_msr = bit_or s.apic_base_msr (2 ^ 11) })

unfoldable pub after_mapping :
    Apic → Tables × Outcome PagingError ℕ → Tables × Outcome PagingError Apic
unfolding switch_on
after_mapping s (t, ok _) = (t, switch_on s)
after_mapping s (t, err e) = (t, err e)
after_mapping s (t, panic) = (t, panic)

unfoldable pub enable_apic : Bool → Tables × Apic → Tables × Outcome PagingError Apic
unfolding after_mapping
enable_apic interrupts (t, s) = after_mapping s (map_mmio interrupts s.apic_phys_base page_size t)

-- An address that is not that of a page is not used.
abbrev pub use_base : Option ℕ → Apic → Apic
use_base none s = s
use_base (some addr) s =
    if not (bit_and addr 0xFFF == 0) then s else record s { apic_phys_base = addr }

unfoldable pub init : Bool → Option ℕ → Tables × Apic → Tables × Outcome PagingError Apic
unfolding enable_apic
init interrupts apic_base_addr (t, s) =
    enable_apic interrupts (t, record (use_base apic_base_addr s) { pic_masked = true })

-- `current_count` is the counter after the delay.
unfoldable pub measure_apic_ticks : ℕ → Apic → Outcome ApicError (Apic × ℕ)
unfolding write_apic_register
measure_apic_ticks current_count s = write_apic_register timer_divide_config 3 s >>= λ s.
    write_apic_register timer_lvt (2 ^ 16) s >>= λ s.
    write_apic_register timer_initial_count 0xFFFF_FFFF s >>= λ s.
    write_apic_register timer_initial_count 0 s >>= λ s. ok (s, 0xFFFF_FFFF - current_count)

-- The measurements number `i` and on, `n` of them.
unfoldable pub measure_all : ℕ → ℕ → (ℕ → ℕ) → Apic → Outcome ApicError (Apic × List ℕ)
unfolding measure_apic_ticks
measure_all zero i counts s = ok (s, [])
measure_all (suc n) i counts s = measure_apic_ticks (counts i) s >>= λ r.
    measure_all n (suc i) counts r.0 >>= λ q. ok (q.0, r.1 ∷ q.1)

-- `sort_unstable` on numbers.
abbrev pub insert : ℕ → List ℕ → List ℕ
insert a [] = a ∷ []
insert a (b ∷ l) = let rest = insert a l in if leb a b then a ∷ b ∷ l else b ∷ rest

unfoldable pub sort : List ℕ → List ℕ
sort [] = []
sort (a ∷ l) = insert a (sort l)

abbrev pub multiplier : ℕ
multiplier = 1000 / 50

abbrev pub calibration : Bool → (ℕ → ℕ) → Apic → Outcome ApicError (Apic × ℕ)
calibration true counts s =
    measure_apic_ticks (counts 0) s >>= (λ r. ok (r.0, r.1 * multiplier % 2 ^ 32))
calibration false counts s =
    measure_all 5 0 counts s >>= (λ r. ok (r.0, get_or (sort r.1) (5 / 2) 0 * multiplier % 2 ^ 32))

-- With the HPET one measurement of 50 ms, or else the median of five with the PIT. The product wraps.
unfoldable pub calibrate_timer : Bool → (ℕ → ℕ) → Apic → Apic × Outcome ApicError (Unit {0})
unfolding measure_all sort
calibrate_timer hpet_available counts s = elim (calibration hpet_available counts s) [
  | ok r ↦ (
    record r.0 { apic_timer_frequency = r.1 },
    if r.1 == 0 then err ApicError.calibration_failed else ok tt,
  )
  | err e ↦ (s, err e)
  | panic ↦ (s, panic)
]

abbrev pub lvt_value : ℕ
lvt_value = bit_or (bit_or (2 ^ 17) 0) timer_interrupt_vector

unfoldable pub init_timer : ℕ → Apic → Outcome ApicError Apic
unfolding write_apic_register
init_timer frequency_hz s =
    if frequency_hz == 0
    then err ApicError.invalid_frequency
    else if s.apic_timer_frequency == 0
    then err ApicError.not_calibrated
    else write_apic_register timer_divide_config 3 s >>= λ s.
        write_apic_register timer_lvt lvt_value s >>= λ s.
        write_apic_register timer_initial_count (s.apic_timer_frequency / frequency_hz) s

unfoldable pub send_eoi : Apic → Outcome ApicError Apic
unfolding write_apic_register
send_eoi = write_apic_register eoi 0
