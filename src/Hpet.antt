-- ===== src/Hpet.antt =====
-- `kernel/src/hpet.rs`: the HPET, its calibration and the time since its initialisation. A register is
-- what a read of it gives at that moment: an operation that reads the running counter again and again
-- takes the sequence of its readings.
use Prim.Native.Nat.{bit_or}
use vitr_os.Base.{
  ℕ, zero, suc, ◌+◌, ◌-◌, ◌*◌, ◌/◌, ◌%◌, ◌^◌, Bool, true, false, not, Option, none, some, ltb, ◌==◌,
  if◌then◌else◌, Outcome, ok, err, panic,
}
use vitr_os.Paging.{PagingError, Tables, page_size, map_mmio}
use vitr_os.Pci.{put}
pub mod Elapsed
pub mod Tests

pub data HpetError : Type 0 where
  not_initialized : HpetError

-- The statics of the module, and the registers by virtual address.
pub record Hpet : Type 0 where
  pub hpet_available : Bool
  pub hpet_base : ℕ
  pub hpet_frequency : ℕ
  pub hpet_period_fs : ℕ
  pub hpet_start_counter : ℕ
  pub registers : ℕ → ℕ

abbrev pub general_cap_id : ℕ
general_cap_id = 0x000

abbrev pub general_config : ℕ
general_config = 0x010

abbrev pub main_counter : ℕ
main_counter = 0x0F0

abbrev pub register_address : Hpet → ℕ → ℕ
register_address h offset = (h.hpet_base + offset) % 2 ^ 64

unfoldable pub read_hpet_reg : ℕ → Hpet → Outcome HpetError ℕ
read_hpet_reg offset h =
    if h.hpet_base == 0
    then err HpetError.not_initialized
    else ok (h.registers (register_address h offset))

unfoldable pub write_hpet_reg : ℕ → ℕ → Hpet → Outcome HpetError Hpet
write_hpet_reg offset value h =
    if h.hpet_base == 0
    then err HpetError.not_initialized
    else ok (record h { registers = put (register_address h offset) value h.registers })

abbrev pub Result : Type 0 → Type 0
Result A = (Tables × Hpet) × Outcome PagingError A

-- `expect`: the step must have a value.
abbrev pub expect : {A B : Type 0} → Outcome HpetError A → Tables → Hpet → (A → Result B) → Result B
expect (ok a) t h f = f a
expect (err e) t h f = ((t, h), panic)
expect panic t h f = ((t, h), panic)

-- The frequency in Hz of a counter with this period in femtoseconds.
abbrev pub frequency_of : ℕ → ℕ
frequency_of period_fs = if ltb 0 period_fs then 10 ^ 15 / period_fs else 0

-- The part of `init` after the registers are mapped.
unfoldable pub calibrate : Hpet → Tables → Result (Unit {0})
calibrate h t = expect (read_hpet_reg general_cap_id h) t h λ cap_id.
    let h1 : Hpet = record h {
      hpet_period_fs = cap_id / 2 ^ 32;
      hpet_frequency = frequency_of (cap_id / 2 ^ 32);
    } in
    expect (read_hpet_reg general_config h1) t h1 λ config.
      expect (write_hpet_reg general_config (bit_or config 1) h1) t h1 λ h2.
        expect (read_hpet_reg main_counter h2) t h2 λ start_counter.
          ((t, record h2 { hpet_start_counter = start_counter; hpet_available = true }), ok tt)

-- The rest of `init` after the call of `map_mmio`.
unfoldable pub use_mapping : Hpet → Tables × Outcome PagingError ℕ → Result (Unit {0})
unfolding calibrate
use_mapping h (t, ok base_virt) = calibrate (record h { hpet_base = base_virt }) t
use_mapping h (t, err e) = ((t, h), err e)
use_mapping h (t, panic) = ((t, h), panic)

unfoldable pub init : Bool → ℕ → Hpet → Tables → Result (Unit {0})
unfolding use_mapping
init interrupts base_phys_addr h t = use_mapping h (map_mmio interrupts base_phys_addr page_size t)

unfoldable pub read_counter : Hpet → ℕ
read_counter h = elim (read_hpet_reg main_counter h) [ ok c ↦ c | err e ↦ 0 | panic ↦ 0 ]

-- The loop of `delay_ns` over the readings of the counter from number `i` on.
unfoldable pub spin : ℕ → (ℕ → ℕ) → ℕ → ℕ → ℕ → Option ℕ
spin zero readings start target i = none
spin (suc n) readings start target i =
    let rest = spin n readings start target (suc i) in
    if ltb ((readings i + 2 ^ 64 - start) % 2 ^ 64) target then rest else some i

-- The number of the reading that ends the delay.
unfoldable pub delay_ns : ℕ → (ℕ → ℕ) → ℕ → Hpet → Option ℕ
unfolding spin
delay_ns n readings ns h =
    if not h.hpet_available
    then some 0
    else if h.hpet_period_fs == 0
    then some 0
    else spin n readings (readings 0) (ns * 1000000 % 2 ^ 64 / h.hpet_period_fs) 1

unfoldable pub elapsed_counts : Hpet → ℕ
unfolding read_counter
elapsed_counts h = (read_counter h + 2 ^ 64 - h.hpet_start_counter) % 2 ^ 64

unfoldable pub elapsed_ns : Hpet → ℕ
elapsed_ns h =
    let counts = elapsed_counts h in
    let period_fs = h.hpet_period_fs in
    if not h.hpet_available
    then 0
    else if period_fs == 0
    then 0
    else (counts / 1000000 * period_fs % 2 ^ 64 + counts % 1000000 * period_fs % 2 ^ 64 / 1000000)
      % 2 ^ 64

unfoldable pub elapsed_us : Hpet → ℕ
unfolding elapsed_ns
elapsed_us h = elapsed_ns h / 1000

unfoldable pub elapsed_ms : Hpet → ℕ
unfolding elapsed_ns
elapsed_ms h = elapsed_ns h / 1000000

unfoldable pub elapsed_secs : Hpet → ℕ
unfolding elapsed_ns
elapsed_secs h = elapsed_ns h / 1000000000
