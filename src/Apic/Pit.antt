-- ===== src/Apic/Pit.antt =====
-- `kernel/src/pit.rs` and the delays of `kernel/src/timer_device.rs`. A wait is given as the counts that
-- it reads.
use vitr_os.Base.{
  ℕ, zero, suc, ◌+◌, ◌-◌, ◌*◌, ◌/◌, ◌%◌, ◌^◌, min, ◌||◌, List, [], ◌∷◌, ltb, ◌==◌, if◌then◌else◌,
}

abbrev pub pit_frequency : ℕ
pit_frequency = 1193182

abbrev pub max_poll_iterations : ℕ
max_poll_iterations = 100000

-- The writes to the ports, as port and byte.
abbrev pub Writes : Type 0
Writes = List (ℕ × ℕ)

unfoldable pub oneshot : ℕ → Writes
oneshot count = (0x43, 0x30) ∷ (0x40, count % 2 ^ 8) ∷ (0x40, count / 2 ^ 8 % 2 ^ 8) ∷ []

-- The low byte is read first.
unfoldable pub read_current_count : ℕ → ℕ → ℕ
read_current_count low high = high * 2 ^ 8 + low

-- The number of rounds of the loop of `sleep_1ms`, on the counts from number `i` on.
unfoldable pub sleep_rounds : ℕ → (ℕ → ℕ) → ℕ → ℕ → ℕ
sleep_rounds zero counts i last_count = 0
sleep_rounds (suc n) counts i last_count =
    let rest = sleep_rounds n counts (suc i) (counts i) in
    if counts i == 0 || ltb last_count (counts i) then 1 else suc rest

abbrev pub sleep_count : ℕ
sleep_count = pit_frequency / 1000 % 2 ^ 16

-- The counter is read once before the loop.
unfoldable pub sleep_1ms : (ℕ → ℕ) → Writes × ℕ
unfolding oneshot sleep_rounds
sleep_1ms counts = (oneshot sleep_count, sleep_rounds max_poll_iterations counts 1 (counts 0))

-- The cast to 16 bits.
abbrev pub delay_count : ℕ → ℕ
delay_count us = pit_frequency * us / 1000000 % 2 ^ 16

unfoldable pub delay_rounds : ℕ → (ℕ → ℕ) → ℕ → ℕ
delay_rounds zero counts i = 0
delay_rounds (suc n) counts i =
    let rest = delay_rounds n counts (suc i) in if counts i == 0 then 1 else suc rest

unfoldable pub udelay : (ℕ → ℕ) → ℕ → Writes × ℕ
unfolding oneshot delay_rounds
udelay counts us = (oneshot (delay_count us), delay_rounds max_poll_iterations counts 0)

-- The microseconds that `delay_ns` waits for, with the cast to 32 bits.
abbrev pub delay_us_of : ℕ → ℕ
delay_us_of ns = (ns + 999) / 1000 % 2 ^ 32

-- The calls of `sleep_1ms` that `delay_ms` makes.
abbrev pub sleeps_of : ℕ → ℕ
sleeps_of ms = min ms (2 ^ 32 - 1)

-- The default methods of `TimerDevice`: the nanoseconds, which stop at the largest number.
abbrev pub us_to_ns : ℕ → ℕ
us_to_ns us = min (us * 1000) (2 ^ 64 - 1)

abbrev pub ms_to_ns : ℕ → ℕ
ms_to_ns ms = min (ms * 1000000) (2 ^ 64 - 1)
