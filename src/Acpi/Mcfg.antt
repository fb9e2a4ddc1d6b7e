-- ===== src/Acpi/Mcfg.antt =====
-- What `parse_mcfg` of `kernel/src/acpi.rs` tells the PCI module.
use vitr_os.Base.{
  ℕ, zero, suc, ◌+◌, ◌-◌, ◌*◌, ◌/◌, ◌%◌, ◌^◌, ◌≤◌, ◌<◌, ◌≡◌, refl, sym, ap, ◌∙◌, true, false,
  Bool-cases, inl, inr, Option, none, some, ltb, ◌==◌, if◌then◌else◌, ok, arith,
}
use native.Mathlib.Decide.{dec_le}
use vitr_os.Paging.{phys_to_virt}
use vitr_os.Pci.{Pci, set_mmconfig}
use vitr_os.Acpi.{
  Memory, Acpi, Result, after, read_bytes, table_length, verify_checksum, mcfg_entries, parse_mcfg,
}

-- The entry with the number `i` of a list of entries, and its segment.
abbrev pub entry_at : ℕ → ℕ → ℕ
entry_at base i = base + i * 16

abbrev pub segment : Memory → ℕ → ℕ → ℕ
segment m base i = read_bytes 2 m (entry_at base i + 8)

-- The number of the last of the first `n` entries for segment 0.
abbrev pub last_main : ℕ → Memory → ℕ → Option ℕ
last_main zero m base = none
last_main (suc n) m base = if segment m base n == 0 then some n else last_main n m base

-- The PCI module with the window that this entry describes.
abbrev pub with_window : Option ℕ → Memory → ℕ → Pci → Pci
with_window none m base p = p
with_window (some i) m base p = record p {
  mmconfig_base = read_bytes 8 m (entry_at base i);
  mmconfig_start_bus = m (entry_at base i + 10);
  mmconfig_end_bus = m (entry_at base i + 11);
}

with_window-with_window :
    (o : Option ℕ) (i : ℕ) (m : Memory) (base : ℕ) (p : Pci)
    → with_window (some i) m base (with_window o m base p) ≡ with_window (some i) m base p
with_window-with_window none i m base p = refl
with_window-with_window (some j) i m base p = refl

set_mmconfig-with_window :
    (n : ℕ) (m : Memory) (base : ℕ) (p : Pci)
    → set_mmconfig
        (read_bytes 8 m (entry_at base n))
        (segment m base n)
        (m (entry_at base n + 10))
        (m (entry_at base n + 11))
        (with_window (last_main n m base) m base p)
      ≡ with_window (last_main (suc n) m base) m base p
unfolding set_mmconfig
set_mmconfig-with_window n m base p = elim (Bool-cases (segment m base n == 0)) [
  | inl e ↦ rw e (with_window-with_window (last_main n m base) n m base p)
  | inr e ↦ rw e refl
]

mcfg_entries_lem :
    (fuel n k : ℕ) (m : Memory) (base size : ℕ) (p : Pci)
    → base + size + 16 ≤ 2 ^ 64
    → k + n ≡ (size + 15) / 16
    → n < fuel
    → mcfg_entries fuel m
        (base + size)
        (entry_at base k)
        (with_window (last_main k m base) m base p)
      ≡ some (with_window (last_main ((size + 15) / 16) m base) m base p)
unfolding mcfg_entries
mcfg_entries_lem zero n k m base size p h e l = absurd (omega arith)
mcfg_entries_lem (suc fuel) zero k m base size p h e l =
    let b : ltb (entry_at base k) (base + size) ≡ false = ground arith in
    let c : k ≡ (size + 15) / 16 = omega arith in
    rw b (ap (λ i. some (with_window (last_main i m base) m base p)) c)
mcfg_entries_lem (suc fuel) (suc n) k m base size p h e l =
    let b : ltb (entry_at base k) (base + size) ≡ true = ground arith in
    let f : (entry_at base k + 16) % 2 ^ 64 ≡ entry_at base (suc k) = omega arith in
    let ih = mcfg_entries_lem fuel n (suc k) m base size p h (omega arith) (omega arith) in
    rw b (rw f (rw (set_mmconfig-with_window k m base p) ih))

mcfg_entries-short :
    (fuel : ℕ) (m : Memory) (entries_end current_addr : ℕ) (p : Pci)
    → 0 < fuel
    → entries_end ≤ current_addr
    → mcfg_entries fuel m entries_end current_addr p ≡ some p
unfolding mcfg_entries
mcfg_entries-short zero m entries_end current_addr p z h = absurd (omega (arith, z))
mcfg_entries-short (suc fuel) m entries_end current_addr p z h =
    let b : ltb current_addr entries_end ≡ false = ground (arith, h) in rw b refl

-- The loop over a whole table at `a`, be it shorter than its header or not.
mcfg_entries-table :
    (fuel length : ℕ) (m : Memory) (a : ℕ) (p : Pci)
    → a + 44 + length + 16 ≤ 2 ^ 64
    → length < fuel
    → mcfg_entries fuel m ((a + length) % 2 ^ 64) ((a + 44) % 2 ^ 64) p
      ≡ some (with_window (last_main ((length - 44 + 15) / 16) m (a + 44)) m (a + 44) p)
mcfg_entries-table fuel length m a p h l =
    let f : (a + 44) % 2 ^ 64 ≡ a + 44 = omega (arith, h) in
    elim (dec_le 44 length) [
      | yes low ↦
          let e : (a + length) % 2 ^ 64 ≡ a + 44 + (length - 44) = omega (arith, h, low) in
          let z : a + 44 + 0 * 16 ≡ a + 44 = omega arith in
          rw (e, f)
            (ap (λ x. mcfg_entries fuel m (a + 44 + (length - 44)) x p) (sym z)
              ∙ mcfg_entries_lem fuel ((length - 44 + 15) / 16) 0 m (a + 44) (length - 44) p
                  (omega (arith, h)) (omega arith) (omega (arith, l)))
      | no high ↦
          let e : (a + length) % 2 ^ 64 ≡ a + length = omega (arith, h) in
          let n : (length - 44 + 15) / 16 ≡ 0 = omega (arith, high) in
          rw (e, f, n)
            (mcfg_entries-short fuel m (a + length) (a + 44) p (omega (arith, l))
              (omega (arith, high)))
    ]

-- On a table with a good checksum, at an address that can be converted and far enough from the end of
-- the address space, `parse_mcfg` ends. The window of MMCONFIG is then that of the last entry for
-- segment 0, or as before if there is none, as in a table that is shorter than its header of 44
-- bytes. An entry counts also if only its first byte lies within the table.
pub parse_mcfg_lem :
    (fuel : ℕ) (m : Memory) (phys_addr a : ℕ) (s : Acpi)
    → phys_to_virt phys_addr ≡ ok a
    → verify_checksum m a ≡ true
    → a + 44 + table_length m a + 16 ≤ 2 ^ 64
    → table_length m a < fuel
    → parse_mcfg fuel m phys_addr s
      ≡ some (
        record s {
          pci =
              with_window
                (last_main ((table_length m a - 44 + 15) / 16) m (a + 44))
                m
                (a + 44)
                s.pci;
        },
        ok tt,
      )
unfolding parse_mcfg
parse_mcfg_lem fuel m phys_addr a s v c h l =
    let finish : Option Pci → Option Result = λ o. after o (λ p. (record s { pci = p }, ok tt)) in
    rw (v, parse_mcfg) (rw c (ap finish (mcfg_entries-table fuel (table_length m a) m a s.pci h l)))
