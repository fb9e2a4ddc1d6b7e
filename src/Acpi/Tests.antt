-- ===== src/Acpi/Tests.antt =====
-- The theorems about the firmware's tables at concrete tables, and tests.
use vitr_os.Base.{
  ℕ, ◌+◌, ◌-◌, ◌/◌, ◌^◌, ◌<◌, ◌≡◌, ◌⊎◌, refl, true, none, some, ok, ◌==◌, if◌then◌else◌, arith,
}
use vitr_os.Sched.Task.{kernel_virtual_base}
use vitr_os.Paging.{phys_to_virt}
use vitr_os.Paging.Tests.{empty_tables}
use vitr_os.Pci.Tests.{sample_pci}
use vitr_os.Hpet.Tests.{device}
use vitr_os.Acpi.{
  Memory, Acpi, read_bytes, sum_bytes, table_length, verify_checksum, madt_entries, parse_madt,
  parse_mcfg,
}
use vitr_os.Acpi.Madt.{Stuck, parse_madt_lem}
use vitr_os.Acpi.Mcfg.{last_main, with_window, parse_mcfg_lem}

abbrev table : ℕ
table = kernel_virtual_base + 0x1000

-- A MADT with one entry, of this length.
abbrev madt : ℕ → Memory
madt length a =
    if a == table + 4
    then 46
    else if a == table + 9
    then 242 - length
    else if a == table + 38
    then 0xE0
    else if a == table + 39
    then 0xFE
    else if a == table + 44
    then 2
    else if a == table + 45
    then length
    else 0

-- A MCFG with one entry, for the buses 0 to 255.
abbrev mcfg : Memory
mcfg a =
    if a == table + 4
    then 60
    else if a == table + 9
    then 229
    else if a == table + 47
    then 0xE0
    else if a == table + 55
    then 255
    else 0

abbrev sample_acpi : Acpi
sample_acpi = record {
  local_apic_address = 0;
  pci = sample_pci;
  hpet = device;
  tables = empty_tables;
}

table_at_page : phys_to_virt 0x1000 ≡ ok table
unfolding phys_to_virt
table_at_page = refl

madt_ends : madt_entries 9 (madt 2) (table + 46) (table + 44) 0 0 ≡ some (0, 0)
unfolding madt_entries read_bytes
madt_ends = refl

madt_loops : madt_entries 9 (madt 0) (table + 46) (table + 44) 0 0 ≡ none
unfolding madt_entries read_bytes
madt_loops = refl

madt_checksum : verify_checksum (madt 2) table ≡ true
unfolding verify_checksum sum_bytes read_bytes
madt_checksum = refl

mcfg_checksum : verify_checksum mcfg table ≡ true
unfolding verify_checksum sum_bytes read_bytes
mcfg_checksum = refl

madt_length : table_length (madt 2) table ≡ 46
unfolding read_bytes
madt_length = refl

mcfg_length : table_length mcfg table ≡ 60
unfolding read_bytes
mcfg_length = refl

madt_bytes : (b : ℕ) → madt 2 b < 2 ^ 8
madt_bytes b = ground arith

parse_madt_lem_example :
    Stuck (madt 2) (table + table_length (madt 2) table) (table + 44)
      × ((fuel : ℕ) → parse_madt fuel (madt 2) 0x1000 sample_acpi ≡ none)
    ⊎ ((fuel : ℕ)
        → table_length (madt 2) table < fuel
        → parse_madt fuel (madt 2) 0x1000 sample_acpi
          ≡ some (
            record sample_acpi { local_apic_address = read_bytes 4 (madt 2) (table + 36) },
            ok tt,
          ))
parse_madt_lem_example =
    parse_madt_lem (madt 2) 0x1000 table sample_acpi madt_bytes table_at_page madt_checksum
      (omega (arith, madt_length))

parse_mcfg_lem_example :
    parse_mcfg 61 mcfg 0x1000 sample_acpi
    ≡ some (
      record sample_acpi {
        pci =
            with_window
              (last_main ((table_length mcfg table - 44 + 15) / 16) mcfg (table + 44))
              mcfg
              (table + 44)
              sample_pci;
      },
      ok tt,
    )
parse_mcfg_lem_example =
    parse_mcfg_lem 61 mcfg 0x1000 table sample_acpi table_at_page mcfg_checksum
      (omega (arith, mcfg_length)) (omega (arith, mcfg_length))
