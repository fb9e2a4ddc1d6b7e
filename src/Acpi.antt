-- ===== src/Acpi.antt =====
-- `kernel/src/acpi.rs`: the walk over the tables of the firmware, on a memory of bytes by virtual
-- address that does not change. Address arithmetic wraps.
use vitr_os.Base.{
  ℕ, zero, suc, ◌+◌, ◌-◌, ◌*◌, ◌/◌, ◌%◌, ◌^◌, Bool, true, false, not, ◌&&◌, ◌||◌, Option, none,
  some, List, [], ◌∷◌, ltb, leb, ◌==◌, if◌then◌else◌, Outcome, ok, err, panic,
}
use vitr_os.Boot.{BootInfo}
use vitr_os.Paging.{PagingError, Tables, phys_to_virt}
use vitr_os.Pci.{Pci, set_mmconfig}
use vitr_os.Hpet
use vitr_os.Hpet.{Hpet}
pub mod Madt
pub mod Mcfg
mod Tests

pub data AcpiError : Type 0 where
  address_conversion_failed checksum_failed not_supported : AcpiError
  paging_error : PagingError → AcpiError

abbrev pub max_acpi_table_length : ℕ
max_acpi_table_length = 100 * 1024 * 1024

-- The size of `AcpiTableHeader`.
abbrev pub min_acpi_table_length : ℕ
min_acpi_table_length = 36

abbrev pub Memory : Type 0
Memory = ℕ → ℕ

-- What the tables are read into.
pub record Acpi : Type 0 where
  pub local_apic_address : ℕ
  pub pci : Pci
  pub hpet : Hpet
  pub tables : Tables

abbrev pub Result : Type 0
Result = Acpi × Outcome AcpiError (Unit {0})

-- A number of `n` bytes, the lowest first.
unfoldable pub read_bytes : ℕ → Memory → ℕ → ℕ
read_bytes zero m a = 0
read_bytes (suc n) m a = m a + 2 ^ 8 * read_bytes n m (suc a)

unfoldable pub get_local_apic_address : Acpi → Option ℕ
get_local_apic_address s = if s.local_apic_address == 0 then none else some s.local_apic_address

-- Whether these bytes stand at an address.
unfoldable pub has_signature : List ℕ → Memory → ℕ → Bool
has_signature [] m a = true
has_signature (b ∷ l) m a = m a == b && has_signature l m (suc a)

-- The wrapping sum of `n` bytes, from `sum` on.
unfoldable pub sum_bytes : ℕ → ℕ → Memory → ℕ → ℕ
sum_bytes zero sum m a = sum
sum_bytes (suc n) sum m a = sum_bytes n ((sum + m a) % 2 ^ 8) m (suc a)

abbrev pub table_length : Memory → ℕ → ℕ
table_length m a = read_bytes 4 m (a + 4)

-- `AcpiTableHeader::verify_checksum`.
unfoldable pub verify_checksum : Memory → ℕ → Bool
unfolding sum_bytes
verify_checksum m a =
    let length = table_length m a in
    if ltb length min_acpi_table_length || ltb max_acpi_table_length length
    then false
    else sum_bytes length 0 m a == 0

-- A step that needs the virtual address of a table.
abbrev pub at_table : Outcome PagingError ℕ → Acpi → (ℕ → Option Result) → Option Result
at_table (ok a) s f = f a
at_table (err e) s f = some (s, err address_conversion_failed)
at_table panic s f = some (s, panic)

-- A step after a loop, which has a result or still runs.
abbrev pub after : {A : Type 0} → Option A → (A → Result) → Option Result
after none f = none
after (some a) f = some (f a)

abbrev pub checked : Memory → ℕ → Acpi → Option Result → Option Result
checked m a s r = if verify_checksum m a then r else some (s, err checksum_failed)

-- Entries of type 0 are processors, with a flag whether they are enabled; those of type 1 are I/O APICs.
abbrev pub count_cpu : Memory → ℕ → ℕ → ℕ
count_cpu m a n = if m a == 0 && not (read_bytes 4 m (a + 4) % 2 == 0) then suc n else n

abbrev pub count_io_apic : Memory → ℕ → ℕ → ℕ
count_io_apic m a n = if m a == 1 then suc n else n

-- The loop over the entries of the MADT, with both counts as its result.
unfoldable pub madt_entries : ℕ → Memory → ℕ → ℕ → ℕ → ℕ → Option (ℕ × ℕ)
madt_entries zero m entries_end current_addr cpus io_apics = none
madt_entries (suc n) m entries_end current_addr cpus io_apics =
    let rest =
      madt_entries n m entries_end ((current_addr + m (suc current_addr)) % 2 ^ 64)
        (count_cpu m current_addr cpus) (count_io_apic m current_addr io_apics) in
    if ltb current_addr entries_end then rest else some (cpus, io_apics)

unfoldable pub parse_madt : ℕ → Memory → ℕ → Acpi → Option Result
unfolding madt_entries
parse_madt fuel m phys_addr s = at_table (phys_to_virt phys_addr) s λ a. checked m a s (
    after (madt_entries fuel m ((a + table_length m a) % 2 ^ 64) ((a + 44) % 2 ^ 64) 0 0)
      (λ _. (record s { local_apic_address = read_bytes 4 m (a + 36) }, ok tt)))

-- The loop over the entries of the MCFG.
unfoldable pub mcfg_entries : ℕ → Memory → ℕ → ℕ → Pci → Option Pci
mcfg_entries zero m entries_end current_addr p = none
mcfg_entries (suc n) m entries_end current_addr p =
    let a = current_addr in
    let p' = set_mmconfig (read_bytes 8 m a) (read_bytes 2 m (a + 8)) (m (a + 10)) (m (a + 11)) p in
    let rest = mcfg_entries n m entries_end ((a + 16) % 2 ^ 64) p' in
    if ltb a entries_end then rest else some p

-- The number of entries, `(length - 44) / 16` with a subtraction that wraps below 44, is only logged.
unfoldable pub parse_mcfg : ℕ → Memory → ℕ → Acpi → Option Result
unfolding mcfg_entries
parse_mcfg fuel m phys_addr s = at_table (phys_to_virt phys_addr) s λ a. checked m a s (
    after (mcfg_entries fuel m ((a + table_length m a) % 2 ^ 64) ((a + 44) % 2 ^ 64) s.pci)
      (λ p. (record s { pci = p }, ok tt)))

abbrev pub from_paging : Outcome PagingError (Unit {0}) → Outcome AcpiError (Unit {0})
from_paging (ok u) = ok u
from_paging (err e) = err (paging_error e)
from_paging panic = panic

-- The address structure of the HPET's base stands at offset 40 of the table, the address at 44.
unfoldable pub parse_hpet : Memory → ℕ → Acpi → Option Result
parse_hpet m phys_addr s = at_table (phys_to_virt phys_addr) s λ a. checked m a s (
    if not (m (a + 40) == 0)
    then some (s, err not_supported)
    else let ((t, h), r) = Hpet.init false (read_bytes 8 m (a + 44)) s.hpet s.tables in
      some (record s { hpet = h; tables = t }, from_paging r))

-- `Xsdt` and `Rsdt`: the size of an entry and the signature.
pub record SdtEntry : Type 0 where
  pub entry_size : ℕ
  pub signature : List ℕ

abbrev pub xsdt : SdtEntry
xsdt = record { entry_size = 8; signature = 88 ∷ 83 ∷ 68 ∷ 84 ∷ [] }

abbrev pub rsdt : SdtEntry
rsdt = record { entry_size = 4; signature = 82 ∷ 83 ∷ 68 ∷ 84 ∷ [] }

-- Each kind of table has its parser: "APIC", "MCFG" and "HPET".
unfoldable pub parse_table : ℕ → Memory → ℕ → ℕ → Acpi → Option Result
unfolding has_signature parse_madt parse_mcfg parse_hpet
parse_table fuel m phys_addr a s =
    if has_signature (65 ∷ 80 ∷ 73 ∷ 67 ∷ []) m a
    then parse_madt fuel m phys_addr s
    else if has_signature (77 ∷ 67 ∷ 70 ∷ 71 ∷ []) m a
    then parse_mcfg fuel m phys_addr s
    else if has_signature (72 ∷ 80 ∷ 69 ∷ 84 ∷ []) m a
    then parse_hpet m phys_addr s
    else some (s, ok tt)

-- An error of one table is reported and forgotten; a panic is not.
abbrev pub forget : Result → Result
forget (s, ok u) = (s, ok tt)
forget (s, err e) = (s, ok tt)
forget (s, panic) = (s, panic)

abbrev pub then_parse : Option Result → (Acpi → Option Result) → Option Result
then_parse none f = none
then_parse (some (s, ok u)) f = f s
then_parse (some (s, err e)) f = some (s, err e)
then_parse (some (s, panic)) f = some (s, panic)

-- One entry: an address that cannot be converted is skipped.
unfoldable pub parse_entry : ℕ → SdtEntry → Memory → ℕ → Acpi → Option Result
unfolding parse_table
parse_entry fuel e m entry s =
    let phys_addr = read_bytes e.entry_size m entry in
    elim (phys_to_virt phys_addr) [
      | ok a ↦ elim (parse_table fuel m phys_addr a s) [ none ↦ none | some r ↦ some (forget r) ]
      | err x ↦ some (s, ok tt)
      | panic ↦ some (s, panic)
    ]

unfoldable pub parse_entries : ℕ → SdtEntry → Memory → ℕ → ℕ → Acpi → Option Result
unfolding parse_entry
parse_entries fuel e m base zero s = some (s, ok tt)
parse_entries fuel e m base (suc n) s =
    then_parse (parse_entry fuel e m base s) (parse_entries fuel e m (base + e.entry_size) n)

unfoldable pub parse_sdt : ℕ → SdtEntry → Memory → ℕ → Acpi → Option Result
unfolding has_signature verify_checksum parse_entries
parse_sdt fuel e m phys_addr s = at_table (phys_to_virt phys_addr) s λ a.
    if not (has_signature e.signature m a)
    then some (s, err not_supported)
    else checked m a s (
        parse_entries fuel e m (a + 36) ((table_length m a - min_acpi_table_length) / e.entry_size)
          s)

-- "RSD PTR ".
abbrev pub rsdp_signature : List ℕ
rsdp_signature = 82 ∷ 83 ∷ 68 ∷ 32 ∷ 80 ∷ 84 ∷ 82 ∷ 32 ∷ []

unfoldable pub init : ℕ → Memory → BootInfo → Acpi → Option Result
unfolding has_signature sum_bytes parse_sdt
init fuel m boot_info s = at_table (phys_to_virt boot_info.rsdp_address) s λ a.
    if not (has_signature rsdp_signature m a)
    then some (s, err not_supported)
    else if not (sum_bytes 20 0 m a == 0)
    then some (s, err checksum_failed)
    else if leb 2 (m (a + 15))
    then parse_sdt fuel xsdt m (read_bytes 8 m (a + 24)) s
    else parse_sdt fuel rsdt m (read_bytes 4 m (a + 16)) s
