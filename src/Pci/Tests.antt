-- ===== src/Pci/Tests.antt =====
-- The theorems about configuration space at concrete inputs, and tests.
use Prim.Native.Nat.{bit_and}
use vitr_os.Base.{
  ℕ, ◌+◌, ◌*◌, ◌/◌, ◌^◌, ◌<◌, ◌≡◌, ◌≢◌, ◌⊎◌, refl, none, some, ◌==◌, if◌then◌else◌, arith,
}
use vitr_os.Pci.{
  Pci, Location, read_u16, write_u16, read_u8, read_u32, legacy_read_u32, find_capability, follow,
  config_address, pci_config_read_u32, is_mmconfig_available, pci_status, pci_status_cap_list,
}
use vitr_os.Pci.Registers.{read_u16-write_u16}
use vitr_os.Pci.Capabilities.{Passed, Stops, first_pointer, find_capability_lem}

abbrev device : Location
device = record { bus = 0; device = 3; function = 0 }

abbrev device_base : ℕ
device_base = 0x80001800

-- A device whose list of capabilities is MSI at 0x40, then MSI-X at 0x50.
abbrev registers : ℕ → ℕ
registers a =
    if a == device_base
    then 0x12348086
    else if a == device_base + 0x04
    then 0x00100007
    else if a == device_base + 0x34
    then 0x00000040
    else if a == device_base + 0x40
    then 0x00805005
    else if a == device_base + 0x50
    then 0x00030011
    else 0

abbrev pub sample_pci : Pci
sample_pci = record {
  mmconfig_base = 0;
  mmconfig_start_bus = 0;
  mmconfig_end_bus = 0;
  ports = registers;
  memory = λ _. 0;
}

capabilities_found :
    (find_capability device 0x11 sample_pci ≡ some 0x50)
    × (find_capability device 0x10 sample_pci ≡ none)
unfolding find_capability follow read_u16 read_u8 read_u32 pci_config_read_u32 config_address
    is_mmconfig_available
capabilities_found = (refl, refl)

-- Without MMCONFIG the two interfaces differ behind offset 256.
extended_offset :
    (read_u32 device 0x100 sample_pci ≡ 0x12348086)
    × (legacy_read_u32 device 0x100 sample_pci ≡ 0xFFFF_FFFF)
unfolding read_u32 legacy_read_u32 pci_config_read_u32 config_address is_mmconfig_available
extended_offset = (refl, refl)

sample_word : read_u32 device (2 / 2 * 4) sample_pci < 2 ^ 32
unfolding read_u32 pci_config_read_u32 config_address is_mmconfig_available
sample_word = omega arith

read_u16-write_u16_example :
    (read_u16 device 4 (write_u16 device 4 0x0406 sample_pci) ≡ 0x0406)
    × ((m : ℕ)
        → m < 128
        → m ≢ 2
        → read_u16 device (m * 2) (write_u16 device 4 0x0406 sample_pci)
          ≡ read_u16 device (m * 2) sample_pci)
read_u16-write_u16_example =
    read_u16-write_u16 device 2 0x0406 sample_pci (omega arith) (omega arith) sample_word

find_capability_lem_example :
    (bit_and (read_u16 device pci_status sample_pci) pci_status_cap_list ≡ 0)
      × (find_capability device 0x11 sample_pci ≡ none)
    ⊎ (bit_and (read_u16 device pci_status sample_pci) pci_status_cap_list ≢ 0)
      × ((m : ℕ) × Passed device sample_pci 0x11 (first_pointer device sample_pci) m
          × Stops device sample_pci 0x11
              (first_pointer device sample_pci)
              m
              48
              (find_capability device 0x11 sample_pci))
find_capability_lem_example = find_capability_lem device 0x11 sample_pci
