-- ===== src/Pci.antt =====
-- `kernel/src/pci.rs`: the configuration space of PCI devices, by memory or by ports, the walk over a
-- device's capabilities, its base addresses, and the scan of the buses. The registers of a device
-- are taken to keep what is written to them and to be read without effect.
use Prim.Native.Nat.{bit_and, bit_or}
use vitr_os.Base.{
  ℕ, zero, suc, ◌+◌, ◌-◌, ◌*◌, ◌/◌, ◌%◌, ◌^◌, Bool, true, false, not, ◌&&◌, ◌||◌, Option, none,
  some, List, [], ◌∷◌, ◌++◌, ltb, leb, ◌==◌, if◌then◌else◌,
}
use vitr_os.Sched.Task.{kernel_virtual_base}
pub mod Registers
pub mod Capabilities
pub mod Tests

-- The statics of the module, the registers behind the ports by the value of CONFIG_ADDRESS, and the
-- words of memory that are mapped to devices, by virtual address.
pub record Pci : Type 0 where
  pub mmconfig_base : ℕ
  pub mmconfig_start_bus : ℕ
  pub mmconfig_end_bus : ℕ
  pub ports : ℕ → ℕ
  pub memory : ℕ → ℕ

-- Bus, device and function.
pub record Location : Type 0 where
  pub bus : ℕ
  pub device : ℕ
  pub function : ℕ

abbrev pub put : ℕ → ℕ → (ℕ → ℕ) → ℕ → ℕ
put a v f x = if x == a then v else f x

-- The value for CONFIG_ADDRESS.
unfoldable pub config_address : Location → ℕ → ℕ
config_address l offset =
    bit_or
      (bit_or (bit_or (bit_or (2 ^ 31) (l.bus * 2 ^ 16)) (l.device * 2 ^ 11)) (l.function * 2 ^ 8))
      (bit_and offset 0xFC)

unfoldable pub pci_config_read_u32 : Location → ℕ → Pci → ℕ
unfolding config_address
pci_config_read_u32 l offset p = p.ports (config_address l offset)

unfoldable pub pci_config_write_u32 : Location → ℕ → ℕ → Pci → Pci
unfolding config_address
pci_config_write_u32 l offset value p = record p {
  ports = put (config_address l offset) value p.ports;
}

unfoldable pub set_mmconfig : ℕ → ℕ → ℕ → ℕ → Pci → Pci
set_mmconfig base_address segment start_bus end_bus p =
    if segment == 0
    then record p {
      mmconfig_base = base_address;
      mmconfig_start_bus = start_bus;
      mmconfig_end_bus = end_bus;
    }
    else p

unfoldable pub is_mmconfig_available : ℕ → Pci → Bool
is_mmconfig_available bus p =
    if p.mmconfig_base == 0
    then false
    else leb p.mmconfig_start_bus bus && leb bus p.mmconfig_end_bus

unfoldable pub mmconfig_address : Location → ℕ → Pci → ℕ
mmconfig_address l offset p =
    (kernel_virtual_base
      + (p.mmconfig_base + l.bus * 2 ^ 20 + l.device * 2 ^ 15 + l.function * 2 ^ 12 + offset))
    % 2 ^ 64

unfoldable pub mmconfig_read_u32 : Location → ℕ → Pci → ℕ
unfolding mmconfig_address
mmconfig_read_u32 l offset p = p.memory (mmconfig_address l offset p)

unfoldable pub mmconfig_write_u32 : Location → ℕ → ℕ → Pci → Pci
unfolding mmconfig_address
mmconfig_write_u32 l offset value p = record p {
  memory = put (mmconfig_address l offset p) value p.memory;
}

-- `UnifiedPciConfig`: an offset for the ports is cut to eight bits.
unfoldable pub read_u32 : Location → ℕ → Pci → ℕ
read_u32 l offset p =
    if is_mmconfig_available l.bus p
    then mmconfig_read_u32 l offset p
    else pci_config_read_u32 l (offset % 2 ^ 8) p

unfoldable pub write_u32 : Location → ℕ → ℕ → Pci → Pci
write_u32 l offset value p =
    if is_mmconfig_available l.bus p
    then mmconfig_write_u32 l offset value p
    else pci_config_write_u32 l (offset % 2 ^ 8) value p

-- `LegacyPciConfig`: there is nothing behind offset 256.
unfoldable pub legacy_read_u32 : Location → ℕ → Pci → ℕ
unfolding pci_config_read_u32
legacy_read_u32 l offset p =
    if leb 256 offset then 0xFFFF_FFFF else pci_config_read_u32 l (offset % 2 ^ 8) p

unfoldable pub legacy_write_u32 : Location → ℕ → ℕ → Pci → Pci
unfolding pci_config_write_u32
legacy_write_u32 l offset value p =
    if leb 256 offset then p else pci_config_write_u32 l (offset % 2 ^ 8) value p

-- The narrower accesses of `PciConfigAccess`, by way of a whole word.
unfoldable pub read_u16 : Location → ℕ → Pci → ℕ
read_u16 l offset p =
    bit_and (read_u32 l (bit_and offset 0xFFFC) p / 2 ^ (bit_and offset 0x02 * 8)) 0xFFFF

unfoldable pub read_u8 : Location → ℕ → Pci → ℕ
read_u8 l offset p =
    bit_and (read_u32 l (bit_and offset 0xFFFC) p / 2 ^ (bit_and offset 0x03 * 8)) 0xFF

-- A word with the bits under `mask << shift` replaced; the shifts drop what leaves 32 bits.
unfoldable pub replace_bits : ℕ → ℕ → ℕ → ℕ → ℕ
replace_bits mask shift value word =
    bit_or (bit_and word (2 ^ 32 - 1 - mask * 2 ^ shift % 2 ^ 32)) (value * 2 ^ shift % 2 ^ 32)

unfoldable pub write_u16 : Location → ℕ → ℕ → Pci → Pci
write_u16 l offset value p =
    let aligned = bit_and offset 0xFFFC in
    write_u32 l aligned (replace_bits 0xFFFF (bit_and offset 0x02 * 8) value (read_u32 l aligned p))
      p

unfoldable pub write_u8 : Location → ℕ → ℕ → Pci → Pci
write_u8 l offset value p =
    let aligned = bit_and offset 0xFFFC in
    write_u32 l aligned (replace_bits 0xFF (bit_and offset 0x03 * 8) value (read_u32 l aligned p)) p

pub record PciDevice : Type 0 where
  pub location : Location
  pub vendor_id : ℕ
  pub device_id : ℕ
  pub class_code : ℕ
  pub subclass : ℕ
  pub prog_if : ℕ
  pub revision : ℕ
  pub header_type : ℕ

-- `PciDevice::read`.
unfoldable pub read : Location → Pci → Option PciDevice
unfolding read_u16 read_u8
read l p =
    let vendor_id = read_u16 l 0x00 p in
    if vendor_id == 0xFFFF
    then none
    else some (record {
      location = l;
      vendor_id = vendor_id;
      device_id = read_u16 l 0x02 p;
      class_code = read_u8 l 0x0B p;
      subclass = read_u8 l 0x0A p;
      prog_if = read_u8 l 0x09 p;
      revision = read_u8 l 0x08 p;
      header_type = read_u8 l 0x0E p;
    })

abbrev pub pci_status : ℕ
pci_status = 0x06

abbrev pub pci_status_cap_list : ℕ
pci_status_cap_list = 0x10

abbrev pub pci_cap_pointer : ℕ
pci_cap_pointer = 0x34

-- The rounds over the list of capabilities.
unfoldable pub follow : ℕ → Location → ℕ → ℕ → Pci → Option ℕ
follow zero l cap_id cap_ptr p = none
follow (suc n) l cap_id cap_ptr p =
    let cap_header = read_u16 l cap_ptr p in
    let rest = follow n l cap_id (bit_and (cap_header / 2 ^ 8) 0xFC) p in
    if cap_ptr == 0 then none else if bit_and cap_header 0xFF == cap_id then some cap_ptr else rest

unfoldable pub find_capability : Location → ℕ → Pci → Option ℕ
find_capability l cap_id p =
    if bit_and (read_u16 l pci_status p) pci_status_cap_list == 0
    then none
    else follow 48 l cap_id (bit_and (read_u8 l pci_cap_pointer p) 0xFC) p

pub record BarInfo : Type 0 where
  pub base_address : ℕ
  pub is_memory : Bool
  pub is_64bit : Bool
  pub prefetchable : Bool

-- Bits 1 and 2 are the type, bit 3 tells prefetchable memory.
abbrev pub memory_bar : ℕ → ℕ → BarInfo
memory_bar bar_value a = record {
  base_address = a;
  is_memory = true;
  is_64bit = bit_and (bar_value / 2) 0x03 == 0x02;
  prefetchable = not (bit_and bar_value 0x08 == 0);
}

unfoldable pub read_bar : Location → ℕ → Pci → Option BarInfo
unfolding read_u32
read_bar l bar_index p =
    let bar_offset = 0x10 + bar_index * 4 in
    let bar_value = read_u32 l bar_offset p in
    let low = bit_and bar_value 0xFFFF_FFF0 in
    if ltb 5 bar_index
    then none
    else if bar_value == 0
    then none
    else if bit_and bar_value 0x01 == 0
    then (if bit_and (bar_value / 2) 0x03 == 0x02
        then (if ltb 4 bar_index
            then none
            else some (memory_bar bar_value (bit_or (read_u32 l (bar_offset + 4) p * 2 ^ 32) low)))
        else some (memory_bar bar_value low))
    else some (record {
      base_address = bit_and bar_value 0xFFFF_FFFC;
      is_memory = false;
      is_64bit = false;
      prefetchable = false;
    })

-- The devices that a scan finds, in order: the functions of one device, from `function` on.
unfoldable pub scan_functions : ℕ → ℕ → ℕ → ℕ → Pci → List PciDevice
unfolding read
scan_functions zero bus device function p = []
scan_functions (suc n) bus device function p =
    let rest = scan_functions n bus device (suc function) p in
    elim (read (record { bus = bus; device = device; function = function }) p) [
      | none ↦ rest
      | some d ↦ d ∷ rest
    ]

unfoldable pub scan_device : ℕ → ℕ → Pci → List PciDevice
unfolding read scan_functions
scan_device bus device p = elim (read (record { bus = bus; device = device; function = 0 }) p) [
  | none ↦ []
  | some d ↦ d ∷ (if bit_and d.header_type 0x80 == 0 then [] else scan_functions 7 bus device 1 p)
]

unfoldable pub scan_bus : ℕ → ℕ → ℕ → Pci → List PciDevice
unfolding scan_device
scan_bus zero bus device p = []
scan_bus (suc n) bus device p = scan_device bus device p ++ scan_bus n bus (suc device) p

unfoldable pub scan_buses : ℕ → ℕ → Pci → List PciDevice
unfolding scan_bus
scan_buses zero bus p = []
scan_buses (suc n) bus p = scan_bus 32 bus 0 p ++ scan_buses n (suc bus) p

unfoldable pub scan_pci_bus : Pci → List PciDevice
unfolding scan_buses
scan_pci_bus p = scan_buses 256 0 p
