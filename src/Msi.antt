-- ===== src/Msi.antt =====
-- `kernel/src/msi.rs`: message-signalled interrupts of a PCI device, MSI and MSI-X. The words of an MSI-X
-- table are memory of the device.
use Prim.Native.Nat.{bit_and, bit_or}
use vitr_os.Base.{
  ℕ, zero, suc, ◌+◌, ◌-◌, ◌*◌, ◌%◌, ◌^◌, Bool, not, ◌||◌, Option, none, some, List, [], ◌∷◌, length,
  ltb, leb, ◌==◌, if◌then◌else◌, Outcome, ok, err, panic,
}
use vitr_os.Paging.{phys_to_virt}
use vitr_os.Pci.{
  Pci, Location, put, read_u16, read_u32, write_u16, write_u32, find_capability, read_bar,
}

abbrev pub msi_id : ℕ
msi_id = 0x05

abbrev pub msix_id : ℕ
msix_id = 0x11

-- `LAPIC_MSI_ADDRESS_BASE`.
abbrev pub lapic_msi_address_base : ℕ
lapic_msi_address_base = 0xFEE0_0000

abbrev pub min_msi_vector : ℕ
min_msi_vector = 32

abbrev pub max_msi_vector : ℕ
max_msi_vector = 239

abbrev pub pci_command : ℕ
pci_command = 0x04

abbrev pub pci_command_intx_disable : ℕ
pci_command_intx_disable = 2 ^ 10

pub data MsiError : Type 0 where
  not_supported : MsiError
  invalid_vector : (vector : ℕ) → MsiError
  invalid_entry : (index table_size : ℕ) → MsiError
  invalid_bar : (bar_index : ℕ) → MsiError
  too_many_vectors : (requested available : ℕ) → MsiError
  mapping_failed : MsiError

-- The complement of a mask in 16 bits.
abbrev pub clear_bits : ℕ → ℕ → ℕ
clear_bits mask word = bit_and word (2 ^ 16 - 1 - mask)

unfoldable pub disable_intx : Location → Pci → Pci
disable_intx l p =
    write_u16 l pci_command (bit_or (read_u16 l pci_command p) pci_command_intx_disable) p

unfoldable pub enable_intx : Location → Pci → Pci
enable_intx l p =
    write_u16 l pci_command (clear_bits pci_command_intx_disable (read_u16 l pci_command p)) p

pub record MsiConfig : Type 0 where
  pub vector : ℕ
  pub cap_offset : ℕ

abbrev pub Result : Type 0 → Type 0
Result A = Pci × Outcome MsiError A

abbrev pub is_bad_vector : ℕ → Bool
is_bad_vector v = ltb v min_msi_vector || ltb max_msi_vector v

-- The writes of `configure_msi`, in order; each sees those before it.
unfoldable pub program_msi : Location → ℕ → ℕ → Pci → Pci
unfolding disable_intx
program_msi l cap vector p =
    let msg_ctrl = read_u16 l (cap + 0x02) p in
    let is_64bit = not (bit_and msg_ctrl (2 ^ 7) == 0) in
    let p1 = write_u16 l (cap + 0x02) (clear_bits (2 ^ 0) msg_ctrl) p in
    let p2 = write_u32 l (cap + 0x04) lapic_msi_address_base p1 in
    let p3 = if is_64bit then write_u32 l (cap + 0x08) 0 p2 else p2 in
    let p4 = write_u16 l (if is_64bit then cap + 0x0C else cap + 0x08) vector p3 in
    let p5 = write_u16 l (cap + 0x02) (bit_or msg_ctrl (2 ^ 0)) p4 in disable_intx l p5

unfoldable pub configure_msi : Location → ℕ → Pci → Result MsiConfig
unfolding program_msi
configure_msi l vector p =
    if is_bad_vector vector
    then (p, err (MsiError.invalid_vector vector))
    else elim (find_capability l msi_id p) [
      | none ↦ (p, err MsiError.not_supported)
      | some cap ↦ (program_msi l cap vector p, ok (record { vector = vector; cap_offset = cap }))
    ]

unfoldable pub disable_msi : Location → Pci → Result (Unit {0})
unfolding enable_intx
disable_msi l p = elim (find_capability l msi_id p) [
  | none ↦ (p, err MsiError.not_supported)
  | some cap ↦
      let msg_ctrl = read_u16 l (cap + 0x02) p in
      (enable_intx l (write_u16 l (cap + 0x02) (clear_bits (2 ^ 0) msg_ctrl) p), ok tt)
]

pub record MsixCapability : Type 0 where
  pub cap_offset : ℕ
  pub table_size : ℕ
  pub table_bir : ℕ
  pub table_offset : ℕ
  pub pba_bir : ℕ
  pub pba_offset : ℕ

unfoldable pub detect_msix : Location → Pci → Option MsixCapability
detect_msix l p = elim (find_capability l msix_id p) [
  | none ↦ none
  | some cap ↦
      let table_offset_bir = read_u32 l (cap + 0x04) p in
      let pba_offset_bir = read_u32 l (cap + 0x08) p in
      some (record {
        cap_offset = cap;
        table_size = bit_and (read_u16 l (cap + 0x02) p) 0x07FF + 1;
        table_bir = bit_and table_offset_bir 0x07;
        table_offset = bit_and table_offset_bir 0xFFFF_FFF8;
        pba_bir = bit_and pba_offset_bir 0x07;
        pba_offset = bit_and pba_offset_bir 0xFFFF_FFF8;
      })
]

pub record MsixConfig : Type 0 where
  pub capability : MsixCapability
  pub table_virt_addr : ℕ

abbrev pub entry_address : MsixConfig → ℕ → ℕ
entry_address c index = (c.table_virt_addr + index * 0x10) % 2 ^ 64

abbrev pub store : ℕ → ℕ → Pci → Pci
store a v p = record p { memory = put (a % 2 ^ 64) v p.memory }

abbrev pub bad_entry : MsixConfig → ℕ → MsiError
bad_entry c index = MsiError.invalid_entry index c.capability.table_size

unfoldable pub configure_entry : MsixConfig → ℕ → ℕ → Pci → Result (Unit {0})
configure_entry c index vector p =
    let a = entry_address c index in
    if leb c.capability.table_size index
    then (p, err (bad_entry c index))
    else if is_bad_vector vector
    then (p, err (MsiError.invalid_vector vector))
    else (store (a + 0x08) vector (store (a + 0x04) 0 (store a lapic_msi_address_base p)), ok tt)

-- `mask_entry` and `unmask_entry` differ in what they do to the control word.
abbrev pub change_control : (ℕ → ℕ) → MsixConfig → ℕ → Pci → Result (Unit {0})
change_control f c index p =
    let a = entry_address c index + 0x0C in
    if leb c.capability.table_size index
    then (p, err (bad_entry c index))
    else (store a (f (p.memory (a % 2 ^ 64))) p, ok tt)

unfoldable pub mask_entry : MsixConfig → ℕ → Pci → Result (Unit {0})
mask_entry = change_control (λ ctrl. bit_or ctrl (2 ^ 0))

unfoldable pub unmask_entry : MsixConfig → ℕ → Pci → Result (Unit {0})
unmask_entry = change_control (λ ctrl. bit_and ctrl (2 ^ 32 - 1 - 2 ^ 0))

-- The entries from `index` on, `n` of them; `mask_all` has a debug assertion only.
unfoldable pub mask_from : ℕ → ℕ → MsixConfig → Pci → Pci
unfolding mask_entry
mask_from zero index c p = p
mask_from (suc n) index c p = mask_from n (suc index) c (mask_entry c index p).0

unfoldable pub mask_all : MsixConfig → Pci → Pci
unfolding mask_from
mask_all c p = mask_from c.capability.table_size 0 c p

infixl 5 ◌>>=◌
abbrev pub ◌>>=◌ : {A B : Type 0} → Result A → (A → Pci → Result B) → Result B
(p, ok a) >>= f = f a p
(p, err e) >>= f = (p, err e)
(p, panic) >>= f = (p, panic)

unfoldable pub configure_entries : List ℕ → ℕ → MsixConfig → Pci → Result (Unit {0})
unfolding configure_entry
configure_entries [] index c p = (p, ok tt)
configure_entries (v ∷ l) index c p =
    configure_entry c index v p >>= λ _. configure_entries l (suc index) c

unfoldable pub unmask_entries : ℕ → ℕ → MsixConfig → Pci → Result (Unit {0})
unfolding unmask_entry
unmask_entries zero index c p = (p, ok tt)
unmask_entries (suc n) index c p = unmask_entry c index p >>= λ _. unmask_entries n (suc index) c

abbrev pub first_bad : List ℕ → Option ℕ
first_bad [] = none
first_bad (v ∷ l) = if is_bad_vector v then some v else first_bad l

-- The virtual address of the table, from its base address register.
unfoldable pub table_address : Location → MsixCapability → Pci → Outcome MsiError ℕ
table_address l cap p = elim (read_bar l cap.table_bir p) [
  | none ↦ err (MsiError.invalid_bar cap.table_bir)
  | some bar ↦
      let a = bar.base_address + cap.table_offset in
      if not bar.is_memory
      then err (MsiError.invalid_bar cap.table_bir)
      else if leb (2 ^ 64) a
      then err (MsiError.invalid_bar cap.table_bir)
      else elim (phys_to_virt a) [
        | ok v ↦ ok v
        | err e ↦ err MsiError.mapping_failed
        | panic ↦ panic
      ]
]

unfoldable pub program_msix : Location → MsixConfig → List ℕ → Pci → Result MsixConfig
unfolding mask_all configure_entries unmask_entries disable_intx
program_msix l c vectors p =
    let control = c.capability.cap_offset + 0x02 in
    let msg_ctrl = read_u16 l control p in
    let p1 = write_u16 l control (clear_bits (2 ^ 15) msg_ctrl) p in
    configure_entries vectors 0 c (mask_all c p1)
    >>= (λ _. unmask_entries (length vectors) 0 c)
    >>= λ _ p2. (disable_intx l (write_u16 l control (bit_or msg_ctrl (2 ^ 15)) p2), ok c)

unfoldable pub configure_msix : Location → List ℕ → Pci → Result MsixConfig
unfolding detect_msix table_address program_msix
configure_msix l vectors p = elim (detect_msix l p) [
  | none ↦ (p, err MsiError.not_supported)
  | some cap ↦
      if ltb cap.table_size (length vectors)
      then (p, err (MsiError.too_many_vectors (length vectors) cap.table_size))
      else elim (first_bad vectors) [
        | some v ↦ (p, err (MsiError.invalid_vector v))
        | none ↦ elim (table_address l cap p) [
          | ok a ↦ program_msix l (record { capability = cap; table_virt_addr = a }) vectors p
          | err e ↦ (p, err e)
          | panic ↦ (p, panic)
        ]
      ]
]

unfoldable pub disable_msix : Location → Pci → Result (Unit {0})
unfolding enable_intx
disable_msix l p = elim (find_capability l msix_id p) [
  | none ↦ (p, err MsiError.not_supported)
  | some cap ↦
      let msg_ctrl = read_u16 l (cap + 0x02) p in
      (enable_intx l (write_u16 l (cap + 0x02) (clear_bits (2 ^ 15) msg_ctrl) p), ok tt)
]
