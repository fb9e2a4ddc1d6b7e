-- ===== src/Loader/Start/Enters.antt =====
-- What `efi_main` hands over to the kernel.
use vitr_os.Base.{
  ℕ, zero, suc, ◌+◌, ◌*◌, ◌/◌, ◌%◌, ◌^◌, ◌≤◌, ◌<◌, ◌≡◌, ◌≢◌, refl, ap, ◌∙◌, ◌⊎◌, inl, inr, true,
  false, Bool-cases, some, ltb, ◌==◌, ==_iff, if◌then◌else◌, arith,
}
use vitr_os.Sched.Task.{kernel_virtual_base}
use vitr_os.Boot.{BootInfo}
use vitr_os.Acpi.{Memory}
use vitr_os.Loader.Image.{load_kernel_elf}
use vitr_os.Loader.Pages.{huge_flags, setup_initial_page_tables, new}
use vitr_os.Loader.Pages.Windows.{IsPlaced, walk, is_covered, expected}
use vitr_os.Loader.Pages.Setup.{setup-walk}
use vitr_os.Loader.Start.{
  MemoryMap, Firmware, Entry, Run, entered, region_end, entry_count, analyze_entries,
  analyze_memory_map, buffer_size, enter, efi_main, fill_boot_info, boot_info_before,
}

abbrev pub end_of : MemoryMap → ℕ → ℕ
end_of m i = region_end (m.descriptor_at (i * m.descriptor_size))

larger : ℕ → ℕ → ℕ
larger most e = if ltb most e then e else most

larger_lem :
    (most e : ℕ)
    → (most ≤ larger most e) × (e ≤ larger most e) × ((larger most e ≡ most) ⊎ (larger most e ≡ e))
unfolding larger
larger_lem most e = elim (Bool-cases (ltb most e)) [
  | inl h ↦ rw h (ground (arith, h), omega arith, inr refl)
  | inr h ↦ rw h (omega arith, ground (arith, h), inl refl)
]

analyze_entries_lem :
    (n i : ℕ) (m : MemoryMap) (most : ℕ)
    → (most ≤ analyze_entries n i m most)
      × ((k : ℕ) → i ≤ k → k < i + n → end_of m k ≤ analyze_entries n i m most)
      × ((analyze_entries n i m most ≡ most)
          ⊎ (k : ℕ) × (i ≤ k) × (k < i + n) × (analyze_entries n i m most ≡ end_of m k))
unfolding analyze_entries larger
analyze_entries_lem zero i m most = (omega arith, λ k a b. absurd (omega (arith, a, b)), inl refl)
analyze_entries_lem (suc n) i m most =
    let (p, q, r) = larger_lem most (end_of m i) in
    let (a, b, c) = analyze_entries_lem n (suc i) m (larger most (end_of m i)) in
    (
      omega (arith, p, a),
      λ k u v. elim (Bool-cases (k == i)) [
        | inl e ↦ let f : k ≡ i = (==_iff k i).0 e in rw f (omega (arith, q, a))
        | inr e ↦ b k (ground (arith, e, u)) (omega (arith, v))
      ],
      elim c [
        | inr (k, u, v, w) ↦ inr (k, omega (arith, u), omega (arith, v), w)
        | inl w ↦ elim r [ inl x ↦ inl (w ∙ x) | inr x ↦ inr (i, omega arith, omega arith, w ∙ x) ]
      ],
    )

-- `analyze_memory_map` gives the largest end of a region, or 0 for an empty map.
pub analyze_memory_map_lem :
    (m : MemoryMap) (n : ℕ)
    → ((k : ℕ) → k < n → end_of m k ≤ analyze_memory_map m n)
      × ((analyze_memory_map m n ≡ 0) ⊎ (k : ℕ) × (k < n) × (analyze_memory_map m n ≡ end_of m k))
unfolding analyze_memory_map
analyze_memory_map_lem m n =
    let (a, b, c) = analyze_entries_lem n 0 m 0 in
    (
      λ k l. b k (omega arith) (omega (arith, l)),
      elim c [ inl e ↦ inl e | inr (k, _, l, e) ↦ inr (k, omega (arith, l), e) ],
    )

-- All calls of the firmware succeed, the image is loaded with an entry point, and the memory maps fit.
pub record IsUp (f : Firmware) : Type 0 where
  pub gop_located : f.gop_located ≡ true
  pub map_success : f.memory_map.success ≡ true
  pub descriptors : 0 < f.memory_map.descriptor_size
  pub fits : f.memory_map.map_size ≤ buffer_size
  pub loaded : (load_kernel_elf f.file_system f.memory).1 ≢ 0
  pub later_fits : f.size_query + f.later_descriptor_size ≤ buffer_size
  pub later_map_success : f.later_map_success ≡ true
  pub exit_success : f.exit_success ≡ true

-- The end of the memory that the tables are set up for.
abbrev pub memory_end : Firmware → ℕ
memory_end f = analyze_memory_map f.memory_map (entry_count f.memory_map)

-- The entry to the kernel, with its tables for the memory up to an end.
abbrev pub entry_to : Firmware → BootInfo → ℕ → Memory → ℕ → Entry
entry_to f info end memory kernel_entry =
    let set = setup_initial_page_tables f.places end new in
    record {
      address = (kernel_entry + kernel_virtual_base) % 2 ^ 64;
      boot_info = info;
      tables = set.0;
      cr3 = set.1;
      memory = memory;
    }

module _ (f : Firmware) (up : IsUp f) where
  enter-up :
      (info : BootInfo) (memory : Memory) (kernel_entry : ℕ)
      → kernel_entry ≢ 0
      → enter f info memory kernel_entry
        ≡ Run.entered (entry_to f info info.max_physical_address memory kernel_entry)
  unfolding enter
  enter-up info memory kernel_entry n =
      let c : (kernel_entry == 0) ≡ false = ground (arith, n) in
      let d : ltb buffer_size (f.size_query + f.later_descriptor_size) ≡ false =
        ground (arith, up.later_fits) in
      rw (c, d, up.later_map_success, up.exit_success) refl

  efi_main-up :
      efi_main f
      ≡ enter f
          (fill_boot_info f.memory_map (boot_info_before f.mode f.configuration_tables))
          (load_kernel_elf f.file_system f.memory).0
          (load_kernel_elf f.file_system f.memory).1
  unfolding efi_main
  efi_main-up =
      let c : (f.memory_map.descriptor_size == 0) ≡ false = ground (arith, up.descriptors) in
      let d : ltb buffer_size f.memory_map.map_size ≡ false = ground (arith, up.fits) in
      rw (up.gop_located, up.map_success, c, d) refl

  memory_end-filled :
      (fill_boot_info f.memory_map
        (boot_info_before f.mode f.configuration_tables)).max_physical_address
      ≡ memory_end f
  unfolding fill_boot_info
  memory_end-filled = refl

covered :
    (f : Firmware) (i a : ℕ)
    → i < entry_count f.memory_map
    → a < end_of f.memory_map i
    → a < 2 ^ 33
    → expected (memory_end f) a ≡ some (a, a / 2 ^ 21 * 2 ^ 21 + huge_flags)
covered f i a l b c =
    let m = (analyze_memory_map_lem f.memory_map (entry_count f.memory_map)).0 i l in
    let d : is_covered (memory_end f) a ≡ true = ground (arith, b, c, m) in rw d refl

module _ (f : Firmware) (up : IsUp f) (placed : IsPlaced f.places)
    (small : memory_end f < 2 ^ 63) where
  -- If all calls of the firmware succeed, the image is valid with an entry point that is not 0,
  -- both memory maps fit into their buffers and their descriptors have a size, the tables of the
  -- image are aligned and do not overlap, and the memory ends below 2 ^ 63: the kernel is entered
  -- at its entry point in the high window, and the tables map all memory of the map of the firmware
  -- below 8 GB, at its own address and in the window.
  pub efi_main-enters :
      (e : Entry) × (efi_main f ≡ entered e)
      × (e.address ≡ ((load_kernel_elf f.file_system f.memory).1 + kernel_virtual_base) % 2 ^ 64)
      × (e.cr3 ≡ f.places.boot_pml4)
      × ((i a : ℕ)
          → i < entry_count f.memory_map
          → a < end_of f.memory_map i
          → a < 2 ^ 33
          → (walk f.places e.tables a ≡ some (a, a / 2 ^ 21 * 2 ^ 21 + huge_flags))
            × (walk f.places e.tables (kernel_virtual_base + a)
                ≡ some (a, a / 2 ^ 21 * 2 ^ 21 + huge_flags)))
  efi_main-enters =
      let k = load_kernel_elf f.file_system f.memory in
      let info = fill_boot_info f.memory_map (boot_info_before f.mode f.configuration_tables) in
      let (root, maps, _) = setup-walk f.places placed (memory_end f) small in
      (
        entry_to f info (memory_end f) k.0 k.1,
        efi_main-up f up
            ∙ enter-up f up info k.0 k.1 up.loaded
            ∙ ap (λ x. Run.entered (entry_to f info x k.0 k.1)) (memory_end-filled f up),
        refl,
        root,
        λ i a l b c.
            let (u, v) = maps a (omega (arith, c)) in
            (u ∙ covered f i a l b c, v ∙ covered f i a l b c),
      )
