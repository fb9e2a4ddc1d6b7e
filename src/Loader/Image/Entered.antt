-- ===== src/Loader/Image/Entered.antt =====
-- The physical entry point that `load_kernel_elf` returns.
use vitr_os.Base.{
  ℕ, zero, suc, ◌+◌, ◌-◌, ◌%◌, ◌^◌, ◌≤◌, ◌<◌, ◌≡◌, ◌≢◌, refl, ap, ◌∙◌, ◌⊎◌, inl, inr, true, false,
  false≢true, Bool-cases, Option, none, some, ◌==◌, ==_iff, if◌then◌else◌, arith,
}
use vitr_os.Acpi.{Memory}
use vitr_os.Loader.Image.{
  Elf64Header, Elf64ProgramHeader, Progress, FileSystem, elf_header, pt_load, note_offset,
  load_segment, load_segments, physical_entry, load_kernel_elf,
}
use vitr_os.Loader.Image.Loaded.{header, IsReadable, no_progress, load_kernel_elf-all}

-- How far the address that the segment is linked at lies above the one it is loaded at, on 64 bits.
abbrev pub offset_of : Elf64ProgramHeader → ℕ
offset_of ph = (ph.p_vaddr + 2 ^ 64 - ph.p_paddr) % 2 ^ 64

-- A segment to load has this offset.
pub record HasOffset (d : ℕ) (ph : Elf64ProgramHeader) : Type 0 where
  pub virtual_address : ph.p_vaddr < 2 ^ 64
  pub physical_address : ph.p_paddr < 2 ^ 64
  pub offset : offset_of ph ≡ d

-- The offset is noted unless it is zero.
noted : ℕ → Option ℕ
noted d = if d == 0 then none else some d

note_offset-first :
    (d : ℕ) (ph : Elf64ProgramHeader) → HasOffset d ph → note_offset ph none ≡ noted d
unfolding noted
note_offset-first d ph h = elim (Bool-cases (ph.p_vaddr == ph.p_paddr)) [
  | inl e ↦
      let z : (d == 0) ≡ true = ground (arith, e, h.offset, h.virtual_address) in rw (e, z) refl
  | inr e ↦
      let z : (d == 0) ≡ false =
        ground (arith, e, h.offset, h.virtual_address, h.physical_address) in
      rw (e, z) (ap some h.offset)
]

note_offset-again :
    (d : ℕ) (ph : Elf64ProgramHeader) → HasOffset d ph → note_offset ph (noted d) ≡ noted d
unfolding noted
note_offset-again d ph h = elim (Bool-cases (d == 0)) [
  | inr e ↦ rw e refl
  | inl e ↦
      let z : (ph.p_vaddr == ph.p_paddr) ≡ true =
        ground (arith, e, h.offset, h.virtual_address, h.physical_address) in
      rw (e, z) refl
]

module _ (d : ℕ) (file : Memory) where
  load-notes :
      (ph : Elf64ProgramHeader) (s : Progress)
      → (ph.p_type ≡ pt_load → HasOffset d ph)
      → (s.kernel_virt_offset ≡ noted d)
      → (load_segment file ph s).kernel_virt_offset ≡ noted d
  unfolding load_segment
  load-notes ph s h o = elim (Bool-cases (ph.p_type == pt_load)) [
    | inr e ↦ rw e o
    | inl e ↦
        rw e (ap (note_offset ph) o ∙ note_offset-again d ph (h ((==_iff ph.p_type pt_load).0 e)))
  ]

  load-notes_first :
      (ph : Elf64ProgramHeader) (s : Progress)
      → (ph.p_type ≡ pt_load → HasOffset d ph)
      → s.kernel_virt_offset ≡ none
      → (ph.p_type ≢ pt_load) × ((load_segment file ph s).kernel_virt_offset ≡ none)
        ⊎ ((load_segment file ph s).kernel_virt_offset ≡ noted d)
  unfolding load_segment
  load-notes_first ph s h o = elim (Bool-cases (ph.p_type == pt_load)) [
    | inr e ↦ inl ((λ q. false≢true (ground (arith, e, q))), rw e o)
    | inl e ↦
        inr (
          rw e
            (ap (note_offset ph) o ∙ note_offset-first d ph (h ((==_iff ph.p_type pt_load).0 e))))
  ]

  module _ (h : Elf64Header) where
    notes_kept :
        (n i : ℕ) (s : Progress)
        → ((k : ℕ)
            → i ≤ k
            → k < i + n
            → (header h file k).p_type ≡ pt_load
            → HasOffset d (header h file k))
        → s.kernel_virt_offset ≡ noted d
        → (load_segments n i h file s).kernel_virt_offset ≡ noted d
    unfolding load_segments
    notes_kept zero i s a o = o
    notes_kept (suc n) i s a o =
        notes_kept n (suc i) (load_segment file (header h file i) s)
          (λ k b c. a k (omega (arith, b)) (omega (arith, c)))
          (load-notes (header h file i) s (a i (omega arith) (omega arith)) o)

    notes :
        (n i k : ℕ) (s : Progress)
        → ((k : ℕ)
            → i ≤ k
            → k < i + n
            → (header h file k).p_type ≡ pt_load
            → HasOffset d (header h file k))
        → i ≤ k
        → k < i + n
        → (header h file k).p_type ≡ pt_load
        → s.kernel_virt_offset ≡ none
        → (load_segments n i h file s).kernel_virt_offset ≡ noted d
    unfolding load_segments
    notes zero i k s a b c t o = absurd (omega (arith, b, c))
    notes (suc n) i k s a b c t o =
        let rest : (k : ℕ)
            → suc i ≤ k
            → k < suc i + n
            → (header h file k).p_type ≡ pt_load
            → HasOffset d (header h file k) =
          λ k b c. a k (omega (arith, b)) (omega (arith, c)) in
        elim (load-notes_first (header h file i) s (a i (omega arith) (omega arith)) o) [
          | inr q ↦ notes_kept n (suc i) (load_segment file (header h file i) s) rest q
          | inl (m, q) ↦
              let ne : i ≢ k = λ r. m (ap (λ x. (header h file x).p_type) r ∙ t) in
              notes n (suc i) k (load_segment file (header h file i) s) rest (omega (arith, b, ne))
                (omega (arith, c)) t q
        ]

entry_noted :
    (h : Elf64Header) (d : ℕ)
    → h.e_entry < 2 ^ 64
    → physical_entry h (noted d) ≡ (h.e_entry + 2 ^ 64 - d) % 2 ^ 64
unfolding noted
entry_noted h d l = elim (Bool-cases (d == 0)) [
  | inl e ↦ rw e (ground (arith, e, l))
  | inr e ↦ rw e refl
]

-- If the calls succeed, the header is valid, and all segments to load are linked at the same distance
-- from where they are loaded, then an entry point in one of them becomes the address at which its byte
-- of that segment is loaded.
pub load_kernel_elf-enters :
    (fs : FileSystem) (memory : Memory) (d k j : ℕ)
    → IsReadable fs
    → ((m : ℕ)
        → m < (elf_header fs.file).e_phnum
        → (header (elf_header fs.file) fs.file m).p_type ≡ pt_load
        → HasOffset d (header (elf_header fs.file) fs.file m))
    → k < (elf_header fs.file).e_phnum
    → (header (elf_header fs.file) fs.file k).p_type ≡ pt_load
    → (elf_header fs.file).e_entry ≡ (header (elf_header fs.file) fs.file k).p_vaddr + j
    → (elf_header fs.file).e_entry < 2 ^ 64
    → (header (elf_header fs.file) fs.file k).p_paddr + j < 2 ^ 64
    → (load_kernel_elf fs memory).1 ≡ (header (elf_header fs.file) fs.file k).p_paddr + j
load_kernel_elf-enters fs memory d k j ok all l t e b c =
    let h = elf_header fs.file in
    let n =
      notes d fs.file h h.e_phnum 0 k (no_progress memory) (λ m _ y. all m (omega (arith, y)))
        (omega arith) (omega (arith, l)) t refl in
    let o = all k l t in
    ap (λ r. r.1) (load_kernel_elf-all fs memory ok)
    ∙ ap (physical_entry h) n
    ∙ entry_noted h d b
    ∙ omega (arith, e, b, c, o.offset, o.virtual_address, o.physical_address)
