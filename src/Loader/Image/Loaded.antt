-- ===== src/Loader/Image/Loaded.antt =====
-- What `load_kernel_elf` leaves in memory, and where it enters the kernel.
use vitr_os.Base.{
  ℕ, zero, suc, ◌+◌, ◌-◌, ◌*◌, ◌≤◌, ◌<◌, ◌≡◌, ◌≢◌, refl, ap, ◌∙◌, ◌⊎◌, inl, inr, max, true, false,
  false≢true, ◌&&◌, Bool-cases, none, ltb, leb, ◌==◌, ==_iff, if◌then◌else◌, arith,
}
use vitr_os.Acpi.{Memory}
use vitr_os.Loader.Image.{
  Elf64Header, Elf64ProgramHeader, Progress, FileSystem, elf_header, program_header, pt_load,
  is_valid, copy_bytes, zero_bytes, load_segment, load_segments, physical_entry, load_kernel_elf,
}

abbrev pub extent : Elf64ProgramHeader → ℕ
extent ph = max ph.p_filesz ph.p_memsz

-- The byte `j` of a segment.
abbrev pub segment_byte : Memory → Elf64ProgramHeader → ℕ → ℕ
segment_byte file ph j = if ltb j ph.p_filesz then file (ph.p_offset + j) else 0

-- A segment that is loaded does not take this address.
abbrev pub Misses : Elf64ProgramHeader → ℕ → Type 0
Misses ph x = ph.p_type ≡ pt_load → (x < ph.p_paddr) ⊎ (ph.p_paddr + extent ph ≤ x)

-- The segments that are loaded take different addresses.
abbrev pub AreDisjoint : Elf64ProgramHeader → Elf64ProgramHeader → Type 0
AreDisjoint p q =
    p.p_type ≡ pt_load
    → q.p_type ≡ pt_load
    → (p.p_paddr + extent p ≤ q.p_paddr) ⊎ (q.p_paddr + extent q ≤ p.p_paddr)

copy_in : (file m : Memory) (o d n j : ℕ) → j < n → copy_bytes file o d n m (d + j) ≡ file (o + j)
unfolding copy_bytes
copy_in file m o d n j h =
    let a : leb d (d + j) ≡ true = ground arith in
    let b : ltb (d + j) (d + n) ≡ true = ground (arith, h) in
    let c : d + j - d ≡ j = omega arith in rw (a, b) (ap (λ k. file (o + k)) c)

copy_out : (file m : Memory) (o d n x : ℕ) → (x < d) ⊎ (d + n ≤ x) → copy_bytes file o d n m x ≡ m x
unfolding copy_bytes
copy_out file m o d n x h =
    let e : (leb d x && ltb x (d + n)) ≡ false = ground (arith, h) in rw e refl

zero_in : (m : Memory) (d n x : ℕ) → d ≤ x → x < d + n → zero_bytes d n m x ≡ 0
unfolding zero_bytes
zero_in m d n x h l = let e : (leb d x && ltb x (d + n)) ≡ true = ground (arith, h, l) in rw e refl

zero_out : (m : Memory) (d n x : ℕ) → (x < d) ⊎ (d + n ≤ x) → zero_bytes d n m x ≡ m x
unfolding zero_bytes
zero_out m d n x h = let e : (leb d x && ltb x (d + n)) ≡ false = ground (arith, h) in rw e refl

module _ (file : Memory) (ph : Elf64ProgramHeader) (s : Progress) where
  load-inside :
      (j : ℕ)
      → ph.p_type ≡ pt_load
      → j < extent ph
      → (load_segment file ph s).memory (ph.p_paddr + j) ≡ segment_byte file ph j
  unfolding load_segment
  load-inside j t h =
      let c = copy_bytes file ph.p_offset ph.p_paddr ph.p_filesz s.memory in
      let e : (ph.p_type == pt_load) ≡ true = ground (arith, t) in
      elim (Bool-cases (ltb ph.p_filesz ph.p_memsz)) [
        | inl b ↦ elim (Bool-cases (ltb j ph.p_filesz)) [
          | inl f ↦
              rw (e, b, f)
                (zero_out c (ph.p_paddr + ph.p_filesz) (ph.p_memsz - ph.p_filesz) (ph.p_paddr + j)
                    (inl (ground (arith, f)))
                  ∙ copy_in file s.memory ph.p_offset ph.p_paddr ph.p_filesz j (ground (arith, f)))
          | inr f ↦
              rw (e, b, f)
                (zero_in c (ph.p_paddr + ph.p_filesz) (ph.p_memsz - ph.p_filesz) (ph.p_paddr + j)
                  (ground (arith, f)) (ground (arith, b, h)))
        ]
        | inr b ↦
            let f : ltb j ph.p_filesz ≡ true = ground (arith, b, h) in
            rw (e, b, f)
              (copy_in file s.memory ph.p_offset ph.p_paddr ph.p_filesz j (ground (arith, f)))
      ]

  load-outside : (x : ℕ) → Misses ph x → (load_segment file ph s).memory x ≡ s.memory x
  unfolding load_segment
  load-outside x m =
      let c = copy_bytes file ph.p_offset ph.p_paddr ph.p_filesz s.memory in
      elim (Bool-cases (ph.p_type == pt_load)) [
        | inr e ↦ rw e refl
        | inl e ↦
            let o = m ((==_iff ph.p_type pt_load).0 e) in
            let l =
              copy_out file s.memory ph.p_offset ph.p_paddr ph.p_filesz x (omega (arith, o)) in
            elim (Bool-cases (ltb ph.p_filesz ph.p_memsz)) [
              | inl b ↦
                  rw (e, b)
                    (zero_out c (ph.p_paddr + ph.p_filesz) (ph.p_memsz - ph.p_filesz) x
                        (ground (arith, o, b))
                      ∙ l)
              | inr b ↦ rw (e, b) l
            ]
      ]

module _ (h : Elf64Header) (file : Memory) where
  -- The program header `k`.
  abbrev pub header : ℕ → Elf64ProgramHeader
  header k = program_header file (h.e_phoff + k * 56)

  segments-outside :
      (n i x : ℕ) (s : Progress)
      → ((k : ℕ) → i ≤ k → k < i + n → Misses (header k) x)
      → (load_segments n i h file s).memory x ≡ s.memory x
  unfolding load_segments
  segments-outside zero i x s m = refl
  segments-outside (suc n) i x s m =
      segments-outside n (suc i) x (load_segment file (header i) s)
        (λ k a b. m k (omega (arith, a)) (omega (arith, b)))
      ∙ load-outside file (header i) s x (m i (omega arith) (omega arith))

  segments-inside :
      (n i k j : ℕ) (s : Progress)
      → ((p q : ℕ)
          → i ≤ p
          → p < i + n
          → i ≤ q
          → q < i + n
          → p ≢ q
          → AreDisjoint (header p) (header q))
      → i ≤ k
      → k < i + n
      → (header k).p_type ≡ pt_load
      → j < extent (header k)
      → (load_segments n i h file s).memory ((header k).p_paddr + j)
        ≡ segment_byte file (header k) j
  unfolding load_segments
  segments-inside zero i k j s d a b t l = absurd (omega (arith, a, b))
  segments-inside (suc n) i k j s d a b t l = elim (Bool-cases (i == k)) [
    | inl e ↦
        let q : i ≡ k = (==_iff i k).0 e in
        let away : (m : ℕ)
            → suc i ≤ m
            → m < suc i + n
            → Misses (header m) ((header k).p_paddr + j) =
          λ m c f y.
            elim (d k m (omega (arith, a)) b (omega (arith, c)) (omega (arith, f))
              (λ r. omega (arith, r, q, c)) t y) [
                | inl u ↦ inl (omega (arith, u, l))
                | inr u ↦ inr (omega (arith, u))
              ] in
        segments-outside n (suc i) ((header k).p_paddr + j) (load_segment file (header i) s) away
        ∙ ap (λ m. (load_segment file (header m) s).memory ((header k).p_paddr + j)) q
        ∙ load-inside file (header k) s j t l
    | inr e ↦
        let q : i ≢ k = λ r. false≢true (ground (arith, e, r)) in
        segments-inside n (suc i) k j (load_segment file (header i) s)
          (λ p r u v w x y.
            d p r (omega (arith, u)) (omega (arith, v)) (omega (arith, w)) (omega (arith, x)) y)
          (omega (arith, a, q)) (omega (arith, b)) t l
  ]

-- Every call of the firmware succeeds, and the file is one for this machine.
pub record IsReadable (fs : FileSystem) : Type 0 where
  pub located : fs.located ≡ true
  pub volume_opened : fs.volume_opened ≡ true
  pub kernel_opened : fs.kernel_opened ≡ true
  pub read : fs.read ≡ true
  pub valid : is_valid (elf_header fs.file) ≡ true

abbrev pub no_progress : Memory → Progress
no_progress memory = record { memory = memory; kernel_virt_offset = none }

-- The state after the loop over all program headers.
abbrev pub all_segments : FileSystem → Memory → Progress
all_segments fs memory =
    let h = elf_header fs.file in load_segments h.e_phnum 0 h fs.file (no_progress memory)

pub load_kernel_elf-all :
    (fs : FileSystem) (memory : Memory)
    → IsReadable fs
    → load_kernel_elf fs memory ≡ (
      (all_segments fs memory).memory,
      physical_entry (elf_header fs.file) (all_segments fs memory).kernel_virt_offset,
    )
unfolding load_kernel_elf
load_kernel_elf-all fs memory ok =
    rw (ok.located, ok.volume_opened, ok.kernel_opened, ok.read, ok.valid) refl

-- If the calls of the firmware succeed, the header is valid and the segments to load do not overlap in
-- memory, then `load_kernel_elf` leaves each of these segments at its physical address, filled up with
-- zeros to its size in memory, and nothing else in memory is changed.
pub load_kernel_elf-loads :
    (fs : FileSystem) (memory : Memory)
    → IsReadable fs
    → ((p q : ℕ)
        → p < (elf_header fs.file).e_phnum
        → q < (elf_header fs.file).e_phnum
        → p ≢ q
        → AreDisjoint
            (header (elf_header fs.file) fs.file p)
            (header (elf_header fs.file) fs.file q))
    → ((k j : ℕ)
        → k < (elf_header fs.file).e_phnum
        → (header (elf_header fs.file) fs.file k).p_type ≡ pt_load
        → j < extent (header (elf_header fs.file) fs.file k)
        → (load_kernel_elf fs memory).0 ((header (elf_header fs.file) fs.file k).p_paddr + j)
          ≡ segment_byte fs.file (header (elf_header fs.file) fs.file k) j)
      × ((x : ℕ)
          → ((k : ℕ)
              → k < (elf_header fs.file).e_phnum
              → Misses (header (elf_header fs.file) fs.file k) x)
          → (load_kernel_elf fs memory).0 x ≡ memory x)
load_kernel_elf-loads fs memory ok disjoint =
    let h = elf_header fs.file in
    let e = load_kernel_elf-all fs memory ok in
    (
      λ k j l t b.
          ap (λ r. r.0 ((header h fs.file k).p_paddr + j)) e
          ∙ segments-inside h fs.file h.e_phnum 0 k j (no_progress memory)
              (λ p q _ c _ d. disjoint p q (omega (arith, c)) (omega (arith, d))) (omega arith)
              (omega (arith, l)) t b,
      λ x m.
          ap (λ r. r.0 x) e
          ∙ segments-outside h fs.file h.e_phnum 0 x (no_progress memory)
              (λ k _ b. m k (omega (arith, b))),
    )
