-- ===== src/Acpi/Madt.antt =====
-- When `parse_madt` of `kernel/src/acpi.rs` ends.
use vitr_os.Base.{
  ℕ, zero, suc, ◌+◌, ◌%◌, ◌^◌, ◌≤◌, ◌<◌, ◌≡◌, ◌≢◌, refl, ap, ◌∙◌, ◌⊎◌, false≢true, ==_iff, true,
  Bool-cases, inl, inr, Option, none, some, ltb, ◌==◌, ok, arith,
}
use vitr_os.Paging.{phys_to_virt}
use vitr_os.Acpi.{
  Memory, Acpi, Result, after, read_bytes, table_length, verify_checksum, count_cpu, count_io_apic,
  madt_entries, parse_madt,
}

-- The entries that the walk gets to: the first, and the one after each entry within the table.
pub data Reaches (m : Memory) (entries_end : ℕ) : ℕ → ℕ → Type 0 where
  here : (a : ℕ) → Reaches m entries_end a a
  next :
      (a b : ℕ)
      → a < entries_end
      → Reaches m entries_end ((a + m (suc a)) % 2 ^ 64) b
      → Reaches m entries_end a b

madt_entries-next :
    (n : ℕ) (m : Memory) (entries_end a c i : ℕ)
    → a < entries_end
    → madt_entries (suc n) m entries_end a c i
      ≡ madt_entries n m entries_end
          ((a + m (suc a)) % 2 ^ 64)
          (count_cpu m a c)
          (count_io_apic m a i)
unfolding madt_entries
madt_entries-next n m entries_end a c i h =
    let b : ltb a entries_end ≡ true = ground arith in rw b refl

madt_entries-stuck :
    (n : ℕ) (m : Memory) (entries_end a b c i : ℕ)
    → entries_end ≤ 2 ^ 64
    → Reaches m entries_end a b
    → b < entries_end
    → m (suc b) ≡ 0
    → madt_entries n m entries_end a c i ≡ none
unfolding madt_entries
madt_entries-stuck zero m entries_end a b c i fits r h z = refl
madt_entries-stuck (suc n) m entries_end a _ c i fits (here _) h z =
    let e = madt_entries-next n m entries_end a c i h in
    let f : (a + m (suc a)) % 2 ^ 64 ≡ a = omega arith in
    e
    ∙ ap (λ x. madt_entries n m entries_end x (count_cpu m a c) (count_io_apic m a i)) f
    ∙ madt_entries-stuck n m entries_end a a (count_cpu m a c) (count_io_apic m a i) fits (here a) h
        z
madt_entries-stuck (suc n) m entries_end a b c i fits (next _ _ l r) h z =
    let e = madt_entries-next n m entries_end a c i l in
    e
    ∙ madt_entries-stuck n m entries_end ((a + m (suc a)) % 2 ^ 64) b (count_cpu m a c)
        (count_io_apic m a i) fits r h z

madt_entries-ends :
    (n : ℕ) (m : Memory) (entries_end a c i : ℕ)
    → ((b : ℕ) → m b < 2 ^ 8)
    → entries_end + 2 ^ 8 ≤ 2 ^ 64
    → 0 < n
    → entries_end < a + n
    → ((b : ℕ) → Reaches m entries_end a b → b < entries_end → m (suc b) ≢ 0)
    → (r : ℕ × ℕ) × (madt_entries n m entries_end a c i ≡ some r)
unfolding madt_entries
madt_entries-ends zero m entries_end a c i bytes fits some_fuel h ne =
    absurd (omega (arith, some_fuel))
madt_entries-ends (suc n) m entries_end a c i bytes fits some_fuel h ne =
    elim (Bool-cases (ltb a entries_end)) [
      | inl e ↦
          let l : a < entries_end = ground arith in
          let k = bytes (suc a) in
          let z = ne a (here a) l in
          let (r, q) =
            madt_entries-ends n m entries_end ((a + m (suc a)) % 2 ^ 64) (count_cpu m a c)
              (count_io_apic m a i) bytes fits (omega (arith, l, h))
              (omega (arith, k, z, l, h, fits)) (λ b w. ne b (next a b l w)) in
          (r, madt_entries-next n m entries_end a c i l ∙ q)
      | inr e ↦ ((c, i), rw e refl)
    ]

-- An entry of length 0 that the walk gets to.
abbrev pub Stuck : Memory → ℕ → ℕ → Type 0
Stuck m entries_end a = (b : ℕ) × Reaches m entries_end a b × (b < entries_end) × (m (suc b) ≡ 0)

abbrev Advances : Memory → ℕ → ℕ → Type 0
Advances m entries_end a = (b : ℕ) → Reaches m entries_end a b → b < entries_end → m (suc b) ≢ 0

Advances-past : (m : Memory) (entries_end a : ℕ) → entries_end ≤ a → Advances m entries_end a
Advances-past m entries_end a h _ (here _) l = absurd (omega arith)
Advances-past m entries_end a h b (next _ _ k r) l = absurd (omega arith)

Advances-next :
    (m : Memory) (entries_end a : ℕ)
    → m (suc a) ≢ 0
    → Advances m entries_end ((a + m (suc a)) % 2 ^ 64)
    → Advances m entries_end a
Advances-next m entries_end a z h _ (here _) l = z
Advances-next m entries_end a z h b (next _ _ k r) l = h b r l

Stuck-Advances :
    (n : ℕ) (m : Memory) (entries_end a : ℕ)
    → ((b : ℕ) → m b < 2 ^ 8)
    → entries_end + 2 ^ 8 ≤ 2 ^ 64
    → entries_end ≤ a + n
    → Stuck m entries_end a ⊎ Advances m entries_end a
Stuck-Advances zero m entries_end a bytes fits h = inr (Advances-past m entries_end a (omega arith))
Stuck-Advances (suc n) m entries_end a bytes fits h = elim (Bool-cases (ltb a entries_end)) [
  | inl e ↦
      let l : a < entries_end = ground arith in
      elim (Bool-cases (m (suc a) == 0)) [
        | inl y ↦ inl (a, here a, l, (==_iff (m (suc a)) 0).0 y)
        | inr y ↦
            let k = bytes (suc a) in
            let z : m (suc a) ≢ 0 = λ q. false≢true (ground (arith, q)) in
            elim (Stuck-Advances n m entries_end ((a + m (suc a)) % 2 ^ 64) bytes fits
              (omega (arith, k, z, l, h, fits))) [
                | inl (b, r, w, x) ↦ inl (b, next a b l r, w, x)
                | inr f ↦ inr (Advances-next m entries_end a z f)
              ]
      ]
  | inr e ↦ inr (Advances-past m entries_end a (ground arith))
]

-- On a table with a good checksum `parse_madt` either gets to an entry of length 0 and never ends,
-- or it ends on every table of this length, and has stored the address of the local APIC.
pub parse_madt_lem :
    (m : Memory) (phys_addr a : ℕ) (s : Acpi)
    → ((b : ℕ) → m b < 2 ^ 8)
    → phys_to_virt phys_addr ≡ ok a
    → verify_checksum m a ≡ true
    → a + table_length m a + 2 ^ 8 ≤ 2 ^ 64
    → Stuck m (a + table_length m a) (a + 44) × ((fuel : ℕ) → parse_madt fuel m phys_addr s ≡ none)
      ⊎ ((fuel : ℕ)
          → table_length m a < fuel
          → parse_madt fuel m phys_addr s
            ≡ some (record s { local_apic_address = read_bytes 4 m (a + 36) }, ok tt))
unfolding parse_madt
parse_madt_lem m phys_addr a s bytes v c fits =
    let entries_end : ℕ = a + table_length m a in
    let e : entries_end % 2 ^ 64 ≡ entries_end = omega arith in
    let f : (a + 44) % 2 ^ 64 ≡ a + 44 = omega arith in
    let finish : Option (ℕ × ℕ) → Option Result =
      λ o. after o (λ _. (record s { local_apic_address = read_bytes 4 m (a + 36) }, ok tt)) in
    let run : (fuel : ℕ)
        → parse_madt fuel m phys_addr s ≡ finish (madt_entries fuel m entries_end (a + 44) 0 0) =
      λ fuel. rw (v, parse_madt) (rw c (rw e (rw f refl))) in
    elim (Stuck-Advances (table_length m a) m entries_end (a + 44) bytes fits (omega arith)) [
      | inl (b, r, l, z) ↦ inl (
        (b, r, l, z),
        λ fuel.
            run fuel
            ∙ ap finish (madt_entries-stuck fuel m entries_end (a + 44) b 0 0 (omega arith) r l z),
      )
      | inr h ↦ inr (λ fuel l.
          let (r, q) =
            madt_entries-ends fuel m entries_end (a + 44) 0 0 bytes fits (omega arith) (omega arith)
              h in
          run fuel ∙ ap finish q)
    ]
