-- ===== src/Paging/Init/Entries.antt =====
-- What each part of `init` writes into the tables.
use vitr_os.Base.{
  ℕ, zero, suc, ◌+◌, ◌-◌, ◌*◌, ◌/◌, ◌%◌, ◌^◌, ◌≤◌, ◌<◌, ◌≡◌, refl, sym, ap, ◌∙◌, Bool, true, false,
  ◌&&◌, Option, none, some, ltb, leb, ◌==◌, ==_iff, Bool-cases, inl, inr, if◌then◌else◌, ok, panic,
  arith,
}
use vitr_os.Sched.Task.{kernel_virtual_base}
use vitr_os.Paging.{
  Tables, set_page, set_entry, set_directory, make_entry, virt_to_phys, page_size, pt_count,
  page_table_entry_count,
}
use vitr_os.Paging.Walk.{Statics}
use vitr_os.Paging.Mmio.{page_entry, page_entry-set_page, within, map_pages_lem}
use vitr_os.Paging.Init.{
  base_flags, link_directories, link_tables, fill_table, fill_tables, guard, map_section,
}

pub virt_to_phys_lem :
    (v : ℕ) → kernel_virtual_base ≤ v → virt_to_phys v ≡ ok (v - kernel_virtual_base)
unfolding virt_to_phys
virt_to_phys_lem v h = ground arith

-- The new value, or the old one.
abbrev pub override : Option ℕ → ℕ → ℕ
override none old = old
override (some e) old = e

abbrev pub or_else : Option ℕ → Option ℕ → Option ℕ
or_else (some e) o = some e
or_else none o = o

override-or_else :
    (o o' : Option ℕ) (e : ℕ) → override o (override o' e) ≡ override (or_else o o') e
override-or_else none o' e = refl
override-or_else (some x) o' e = refl

abbrev pub only_if : Bool → ℕ → Option ℕ
only_if b e = if b then some e else none

-- Only entries of page tables have been written, and these are the new ones.
pub record Sets (t t' : Tables) (new : ℕ → Option ℕ) : Type 0 where
  pub others : t' ≡ record t { pt_high = t'.pt_high }
  pub entries : (p : ℕ) → page_entry t' p ≡ override (new p) (page_entry t p)

pub Sets-none : (t : Tables) → Sets t t (λ _. none)
Sets-none t = record { others = refl; entries = λ p. refl }

pub Sets-then :
    (t t' t'' : Tables) (f g : ℕ → Option ℕ)
    → Sets t t' f
    → Sets t' t'' g
    → Sets t t'' (λ p. or_else (g p) (f p))
Sets-then t t' t'' f g a b = record {
  others =
      b.others ∙ ap {A = Tables} {B = Tables} (λ u. record u { pt_high = t''.pt_high }) a.others;
  entries = λ p.
      b.entries p
      ∙ ap (override (g p)) (a.entries p)
      ∙ override-or_else (g p) (f p) (page_entry t p);
}

override-only_if : (b : Bool) (e old : ℕ) → (if b then e else old) ≡ override (only_if b e) old
override-only_if true e old = refl
override-only_if false e old = refl

pub set_page-Sets :
    (page e : ℕ) (t : Tables) → Sets t (set_page page e t) (λ p. only_if (p == page) e)
set_page-Sets page e t = record {
  others = refl;
  entries = λ p. page_entry-set_page page p e t ∙ override-only_if (p == page) e (page_entry t p);
}

-- `link_directories` and `link_tables` write the first entries, and nothing else.
pub link_directories_lem :
    (s : Statics) (n : ℕ) (t : Tables)
    → kernel_virtual_base ≤ s.pd
    → (t' : Tables) × (link_directories s n t ≡ (t', ok tt))
      × (t' ≡ record t { pdp_high = t'.pdp_high })
      × ((i : ℕ)
          → i < n
          → t'.pdp_high i ≡ make_entry (s.pd + i * page_size - kernel_virtual_base) base_flags)
unfolding link_directories
link_directories_lem s zero t h = (t, refl, refl, λ i l. absurd (omega arith))
link_directories_lem s (suc n) t h =
    let (t', r, k, m) = link_directories_lem s n t h in
    let p : ℕ = s.pd + n * page_size - kernel_virtual_base in
    let e : ℕ = make_entry p base_flags in
    let v : virt_to_phys (s.pd + n * page_size) ≡ ok p =
      virt_to_phys_lem (s.pd + n * page_size) (omega arith) in
    (
      record t' { pdp_high = set_entry n e t'.pdp_high },
      rw (r, link_directories) (rw v refl),
      ap {A = Tables} {B = Tables} (λ u. record u { pdp_high = set_entry n e t'.pdp_high }) k,
      λ i l. elim (Bool-cases (i == n)) [
        | inl y ↦
            let q : i ≡ n = (==_iff i n).0 y in
            rw y
              (ap (λ j. make_entry (s.pd + j * page_size - kernel_virtual_base) base_flags) (sym q))
        | inr y ↦ rw y (m i (ground arith))
      ],
    )

abbrev pub directory_entry : Tables → ℕ → ℕ
directory_entry t n = t.pd_high (n / 512) (n % 512)

directory_entry-set_directory :
    (n m e : ℕ) (t : Tables)
    → directory_entry (set_directory n e t) m ≡ (if m == n then e else directory_entry t m)
directory_entry-set_directory n m e t = page_entry-set_page n m e (record t { pt_high = t.pd_high })

pub link_tables_lem :
    (s : Statics) (n : ℕ) (t : Tables)
    → kernel_virtual_base ≤ s.pt
    → (t' : Tables) × (link_tables s n t ≡ (t', ok tt))
      × (t' ≡ record t { pd_high = t'.pd_high })
      × ((i : ℕ)
          → i < n
          → directory_entry t' i
            ≡ make_entry (s.pt + i * page_size - kernel_virtual_base) base_flags)
unfolding link_tables
link_tables_lem s zero t h = (t, refl, refl, λ i l. absurd (omega arith))
link_tables_lem s (suc n) t h =
    let (t', r, k, m) = link_tables_lem s n t h in
    let p : ℕ = s.pt + n * page_size - kernel_virtual_base in
    let e : ℕ = make_entry p base_flags in
    let v : virt_to_phys (s.pt + n * page_size) ≡ ok p =
      virt_to_phys_lem (s.pt + n * page_size) (omega arith) in
    let u : Tables = set_directory n e t' in
    (
      u,
      rw (r, link_tables) (rw v refl),
      ap {A = Tables} {B = Tables} (λ w. record w { pd_high = u.pd_high }) k,
      λ i l. elim (Bool-cases (i == n)) [
        | inl y ↦
            let q : i ≡ n = (==_iff i n).0 y in
            directory_entry-set_directory n i e t'
            ∙ rw y (
                ap (λ j. make_entry (s.pt + j * page_size - kernel_virtual_base) base_flags)
                  (sym q))
        | inr y ↦ directory_entry-set_directory n i e t' ∙ rw y (m i (ground arith))
      ],
    )

-- The plain pages among those with numbers from `first` up to `last`.
abbrev pub plain_entry : (ℕ → Bool) → ℕ → ℕ → ℕ → Option ℕ
plain_entry plain first last p =
    only_if (leb first p && (ltb p last && plain (p * page_size)))
      (make_entry (p * page_size) base_flags)

Sets-ext : (t t' : Tables) (f g : ℕ → Option ℕ) → ((p : ℕ) → f p ≡ g p) → Sets t t' f → Sets t t' g
Sets-ext t t' f g e a = record {
  others = a.others;
  entries = λ p. a.entries p ∙ ap (λ o. override o (page_entry t p)) (e p);
}

plain_entry-step :
    (plain : ℕ → Bool) (first n p : ℕ)
    → or_else
        (only_if
          (plain ((first + n) * page_size) && (p == first + n))
          (make_entry ((first + n) * page_size) base_flags))
        (plain_entry plain first (first + n) p)
      ≡ plain_entry plain first (first + suc n) p
plain_entry-step plain first n p = elim (Bool-cases (p == first + n)) [
  | inl y ↦
      let q : p ≡ first + n = (==_iff p (first + n)).0 y in
      let l : leb first p ≡ true = ground arith in
      let m : ltb p (first + suc n) ≡ true = ground arith in
      let k : ltb p (first + n) ≡ false = ground arith in
      rw (y, l, m, k) (rw q (here (plain ((first + n) * page_size))))
  | inr y ↦
      let k : ltb p (first + suc n) ≡ ltb p (first + n) = ground arith in
      rw (y, k) (gone (plain ((first + n) * page_size)))
]
  where
    here :
        (b : Bool)
        → or_else (only_if (b && true) (make_entry ((first + n) * page_size) base_flags)) none
          ≡ only_if b (make_entry ((first + n) * page_size) base_flags)
    here true = refl
    here false = refl

    gone :
        (b : Bool)
        → or_else
            (only_if (b && false) (make_entry ((first + n) * page_size) base_flags))
            (plain_entry plain first (first + n) p)
          ≡ plain_entry plain first (first + n) p
    gone true = refl
    gone false = refl

set_page_if-Sets :
    (b : Bool) (page e : ℕ) (t : Tables)
    → Sets t (if b then set_page page e t else t) (λ p. only_if (b && (p == page)) e)
set_page_if-Sets true page e t = set_page-Sets page e t
set_page_if-Sets false page e t = Sets-none t

pub fill_table-Sets :
    (plain : ℕ → Bool) (pt_idx n : ℕ) (t : Tables)
    → Sets t
        (fill_table plain pt_idx n t)
        (plain_entry plain (pt_idx * page_table_entry_count) (pt_idx * page_table_entry_count + n))
unfolding fill_table
fill_table-Sets plain pt_idx zero t =
    let first : ℕ = pt_idx * page_table_entry_count in
    Sets-ext t t (λ _. none) (plain_entry plain first (first + 0))
      (λ p.
        let w : (leb first p && (ltb p (first + 0) && plain (p * page_size))) ≡ false =
          ground arith in
        rw w refl)
      (Sets-none t)
fill_table-Sets plain pt_idx (suc n) t =
    let first : ℕ = pt_idx * page_table_entry_count in
    let t' : Tables = fill_table plain pt_idx n t in
    let page : ℕ = first + n in
    let e : ℕ = make_entry (page * page_size) base_flags in
    let b : Bool = plain (page * page_size) in
    let t'' : Tables = if b then set_page page e t' else t' in
    Sets-ext t t''
      (λ p. or_else (only_if (b && (p == page)) e) (plain_entry plain first (first + n) p))
      (plain_entry plain first (first + suc n)) (plain_entry-step plain first n)
      (Sets-then t t' t'' (plain_entry plain first (first + n)) (λ p. only_if (b && (p == page)) e)
        (fill_table-Sets plain pt_idx n t) (set_page_if-Sets b page e t'))

plain_entry-join :
    (plain : ℕ → Bool) (middle last p : ℕ)
    → middle ≤ last
    → or_else (plain_entry plain middle last p) (plain_entry plain 0 middle p)
      ≡ plain_entry plain 0 last p
plain_entry-join plain middle last p h = elim (Bool-cases (leb middle p)) [
  | inl y ↦
      let a : ltb p middle ≡ false = ground arith in
      let b : leb 0 p ≡ true = ground arith in
      rw (y, a, b)
        (or_else-none
          (only_if (ltb p last && plain (p * page_size)) (make_entry (p * page_size) base_flags)))
  | inr y ↦
      let a : ltb p middle ≡ true = ground arith in
      let b : ltb p last ≡ true = ground arith in rw (y, a, b) refl
]
  where
    or_else-none : (o : Option ℕ) → or_else o none ≡ o
    or_else-none none = refl
    or_else-none (some x) = refl

pub fill_tables-Sets :
    (plain : ℕ → Bool) (n : ℕ) (t : Tables)
    → Sets t (fill_tables plain n t) (plain_entry plain 0 (n * page_table_entry_count))
unfolding fill_tables
fill_tables-Sets plain zero t =
    Sets-ext t t (λ _. none) (plain_entry plain 0 0)
      (λ p.
        let w : (leb 0 p && (ltb p 0 && plain (p * page_size))) ≡ false = ground arith in rw w refl)
      (Sets-none t)
fill_tables-Sets plain (suc n) t =
    let middle : ℕ = n * page_table_entry_count in
    let last : ℕ = middle + page_table_entry_count in
    let t' : Tables = fill_tables plain n t in
    let t'' : Tables = fill_table plain n page_table_entry_count t' in
    let z : last ≡ suc n * page_table_entry_count = omega arith in
    Sets-ext t t'' (λ p. or_else (plain_entry plain middle last p) (plain_entry plain 0 middle p))
      (plain_entry plain 0 (suc n * page_table_entry_count))
      (λ p.
        plain_entry-join plain middle last p (omega arith) ∙ ap (λ x. plain_entry plain 0 x p) z)
      (Sets-then t t' t'' (plain_entry plain 0 middle) (plain_entry plain middle last)
        (fill_tables-Sets plain n t) (fill_table-Sets plain n page_table_entry_count t'))

-- The guard page loses its entry.
pub guard_lem :
    (v : ℕ) (t : Tables)
    → kernel_virtual_base ≤ v
    → v < kernel_virtual_base + pt_count * 2 ^ 21
    → (t' : Tables) × (guard (some v) t ≡ (t', ok tt))
      × Sets t t' (λ p.
        only_if (p == (v - kernel_virtual_base) / 2 ^ 12) (make_entry (v - kernel_virtual_base) 0))
unfolding guard
guard_lem v t h l =
    let g : ℕ = v - kernel_virtual_base in
    let page : ℕ = g / 2 ^ 12 in
    let a : leb pt_count (page / page_table_entry_count) ≡ false = ground arith in
    let b : leb page_table_entry_count (page % page_table_entry_count) ≡ false = ground arith in
    (
      set_page page (make_entry g 0) t,
      rw (virt_to_phys_lem v h) (rw (a, b) refl),
      set_page-Sets page (make_entry g 0) t,
    )

-- A section gets an entry for each of its pages.
abbrev pub section_entry : ℕ → ℕ → ℕ → ℕ → Option ℕ
section_entry start end flags p =
    only_if (within (start / 2 ^ 12) ((end - start + page_size - 1) / page_size) p)
      (make_entry (p * 2 ^ 12) flags)

pub map_section_lem :
    (start end flags : ℕ) (t : Tables)
    → start % 2 ^ 12 ≡ 0
    → start ≤ end
    → end ≤ pt_count * 2 ^ 21
    → (t' : Tables) × (map_section start end flags t ≡ (t', ok tt))
      × Sets t t' (section_entry start end flags)
unfolding map_section
map_section_lem start end flags t a l h =
    let n : ℕ = (end - start + page_size - 1) / page_size in
    let (t', r, k, e) = map_pages_lem panic n 0 start flags t a (omega arith) in
    let z : start / 2 ^ 12 + 0 ≡ start / 2 ^ 12 = omega arith in
    (
      t',
      r,
      record {
        others = k;
        entries = λ p.
            e p
            ∙ ap (λ x. if within x n p then make_entry (p * 2 ^ 12) flags else page_entry t p) z
            ∙ override-only_if (within (start / 2 ^ 12) n p) (make_entry (p * 2 ^ 12) flags)
                (page_entry t p);
      },
    )
