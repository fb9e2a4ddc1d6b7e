-- ===== src/Pci/Capabilities.antt =====
-- The walk over the capabilities of a device.
use Prim.Native.Nat.{bit_and}
use vitr_os.Base.{
  ℕ, zero, suc, ◌/◌, ◌^◌, ◌≤◌, ◌<◌, ◌≡◌, ◌≢◌, refl, ap, ◌∙◌, ◌⊎◌, inl, inr, false≢true, Option,
  none, some, ◌==◌, ==_iff, Bool-cases, arith,
}
use vitr_os.Pci.{
  Pci, Location, read_u16, read_u8, follow, find_capability, pci_status, pci_status_cap_list,
  pci_cap_pointer,
}

-- The identifier of the capability at a pointer, and the pointer to the next one.
abbrev pub id_at : Location → Pci → ℕ → ℕ
id_at l p ptr = bit_and (read_u16 l ptr p) 0xFF

abbrev pub next_of : Location → Pci → ℕ → ℕ
next_of l p ptr = bit_and (read_u16 l ptr p / 2 ^ 8) 0xFC

-- The pointer after `i` steps.
abbrev pub pointer : Location → Pci → ℕ → ℕ → ℕ
pointer l p start zero = start
pointer l p start (suc i) = pointer l p (next_of l p start) i

-- The first `m` capabilities exist and have other identifiers.
abbrev pub Passed : Location → Pci → ℕ → ℕ → ℕ → Type 0
Passed l p cap_id start m =
    (j : ℕ) → j < m → (pointer l p start j ≢ 0) × (id_at l p (pointer l p start j) ≢ cap_id)

-- The walk stops after `m` of `n` steps: at the capability, at the end of the list, or out of steps.
abbrev pub Stops : Location → Pci → ℕ → ℕ → ℕ → ℕ → Option ℕ → Type 0
Stops l p cap_id start m n found =
    (m < n)
      × (pointer l p start m ≢ 0)
      × (id_at l p (pointer l p start m) ≡ cap_id)
      × (found ≡ some (pointer l p start m))
    ⊎ (m ≤ n) × ((m ≡ n) ⊎ (pointer l p start m ≡ 0)) × (found ≡ none)

follow_lem :
    (n : ℕ) (l : Location) (cap_id start : ℕ) (p : Pci)
    → (m : ℕ) × Passed l p cap_id start m × Stops l p cap_id start m n (follow n l cap_id start p)
unfolding follow
follow_lem zero l cap_id start p =
    (0, (λ j h. absurd (omega arith)), inr (omega arith, inl refl, refl))
follow_lem (suc n) l cap_id start p = elim (Bool-cases (start == 0)) [
  | inl e ↦ (
    0,
    (λ j h. absurd (omega arith)),
    inr (omega arith, inr ((==_iff start 0).0 e), rw (e, follow) refl),
  )
  | inr e ↦
      let z : start ≢ 0 = λ q. false≢true (ground (arith, q)) in
      elim (Bool-cases (id_at l p start == cap_id)) [
        | inl y ↦ (
          0,
          (λ j h. absurd (omega arith)),
          inl (omega arith, z, (==_iff (id_at l p start) cap_id).0 y, rw (e, follow) (rw y refl)),
        )
        | inr y ↦
            let ne : id_at l p start ≢ cap_id = λ q. false≢true (ground (arith, q)) in
            let (m, passed, stops) = follow_lem n l cap_id (next_of l p start) p in
            let r : follow (suc n) l cap_id start p ≡ follow n l cap_id (next_of l p start) p =
              rw (e, follow) (rw y refl) in
            (
              suc m,
              later m z ne passed,
              elim stops [
                | inl (a, b, c, d) ↦ inl (omega arith, b, c, r ∙ d)
                | inr (a, inl b, d) ↦ inr (omega arith, inl (ap suc b), r ∙ d)
                | inr (a, inr b, d) ↦ inr (omega arith, inr b, r ∙ d)
              ],
            )
      ]
]
  where
    later :
        (m : ℕ)
        → start ≢ 0
        → id_at l p start ≢ cap_id
        → Passed l p cap_id (next_of l p start) m
        → Passed l p cap_id start (suc m)
    later m z ne h zero k = (z, ne)
    later m z ne h (suc j) k = h j (omega arith)

-- The pointer to the first capability.
abbrev pub first_pointer : Location → Pci → ℕ
first_pointer l p = bit_and (read_u8 l pci_cap_pointer p) 0xFC

-- `find_capability` returns none if the device has no list. Otherwise it returns the first entry of
-- the list with the identifier, and none if the list ends, or goes on past 48 entries, without one.
pub find_capability_lem :
    (l : Location) (cap_id : ℕ) (p : Pci)
    → (bit_and (read_u16 l pci_status p) pci_status_cap_list ≡ 0)
        × (find_capability l cap_id p ≡ none)
      ⊎ (bit_and (read_u16 l pci_status p) pci_status_cap_list ≢ 0)
        × ((m : ℕ) × Passed l p cap_id (first_pointer l p) m
            × Stops l p cap_id (first_pointer l p) m 48 (find_capability l cap_id p))
unfolding find_capability
find_capability_lem l cap_id p =
    let status : ℕ = bit_and (read_u16 l pci_status p) pci_status_cap_list in
    elim (Bool-cases (status == 0)) [
      | inl e ↦ inl ((==_iff status 0).0 e, rw e refl)
      | inr e ↦ inr (
        (λ q. false≢true (ground (arith, q))),
        rw e (follow_lem 48 l cap_id (first_pointer l p) p),
      )
    ]
