-- ===== src/Allocator/Buddy/Links.antt =====
-- The doubly linked free lists of the buddy allocator, as functions from an address to its links, with the
-- set of the blocks that they hold.
use vitr_os.Base.{
  ℕ, ◌≡◌, ◌≢◌, refl, sym, ap, ◌∙◌, ◌⊎◌, inl, inr, Bool, true, false, false≢true, Bool-cases, ◌&&◌,
  Option, none, some, ◌==◌, ==_iff, if◌then◌else◌, arith,
}
use vitr_os.Allocator.Buddy.{update}

-- The blocks by order and address.
abbrev pub Blocks : Type 0
Blocks = ℕ → ℕ → Bool

abbrev pub mark : ℕ → ℕ → Bool → Blocks → Blocks
mark o a v g o' x = if o' == o && x == a then v else g o' x

abbrev pub points : Option ℕ → ℕ → Bool
points none x = false
points (some a) x = x == a

-- Every block of the set has its place in the list of its order.
pub record IsLinked (heads : ℕ → Option ℕ) (next prev : ℕ → Option ℕ) (g : Blocks) : Type 0 where
  pub head : (o a : ℕ) → heads o ≡ some a → (g o a ≡ true) × (prev a ≡ none)
  pub first : (o a : ℕ) → g o a ≡ true → prev a ≡ none → heads o ≡ some a
  pub before : (o a b : ℕ) → g o a ≡ true → prev a ≡ some b → (g o b ≡ true) × (next b ≡ some a)
  pub after : (o a b : ℕ) → g o a ≡ true → next a ≡ some b → (g o b ≡ true) × (prev b ≡ some a)
  pub once : (o o' a : ℕ) → g o a ≡ true → g o' a ≡ true → o ≡ o'

-- A block is the new one, or one of those before.
pub mark-cases :
    (o a o' x : ℕ) (g : Blocks) → mark o a true g o' x ≡ true → (o' ≡ o) × (x ≡ a) ⊎ (g o' x ≡ true)
mark-cases o a o' x g h = ground (arith, h)

pub mark-old : (o a o' x : ℕ) (g : Blocks) → g o' x ≡ true → mark o a true g o' x ≡ true
mark-old o a o' x g h = ground (arith, h)

pub mark-new : (o a : ℕ) (g : Blocks) → mark o a true g o a ≡ true
mark-new o a g = ground arith

pub mark-cleared :
    (o a o' x : ℕ) (g : Blocks)
    → mark o a false g o' x ≡ true
    → ((o' ≡ o) × (x ≡ a) → ⊥) × (g o' x ≡ true)
mark-cleared o a o' x g h = ((λ e. false≢true (ground (arith, h, e.0, e.1))), ground (arith, h))

pub mark-kept :
    (o a o' x : ℕ) (g : Blocks)
    → ((o' ≡ o) × (x ≡ a) → ⊥)
    → g o' x ≡ true
    → mark o a false g o' x ≡ true
mark-kept o a o' x g n h = elim (Bool-cases (o' == o)) [
  | inr e ↦ rw e h
  | inl e ↦ elim (Bool-cases (x == a)) [
    | inr f ↦ rw e (rw f h)
    | inl f ↦ absurd (n ((==_iff o' o).0 e, (==_iff x a).0 f))
  ]
]

-- A block that is not in the set stays out of it.
pub mark-out :
    (o a o' x : ℕ) (v : Bool) (g : Blocks) → x ≢ a → g o' x ≡ false → mark o a v g o' x ≡ false
mark-out o a o' x v g n h = ground (arith, n, h)

pub mark-still_out : (o a o' x : ℕ) (g : Blocks) → g o' x ≡ false → mark o a false g o' x ≡ false
mark-still_out o a o' x g h = ground (arith, h)

pub mark-gone : (o a : ℕ) (g : Blocks) → mark o a false g o a ≡ false
mark-gone o a g = ground arith

pub points→some : (m : Option ℕ) (x : ℕ) → points m x ≡ true → m ≡ some x
points→some none x h = absurd (false≢true h)
points→some (some a) x h = ap some (sym ((==_iff x a).0 h))

pub points-some : (x : ℕ) → points (some x) x ≡ true
points-some x = ground arith

pub some_inj : (a b : ℕ) → ◌≡◌ {A = Option ℕ} (some a) (some b) → a ≡ b
some_inj a b h = cc

pub none≢some : (a : ℕ) → ◌≡◌ {A = Option ℕ} none (some a) → ⊥
none≢some a h = cc

module _ (heads : ℕ → Option ℕ) (next prev : ℕ → Option ℕ) (g : Blocks)
    (links : IsLinked heads next prev g) (o a : ℕ) where
  abbrev pub added_prev : ℕ → Option ℕ
  added_prev x = if points (heads o) x then some a else if x == a then none else prev x

  abbrev pub added_next : ℕ → Option ℕ
  added_next x = if x == a then heads o else next x

  module _ (fresh : (o' : ℕ) → g o' a ≡ false) where
    not_new : (o' x : ℕ) → g o' x ≡ true → x ≢ a
    not_new o' x h e = false≢true (sym (fresh o') ∙ ap (g o') (sym e) ∙ h)

    next_old : (o' x : ℕ) → g o' x ≡ true → added_next x ≡ next x
    next_old o' x h = let e : (x == a) ≡ false = ground (arith, not_new o' x h) in rw e refl

    next_new : added_next a ≡ heads o
    next_new = let e : (a == a) ≡ true = ground arith in rw e refl

    prev_old : (o' x : ℕ) → g o' x ≡ true → points (heads o) x ≡ false → added_prev x ≡ prev x
    prev_old o' x h f =
        let e : (x == a) ≡ false = ground (arith, not_new o' x h) in rw f (rw e refl)

    prev_head : (x : ℕ) → points (heads o) x ≡ true → added_prev x ≡ some a
    prev_head x f = rw f refl

    prev_new : added_prev a ≡ none
    prev_new = elim (Bool-cases (points (heads o) a)) [
      | inl f ↦ absurd (not_new o a (links.head o a (points→some (heads o) a f)).0 refl)
      | inr f ↦ let e : (a == a) ≡ true = ground arith in rw f (rw e refl)
    ]

    -- The old head, which has no predecessor, is on no other list.
    not_head : (o' x : ℕ) → heads o' ≡ some x → o' ≢ o → points (heads o) x ≡ false
    not_head o' x e n = elim (Bool-cases (points (heads o) x)) [
      | inr f ↦ f
      | inl f ↦ absurd (
          n (
            links.once o' o x (links.head o' x e).0 (links.head o x (points→some (heads o) x f)).0))
    ]

    add_head :
        (o' x : ℕ)
        → update o (some a) heads o' ≡ some x
        → (mark o a true g o' x ≡ true) × (added_prev x ≡ none)
    add_head o' x h = elim (Bool-cases (o' == o)) [
      | inl e ↦
          let q : x ≡ a = sym (some_inj a x (rw e at h)) in
          rw ((==_iff o' o).0 e) (rw q (mark-new o a g, prev_new))
      | inr e ↦
          let k : heads o' ≡ some x = rw e at h in
          let (m, p) = links.head o' x k in
          (
            mark-old o a o' x g m,
            prev_old o' x m (not_head o' x k (λ q. false≢true (ground (arith, q)))) ∙ p,
          )
    ]

    add_first :
        (o' x : ℕ)
        → mark o a true g o' x ≡ true
        → added_prev x ≡ none
        → update o (some a) heads o' ≡ some x
    add_first o' x h p = elim (mark-cases o a o' x g h) [
      | inl (e, f) ↦ rw e (rw f (let q : (o == o) ≡ true = ground arith in rw q refl))
      | inr m ↦ elim (Bool-cases (points (heads o) x)) [
        | inl f ↦ absurd (none≢some a (sym p ∙ prev_head x f))
        | inr f ↦
            let k = links.first o' x m (sym (prev_old o' x m f) ∙ p) in
            elim (Bool-cases (o' == o)) [
              | inr e ↦ rw e k
              | inl e ↦ absurd (
                  false≢true (
                    sym f
                    ∙ ap (λ y. points (heads y) x) (sym ((==_iff o' o).0 e))
                    ∙ ap (λ y. points y x) k
                    ∙ points-some x))
            ]
      ]
    ]

    add_before :
        (o' x b : ℕ)
        → mark o a true g o' x ≡ true
        → added_prev x ≡ some b
        → (mark o a true g o' b ≡ true) × (added_next b ≡ some x)
    add_before o' x b h p = elim (mark-cases o a o' x g h) [
      | inl (e, f) ↦ absurd (none≢some b (sym prev_new ∙ ap added_prev (sym f) ∙ p))
      | inr m ↦ elim (Bool-cases (points (heads o) x)) [
        | inl f ↦
            let k = points→some (heads o) x f in
            let q : b ≡ a = sym (some_inj a b (sym (prev_head x f) ∙ p)) in
            let w : o' ≡ o = links.once o' o x m (links.head o x k).0 in
            rw q (rw w (mark-new o a g, next_new ∙ k))
        | inr f ↦
            let (n, k) = links.before o' x b m (sym (prev_old o' x m f) ∙ p) in
            (mark-old o a o' b g n, next_old o' b n ∙ k)
      ]
    ]

    add_after :
        (o' x b : ℕ)
        → mark o a true g o' x ≡ true
        → added_next x ≡ some b
        → (mark o a true g o' b ≡ true) × (added_prev b ≡ some x)
    add_after o' x b h p = elim (mark-cases o a o' x g h) [
      | inl (e, f) ↦
          let k : heads o ≡ some b = sym next_new ∙ ap added_next (sym f) ∙ p in
          rw e (
            rw f (
              mark-old o a o b g (links.head o b k).0,
              prev_head b (ap (λ y. points y b) k ∙ points-some b),
            ))
      | inr m ↦
          let (n, k) = links.after o' x b m (sym (next_old o' x m) ∙ p) in
          (
            mark-old o a o' b g n,
            elim (Bool-cases (points (heads o) b)) [
              | inr f ↦ prev_old o' b n f ∙ k
              | inl f ↦
                  absurd (none≢some x (sym (links.head o b (points→some (heads o) b f)).1 ∙ k))
            ],
          )
    ]

    -- A block that is on no list is put at the head of one.
    pub add-IsLinked : IsLinked (update o (some a) heads) added_next added_prev (mark o a true g)
    add-IsLinked = record {
      head = add_head;
      first = add_first;
      before = add_before;
      after = add_after;
      once = λ p q x h k. elim (mark-cases o a p x g h) [
        | inl (e, f) ↦ elim (mark-cases o a q x g k) [
          | inl (e', f') ↦ e ∙ sym e'
          | inr m ↦ absurd (not_new q x m f)
        ]
        | inr m ↦ elim (mark-cases o a q x g k) [
          | inl (e', f') ↦ absurd (not_new p x m f')
          | inr n ↦ links.once p q x m n
        ]
      ];
    }
