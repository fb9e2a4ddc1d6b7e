-- ===== src/Allocator/Buddy/Start.antt =====
-- `init` of the buddy allocator: it divides the region into free blocks.
use vitr_os.Base.{
  ℕ, zero, suc, ◌+◌, ◌-◌, ◌*◌, ◌/◌, ◌%◌, ◌^◌, ◌≤◌, ◌<◌, ◌≡◌, refl, ap, ◌∙◌, inl, inr, true, false,
  false≢true, Bool-cases, Option, none, some, arith, ltb, leb, ◌==◌, if◌then◌else◌,
}
use vitr_os.Base.Bits.{bit_and-field}
use vitr_os.Allocator.Size.{
  max_order, min_block_size, min_block_size_log2, order_to_size, order_to_size-pow, shift-pow,
  trailing_zeros, max_order_for_size, bit_length, bit_length-least, align_up, align_down,
}
use vitr_os.Allocator.Buddy.{Buddy, new, init, init_order, init_blocks, add_to_free_list}
use vitr_os.Allocator.Buddy.Links.{Blocks, mark, mark-cases, mark-old, mark-new, none≢some}
use vitr_os.Allocator.Buddy.Blocks.{IsRegion, IsBlock, order_to_size-bounds}
use vitr_os.Allocator.Buddy.Packing.{no_blocks, no_blocks-IsPacking, insert-IsPacking}
use vitr_os.Allocator.Buddy.Sound.{IsSound}
use vitr_os.Allocator.Buddy.Cuts.{not_free}
use vitr_os.Allocator.Buddy.Moves.{add_to_free_list-Gives}

double_power : (q k : ℕ) → q * 2 ^ suc k ≡ 2 * (q * 2 ^ k)
double_power q k = let e : 2 ^ suc k ≡ 2 * 2 ^ k = omega arith in grind (arith, e)

-- A number is a multiple of the powers of two up to that of its trailing zeros.
trailing_zeros-multiple : (n x k : ℕ) → k ≤ trailing_zeros n x → (q : ℕ) × (x ≡ q * 2 ^ k)
unfolding trailing_zeros
trailing_zeros-multiple n x zero h = (x, omega arith)
trailing_zeros-multiple zero x (suc k) h = absurd (omega arith)
trailing_zeros-multiple (suc n) x (suc k) h = elim (Bool-cases (x % 2 == 1)) [
  | inl e ↦ absurd (ground arith)
  | inr e ↦
      let (q, m) = trailing_zeros-multiple n (x / 2) k (ground arith) in
      let z : x % 2 ≡ 0 = ground arith in (q, omega (arith, m, z, double_power q k))
]

max_order_for_size-large :
    (n : ℕ) → 4096 ≤ n → max_order_for_size n ≡ bit_length 64 n - 1 - min_block_size_log2
unfolding max_order_for_size
max_order_for_size-large n h = let e : ltb n min_block_size ≡ false = ground (arith, h) in rw e refl

size_fits : (o n : ℕ) → o ≤ max_order_for_size n → 4096 ≤ n → o < max_order → order_to_size o ≤ n
size_fits o n h l b = elim (Bool-cases (ltb n (2 ^ (12 + o)))) [
  | inr e ↦ rw (order_to_size-pow o b) (ground (arith, e))
  | inl e ↦
      let m = bit_length-least 64 n (12 + o) (ground (arith, e)) in
      let z : o ≡ 0 = omega (arith, h, m, max_order_for_size-large n l) in rw z (omega (arith, l))
]

align_order : ℕ → ℕ
align_order relative =
    if relative == 0 then max_order - 1 else trailing_zeros 64 relative - min_block_size_log2

-- The distance of a block from the start of the region is a multiple of its size.
align_order-multiple :
    (o relative m : ℕ)
    → relative ≡ m * 4096
    → o ≤ align_order relative
    → o < max_order
    → (k : ℕ) × (relative ≡ k * order_to_size o)
unfolding align_order
align_order-multiple o relative m e h b = elim (Bool-cases (relative == 0)) [
  | inl z ↦ (0, ground (arith, z))
  | inr z ↦ elim (Bool-cases (leb (12 + o) (trailing_zeros 64 relative))) [
    | inl l ↦
        let (q, w) = trailing_zeros-multiple 64 relative (12 + o) (ground (arith, l)) in
        (q, rw (order_to_size-pow o b) w)
    | inr l ↦ let y : o ≡ 0 = ground (arith, z, l, h) in (m, rw y e)
  ]
]

module _ (start current remaining : ℕ) (aligned : (m : ℕ) × (current ≡ start + m * 4096))
    (large : 4096 ≤ remaining) where
  init_order-small : init_order start current remaining < max_order
  unfolding init_order
  init_order-small = omega arith

  init_order-fits : order_to_size (init_order start current remaining) ≤ remaining
  unfolding init_order
  init_order-fits =
      size_fits (init_order start current remaining) remaining (omega arith) large init_order-small

  init_order-aligned : init_order start current remaining ≤ align_order (current - start)
  unfolding init_order align_order
  init_order-aligned = omega arith

  init_order-multiple :
      (k : ℕ) × (current ≡ start + k * order_to_size (init_order start current remaining))
  init_order-multiple =
      let (m, e) = aligned in
      let (k, q) =
        align_order-multiple (init_order start current remaining) (current - start) m
          (omega (arith, e)) init_order-aligned init_order-small in
      (k, omega (arith, q, e))

-- The blocks end before `current`.
AreBelow : Blocks → ℕ → Type 0
AreBelow u current = (o a : ℕ) → u o a ≡ true → a + order_to_size o ≤ current

-- The blocks and the rest make up the region.
record IsProgress (start size : ℕ) (s : Buddy) (u g : Blocks) (current remaining : ℕ) : Type 0 where
  sound : IsSound start size s u g
  below : AreBelow u current
  aligned : (m : ℕ) × (current ≡ start + m * 4096)
  total : current + remaining ≡ start + size

sizes : (o : ℕ) → o < max_order → (k : ℕ) × (order_to_size o ≡ k * 4096)
sizes o h = (2 ^ o, omega (arith, order_to_size-pow o h, shift-pow o, order_to_size-bounds o h))

module _ (start size current remaining : ℕ) (s : Buddy) (u g : Blocks)
    (here : IsProgress start size s u g current remaining) (large : 4096 ≤ remaining) where
  -- The next block is added as a free one.
  init_once :
      let o = init_order start current remaining in
      (s' : Buddy) × (u' : Blocks) × (g' : Blocks) × (add_to_free_list current o s ≡ some s')
      × IsProgress start size s' u' g' (current + order_to_size o) (remaining - order_to_size o)
  unfolding AreBelow
  init_once =
      let o = init_order start current remaining in
      let small = init_order-small start current remaining here.aligned large in
      let fit = init_order-fits start current remaining here.aligned large in
      let (k, at) = init_order-multiple start current remaining here.aligned large in
      let n = (order_to_size-bounds o small).0 in
      let block : IsBlock start size o current = record {
        index = k;
        at_index = at;
        small = small;
        fits = omega (arith, at, fit, here.total);
      } in
      let sound : IsSound start size s (mark o current true u) g = record {
        at_start = here.sound.at_start;
        at_size = here.sound.at_size;
        region = here.sound.region;
        packing =
            insert-IsPacking start size u here.sound.packing o current block
              (λ p x h. inr (here.below p x h));
        linked = here.sound.linked;
        bits = here.sound.bits;
        free = λ p x h. mark-old o current p x u (here.sound.free p x h);
      } in
      let out : g o current ≡ false =
        not_free (g o current)
          (λ h. omega (arith, here.below o current (here.sound.free o current h), n)) in
      let (s', e, w) =
        add_to_free_list-Gives start size s (mark o current true u) g sound o current
          (mark-new o current u) out in
      let (m, q) = here.aligned in
      let (j, r) = sizes o small in
      (
        s',
        mark o current true u,
        mark o current true g,
        e,
        record {
          sound = w;
          below = λ p x h. elim (mark-cases o current p x u h) [
            | inl (y, z) ↦ rw y (rw z (omega arith))
            | inr y ↦ omega (arith, here.below p x y)
          ];
          aligned = (m + j, grind (arith, q, r));
          total = omega (arith, here.total, fit);
        },
      )

-- A round of the loop of `init`.
init_blocks-step :
    (fuel current remaining o : ℕ) (s t : Buddy)
    → ltb remaining min_block_size ≡ false
    → init_order s.region_start current remaining ≡ o
    → add_to_free_list current o s ≡ some t
    → init_blocks (suc fuel) current remaining s
      ≡ init_blocks fuel (current + order_to_size o) (remaining - order_to_size o) t
unfolding init_blocks
init_blocks-step fuel current remaining o s t e i q =
    let next : ℕ → Option Buddy → Option Buddy = λ p r. elim r [
      | none ↦ none
      | some x ↦ init_blocks fuel (current + order_to_size p) (remaining - order_to_size p) x
    ] in
    let p = init_order s.region_start current remaining in
    ap (λ b. if b then some s else next p (add_to_free_list current p s)) e
    ∙ ap (λ p. next p (add_to_free_list current p s)) i
    ∙ ap (next o) q

-- The loop of `init` ends with the whole region on the lists.
init_blocks-IsSound :
    (fuel start size current remaining : ℕ) (s : Buddy) (u g : Blocks)
    → IsProgress start size s u g current remaining
    → remaining < fuel * 4096
    → (s' : Buddy) × (u' : Blocks) × (g' : Blocks) × (init_blocks fuel current remaining s
        ≡ some s')
      × IsSound start size s' u' g'
unfolding init_blocks
init_blocks-IsSound zero start size current remaining s u g here enough =
    absurd (omega (arith, enough))
init_blocks-IsSound (suc fuel) start size current remaining s u g here enough =
    elim (Bool-cases (ltb remaining min_block_size)) [
      | inl e ↦ (s, u, g, rw (e, init_blocks) refl, here.sound)
      | inr e ↦
          let large : 4096 ≤ remaining = ground (arith, e) in
          let o = init_order start current remaining in
          let n =
            (order_to_size-bounds o
              (init_order-small start current remaining here.aligned large)).0 in
          let (t, u1, g1, q, next) = init_once start size current remaining s u g here large in
          let (s', u', g', r, w) =
            init_blocks-IsSound fuel start size (current + order_to_size o)
              (remaining - order_to_size o) t u1 g1 next (omega (arith, enough, n, large)) in
          (
            s',
            u',
            g',
            init_blocks-step fuel current remaining o s t e
                  (ap (λ x. init_order x current remaining) here.sound.at_start) q
                ∙ r,
            w,
          )
    ]

pub align_down-page : (a : ℕ) → a < 2 ^ 64 → align_down a min_block_size ≡ a / 4096 * 4096
unfolding align_down
align_down-page a h = omega (arith, h, bit_and-field 12 52 a)

pub align_up-page :
    (a : ℕ) → a + 4096 ≤ 2 ^ 64 → align_up a min_block_size ≡ (a + 4095) / 4096 * 4096
unfolding align_up
align_up-page a h = omega (arith, h, bit_and-field 12 52 ((a + 4096 + 2 ^ 64 - 1) % 2 ^ 64))

-- No block, and nothing free.
empty_IsSound :
    (start size : ℕ)
    → IsRegion start size
    → IsSound start size
        (record new { region_start = start; region_size = size })
        no_blocks
        no_blocks
empty_IsSound start size region = record {
  at_start = refl;
  at_size = refl;
  region = region;
  packing = no_blocks-IsPacking start size;
  linked = record {
    head = λ o a h. absurd (none≢some a h);
    first = λ o a h p. absurd (false≢true h);
    before = λ o a b h p. absurd (false≢true h);
    after = λ o a b h p. absurd (false≢true h);
    once = λ o p a h k. absurd (false≢true h);
  };
  bits = λ o a q. refl;
  free = λ o a h. h;
}

no_blocks-AreBelow : (current : ℕ) → AreBelow no_blocks current
unfolding AreBelow
no_blocks-AreBelow current o a h = absurd (false≢true h)

-- The loop of `init` on the pages of a region from `first` to the one that `end` is in.
abbrev init_pages : ℕ → ℕ → Buddy → Option Buddy
init_pages first end s =
    let n = align_down end min_block_size - first in
    init_blocks (suc (n / min_block_size)) first n
      (record s { region_start = first; region_size = n })

init-pages :
    (start size : ℕ) (s : Buddy)
    → init start size s ≡ init_pages (align_up start min_block_size) ((start + size) % 2 ^ 64) s
unfolding init
init-pages start size s = refl

-- `init` succeeds on a region that ends below the last page, and its blocks make the state sound.
pub init-IsSound :
    (start size : ℕ)
    → 0 < start
    → start + size + 4096 ≤ 2 ^ 64
    → size ≤ 2 ^ 30
    → (s : Buddy) × (u : Blocks) × (g : Blocks) × (init start size new ≡ some s)
      × IsSound
          (align_up start min_block_size)
          (align_down (start + size) min_block_size - align_up start min_block_size)
          s
          u
          g
init-IsSound start size p h l =
    let first = align_up start min_block_size in
    let n = align_down (start + size) min_block_size - first in
    let up = align_up-page start (omega (arith, h)) in
    let down = align_down-page (start + size) (omega (arith, h)) in
    let wrap : (start + size) % 2 ^ 64 ≡ start + size = omega (arith, h) in
    let region : IsRegion first n = record {
      positive = omega (arith, up, p);
      inside = omega (arith, up, down, h);
      limit = omega (arith, up, down, l);
    } in
    let here : IsProgress first n (record new { region_start = first; region_size = n }) no_blocks
        no_blocks first n =
      record {
        sound = empty_IsSound first n region;
        below = no_blocks-AreBelow first;
        aligned = (0, omega arith);
        total = refl;
      } in
    let (s, u, g, e, k) =
      init_blocks-IsSound (suc (n / min_block_size)) first n first n
        (record new { region_start = first; region_size = n }) no_blocks no_blocks here
        (omega arith) in
    (s, u, g, init-pages start size new ∙ ap (λ t. init_pages first t new) wrap ∙ e, k)
