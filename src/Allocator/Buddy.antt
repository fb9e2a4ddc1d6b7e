-- ===== src/Allocator/Buddy.antt =====
-- `BuddyAllocator` of `kernel/src/allocator.rs`. `nodes` is the memory where the free blocks keep
-- their links. An index out of the bounds of a bit map, or an order out of the arrays, panics: `none`.
pub mod Bits
pub mod Fit
pub mod Links
pub mod Unlinks
pub mod Blocks
pub mod Packing
pub mod Sound
pub mod Moves
pub mod Cuts
pub mod Joins
pub mod Start
pub mod Safety
pub mod Tests
use Prim.Native.Nat.{bit_xor}
use vitr_os.Base.{
  ℕ, zero, suc, ◌+◌, ◌-◌, ◌/◌, ◌%◌, ◌^◌, min, max, Bool, true, false, ◌&&◌, ◌||◌, Option, none,
  some, ltb, leb, ◌==◌, if◌then◌else◌,
}
use vitr_os.Allocator.Size.{
  min_block_size, min_block_size_log2, max_order, max_bitmap_words, order_to_size, size_to_order,
  max_order_for_size, trailing_zeros, align_up, align_down,
}

pub record Node : Type 0 where
  pub next : Option ℕ
  pub prev : Option ℕ

-- The bit maps by order, word and bit.
pub record Buddy : Type 0 where
  pub free_lists : ℕ → Option ℕ
  pub region_start : ℕ
  pub region_size : ℕ
  pub free_bitmaps : ℕ → ℕ → ℕ → Bool
  pub nodes : ℕ → Node

-- The size and the alignment.
pub record Layout : Type 0 where
  pub size : ℕ
  pub align : ℕ

abbrev no_links : Node
no_links = record { next = none; prev = none }

-- `BuddyAllocator::new`.
abbrev pub new : Buddy
new = record {
  free_lists = λ _. none;
  region_start = 0;
  region_size = 0;
  free_bitmaps = λ _ _ _. false;
  nodes = λ _. no_links;
}

-- `NonNull::new`.
abbrev pub non_null : ℕ → Option ℕ
non_null a = if a == 0 then none else some a

abbrev pub relative_to : ℕ → ℕ → ℕ
relative_to start addr = (addr + 2 ^ 64 - start) % 2 ^ 64

abbrev pub buddy_address : ℕ → ℕ → Buddy → ℕ
buddy_address addr order s =
    (s.region_start + bit_xor (relative_to s.region_start addr) (order_to_size order)) % 2 ^ 64

abbrev pub addr_to_bit_index : ℕ → ℕ → Buddy → ℕ
addr_to_bit_index addr order s = relative_to s.region_start addr / 2 ^ (min_block_size_log2 + order)

abbrev pub in_bitmap : ℕ → ℕ → Bool
in_bitmap index order = ltb (index / 64) max_bitmap_words && ltb order max_order

abbrev pub update {ℓ} : {A : Type ℓ} → ℕ → A → (ℕ → A) → ℕ → A
update i a f j = if j == i then a else f j

-- A write to the bit of a block.
unfoldable pub set_bit : Bool → ℕ → ℕ → Buddy → Option Buddy
set_bit b addr order s =
    let index = addr_to_bit_index addr order s in
    let words = s.free_bitmaps order in
    if in_bitmap index order
    then some (record s {
      free_bitmaps =
          update order (update (index / 64) (update (index % 64) b (words (index / 64))) words)
            s.free_bitmaps;
    })
    else none

abbrev pub mark_free : ℕ → ℕ → Buddy → Option Buddy
mark_free = set_bit true

abbrev pub unmark_free : ℕ → ℕ → Buddy → Option Buddy
unmark_free = set_bit false

unfoldable pub is_free : ℕ → ℕ → Buddy → Option Bool
is_free addr order s =
    let index = addr_to_bit_index addr order s in
    if in_bitmap index order then some (s.free_bitmaps order (index / 64) (index % 64)) else none

abbrev pub set_head : ℕ → Option ℕ → Buddy → Buddy
set_head order head s = record s { free_lists = update order head s.free_lists }

abbrev pub set_node : ℕ → Node → Buddy → Buddy
set_node a node s = record s { nodes = update a node s.nodes }

-- The same for the node that a link points to, if any.
abbrev pub set_prev : Option ℕ → Option ℕ → Buddy → Buddy
set_prev none p s = s
set_prev (some a) p s = set_node a (record { next = (s.nodes a).next; prev = p }) s

abbrev pub set_next : Option ℕ → Option ℕ → Buddy → Buddy
set_next none n s = s
set_next (some a) n s = set_node a (record { next = n; prev = (s.nodes a).prev }) s

unfoldable pub add_to_free_list : ℕ → ℕ → Buddy → Option Buddy
unfolding set_bit
add_to_free_list addr order s =
    let head = s.free_lists order in
    let s' =
      set_prev head (non_null addr) (set_node addr (record { next = head; prev = none }) s) in
    mark_free addr order (set_head order (non_null addr) s')

-- The block, which is none for an empty list.
unfoldable pub remove_from_free_list : ℕ → Buddy → Option (Buddy × Option ℕ)
unfolding set_bit
remove_from_free_list order s = elim (s.free_lists order) [
  | none ↦ some (s, none)
  | some head ↦
      let next = (s.nodes head).next in
      elim (unmark_free head order (set_head order next (set_prev next none s))) [
        | none ↦ none
        | some s' ↦ some (s', some head)
      ]
]

unfoldable pub skip_node : ℕ → Option ℕ → Option ℕ → Buddy → Buddy
skip_node order none next s = set_head order next s
skip_node order (some p) next s = set_next (some p) next s

-- The node is the first if it has no predecessor.
unfoldable pub remove_node_from_free_list : ℕ → ℕ → Buddy → Option Buddy
unfolding set_bit skip_node
remove_node_from_free_list addr order s =
    let node = s.nodes addr in
    unmark_free addr order (set_prev node.next node.prev (skip_node order node.prev node.next s))

-- The order of the next block that `init` cuts off at `current`.
unfoldable pub init_order : ℕ → ℕ → ℕ → ℕ
unfolding trailing_zeros max_order_for_size
init_order start current remaining =
    let by_size = min (max_order_for_size remaining) (max_order - 1) in
    let relative = current - start in
    let by_align =
      if relative == 0 then max_order - 1 else trailing_zeros 64 relative - min_block_size_log2 in
    min by_size by_align

-- The loop of `init`. A block is never larger than `remaining`. Out of fuel: `none`.
unfoldable pub init_blocks : ℕ → ℕ → ℕ → Buddy → Option Buddy
unfolding add_to_free_list init_order
init_blocks zero current remaining s = none
init_blocks (suc fuel) current remaining s =
    let order = init_order s.region_start current remaining in
    let block = order_to_size order in
    if ltb remaining min_block_size then some s else elim (add_to_free_list current order s) [
      | none ↦ none
      | some s' ↦ init_blocks fuel (current + block) (remaining - block) s'
    ]

-- `BuddyAllocator::init`: each block takes at least `min_block_size` bytes.
unfoldable pub init : ℕ → ℕ → Buddy → Option Buddy
unfolding align_up align_down init_blocks
init region_start region_size s =
    let aligned_start = align_up region_start min_block_size in
    let aligned_end = align_down ((region_start + region_size) % 2 ^ 64) min_block_size in
    let aligned_size = aligned_end - aligned_start in
    init_blocks (suc (aligned_size / min_block_size)) aligned_start aligned_size
      (record s { region_start = aligned_start; region_size = aligned_size })

-- The number of blocks on a list. Out of fuel, as on a cycle: `none`.
count_nodes : ℕ → Option ℕ → Buddy → Option ℕ
count_nodes fuel none s = some 0
count_nodes zero (some a) s = none
count_nodes (suc fuel) (some a) s = elim (count_nodes fuel (s.nodes a).next s) [
  | none ↦ none
  | some n ↦ some (suc n)
]

unfoldable pub count_free_blocks : ℕ → ℕ → Buddy → Option ℕ
unfolding count_nodes
count_free_blocks fuel order s = count_nodes fuel (s.free_lists order) s

-- The orders of `order..order + n` with a free block: the first of them.
unfoldable pub find_order : ℕ → ℕ → Buddy → Option ℕ
find_order zero order s = none
find_order (suc n) order s = elim (s.free_lists order) [
  | some _ ↦ some order
  | none ↦ find_order n (suc order) s
]

-- The upper halves at the orders of `required..required + n`, the largest first.
unfoldable pub split : ℕ → ℕ → ℕ → Buddy → Option Buddy
unfolding add_to_free_list
split zero required block s = some s
split (suc n) required block s =
    let order = required + n in
    elim (add_to_free_list ((block + order_to_size order) % 2 ^ 64) order s) [
      | none ↦ none
      | some s' ↦ split n required block s'
    ]

abbrev pub block_order : Layout → ℕ
block_order l = size_to_order (max (max l.size l.align) min_block_size)

-- From the list of the order `found`.
unfoldable pub allocate_at : ℕ → ℕ → Buddy → Option (Buddy × Option ℕ)
unfolding remove_from_free_list split
allocate_at required found s = elim (remove_from_free_list found s) [
  | none ↦ none
  | some (s', none) ↦ some (s', none)
  | some (s', some block) ↦ elim (split (found - required) required block s') [
    | none ↦ none
    | some s'' ↦ some (s'', some block)
  ]
]

unfoldable pub allocate : Layout → Buddy → Option (Buddy × Option ℕ)
unfolding find_order allocate_at
allocate l s =
    let required = block_order l in
    if leb max_order required
    then some (s, none)
    else elim (find_order (max_order - required) required s) [
      | none ↦ some (s, none)
      | some found ↦ allocate_at required found s
    ]

-- Whether the buddy is in the region and free.
unfoldable pub can_merge : ℕ → ℕ → Buddy → Option Bool
unfolding is_free
can_merge buddy order s =
    if ltb buddy s.region_start || leb ((s.region_start + s.region_size) % 2 ^ 64) buddy
    then some false
    else is_free buddy order s

-- The loop of `deallocate`, with `max_order - 1 - order` rounds at most.
unfoldable pub merge : ℕ → ℕ → ℕ → Buddy → Option (Buddy × ℕ × ℕ)
unfolding can_merge remove_node_from_free_list
merge zero block order s = some (s, block, order)
merge (suc n) block order s =
    let buddy = buddy_address block order s in
    elim (can_merge buddy order s) [
      | none ↦ none
      | some false ↦ some (s, block, order)
      | some true ↦ elim (remove_node_from_free_list buddy order s) [
        | none ↦ none
        | some s' ↦ merge n (min block buddy) (suc order) s'
      ]
    ]

unfoldable pub deallocate : ℕ → Layout → Buddy → Option Buddy
unfolding merge add_to_free_list
deallocate block l s =
    let order = block_order l in
    elim (merge (max_order - 1 - order) block order s) [
      | none ↦ none
      | some (s', block', order') ↦ add_to_free_list block' order' s'
    ]
