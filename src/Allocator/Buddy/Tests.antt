-- ===== src/Allocator/Buddy/Tests.antt =====
-- The theorems about the buddy allocator at a region of sixteen pages, two of them in use.
use vitr_os.Base.{
  ℕ, ◌+◌, ◌≤◌, ◌≡◌, ◌⊎◌, refl, Bool, true, false, false≢true, Option, none, some, arith,
}
use vitr_os.Allocator.Size.{order_to_size, size_to_order, align_up, align_down}
use vitr_os.Allocator.Buddy.{Buddy, Layout, new, init, allocate, deallocate, block_order, is_free}
use vitr_os.Allocator.Buddy.Links.{Blocks, mark, none≢some}
use vitr_os.Allocator.Buddy.Blocks.{IsBlock}
use vitr_os.Allocator.Buddy.Packing.{AreApart, no_blocks}
use vitr_os.Allocator.Buddy.Safety.{
  Reaches, started, allocated, first_page, page_bytes, Reaches-AreApart, is_free-AreApart,
  Reaches-returns,
}

is_done : Option Buddy → Bool
is_done none = false
is_done (some s) = true

abbrev state_of : Option Buddy → Buddy
state_of none = new
state_of (some s) = s

state_of-some : (r : Option Buddy) → is_done r ≡ true → r ≡ some (state_of r)
unfolding is_done
state_of-some none h = absurd (false≢true h)
state_of-some (some s) h = refl

address : Option (Buddy × Option ℕ) → Option ℕ
address none = none
address (some (s, m)) = m

abbrev heap_of : Option (Buddy × Option ℕ) → Buddy
heap_of none = new
heap_of (some (s, m)) = s

heap_of-some :
    (r : Option (Buddy × Option ℕ)) (a : ℕ) → address r ≡ some a → r ≡ some (heap_of r, some a)
unfolding address
heap_of-some none a h = absurd (none≢some a h)
heap_of-some (some (s, m)) a h = let e : m ≡ some a = h in rw e refl

abbrev page : Layout
page = record { size = 4096; align = 8 }

abbrev heap : Buddy
heap = state_of (init 4096 65536 new)

abbrev heap_one : Buddy
heap_one = heap_of (allocate page heap)

abbrev heap_two : Buddy
heap_two = heap_of (allocate page heap_one)

abbrev two_pages : Blocks
two_pages = mark (block_order page) 8192 true (mark (block_order page) 4096 true no_blocks)

heap-Reaches : Reaches 4096 65536 heap no_blocks
unfolding init is_done
heap-Reaches = started heap (state_of-some (init 4096 65536 new) refl)

heap_one-Reaches : Reaches 4096 65536 heap_one (mark (block_order page) 4096 true no_blocks)
unfolding init allocate address size_to_order
heap_one-Reaches =
    allocated heap heap_one no_blocks page 4096 heap-Reaches
      (heap_of-some (allocate page heap) 4096 refl)

heap_two-Reaches : Reaches 4096 65536 heap_two two_pages
unfolding init allocate address size_to_order
heap_two-Reaches =
    allocated heap_one heap_two (mark (block_order page) 4096 true no_blocks) page 8192
      heap_one-Reaches (heap_of-some (allocate page heap_one) 8192 refl)

Reaches-AreApart_example :
    (first_page 4096 ≤ 4096)
    × (4096 + order_to_size 0 ≤ first_page 4096 + page_bytes 4096 65536)
    × (◌≡◌ {A = ℕ} 0 0 × ◌≡◌ {A = ℕ} 4096 8192 ⊎ AreApart 0 4096 0 8192)
unfolding size_to_order
Reaches-AreApart_example =
    Reaches-AreApart 4096 65536 (omega arith) (omega arith) (omega arith) heap_two two_pages
      heap_two-Reaches 0 4096 0 8192 refl refl

-- The third and the fourth page are a free block of order 1.
free_pair : IsBlock (first_page 4096) (page_bytes 4096 65536) 1 12288
unfolding align_up align_down
free_pair = record { index = 1; at_index = refl; small = omega arith; fits = omega arith }

is_free-AreApart_example : AreApart 1 12288 0 4096
unfolding init allocate is_free size_to_order
is_free-AreApart_example =
    is_free-AreApart 4096 65536 (omega arith) (omega arith) (omega arith) heap_two two_pages
      heap_two-Reaches 1 12288 0 4096 free_pair refl refl

Reaches-returns_example :
    ((l : Layout) → (s : Buddy) × (m : Option ℕ) × (allocate l heap_two ≡ some (s, m)))
    × ((l : Layout) (a : ℕ)
        → two_pages (block_order l) a ≡ true
        → (s : Buddy) × (deallocate a l heap_two ≡ some s))
Reaches-returns_example =
    Reaches-returns 4096 65536 (omega arith) (omega arith) (omega arith) heap_two two_pages
      heap_two-Reaches
