-- ===== src/Main/Tests.antt =====
-- The theorem about the heap at a concrete input, and tests.
use vitr_os.Base.{◌+◌, ◌-◌, ◌/◌, ◌^◌, ◌≡◌, refl, some, List, [], ◌∷◌, All, arith}
use vitr_os.Boot.{BootInfo, MemoryRegion}
use vitr_os.Sched.Task.{kernel_virtual_base}
use vitr_os.Allocator.Buddy.Packing.{no_blocks}
use vitr_os.Allocator.Buddy.Safety.{Reaches}
use vitr_os.Allocator.Slab.{KernelAllocator}
use vitr_os.Allocator.Slab
use vitr_os.Main.{Largest, no_memory, find_largest, safe_regions, start_heap}
use vitr_os.Main.Heap.{IsOneOf, IsUpper, start_heap-Reaches}

-- Reserved memory, a small and a large usable region.
abbrev regions : List MemoryRegion
regions =
    record { start = 0; size = 2 ^ 30; region_type = 0 }
    ∷ record { start = 4096; size = 65536; region_type = 7 }
    ∷ record { start = 2 ^ 20; size = 2 ^ 18; region_type = 7 }
    ∷ []

abbrev boot : BootInfo
boot = record {
  framebuffer = record { base = 0; size = 0; width = 0; height = 0; stride = 0 };
  memory_map = regions;
  memory_map_count = 3;
  rsdp_address = 0;
  max_physical_address = 2 ^ 30;
}

abbrev chosen : Largest
chosen = find_largest (safe_regions boot) no_memory

chosen-test : chosen ≡ record { start_phys = 2 ^ 20; size = 2 ^ 18 }
unfolding find_largest
chosen-test = refl

start_heap-Reaches_example :
    IsOneOf chosen (safe_regions boot)
    × All (IsUpper chosen) (safe_regions boot)
    × ((k : KernelAllocator) × (start_heap boot Slab.new ≡ some k)
        × Reaches
            (kernel_virtual_base + chosen.start_phys + chosen.size / 2)
            (chosen.size - chosen.size / 2)
            k.buddy
            no_blocks)
unfolding find_largest
start_heap-Reaches_example =
    start_heap-Reaches boot (omega arith) (omega arith) (omega arith) (omega arith)
