-- ===== src/Boot.antt =====
-- `common/src/boot_info.rs`: what the boot loader tells the kernel.
use vitr_os.Base.{ℕ, List}

pub record FramebufferInfo : Type 0 where
  pub base : ℕ
  pub size : ℕ
  pub width : ℕ
  pub height : ℕ
  pub stride : ℕ

pub record MemoryRegion : Type 0 where
  pub start : ℕ
  pub size : ℕ
  pub region_type : ℕ

-- The array of regions has 256 elements, of which the first `memory_map_count` count.
pub record BootInfo : Type 0 where
  pub framebuffer : FramebufferInfo
  pub memory_map : List MemoryRegion
  pub memory_map_count : ℕ
  pub rsdp_address : ℕ
  pub max_physical_address : ℕ
