-- ===== src/Loader.antt =====
-- `bootloader/src/main.rs` with `common/src/elf.rs`. The services of the firmware are parameters.
pub mod Image
pub mod Pages
pub mod Start
pub mod Console
mod Tests
