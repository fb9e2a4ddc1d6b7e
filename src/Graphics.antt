-- ===== src/Graphics.antt =====
-- `kernel/src/graphics/`: drawing into a shadow buffer, and its transfer to the frame buffer.
mod Region
mod Font
mod Draw
mod Shadow
mod Writer
mod Compositor
mod TaskWriter
mod Tests
