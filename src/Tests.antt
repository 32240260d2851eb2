-- ===== src/Tests.antt =====
-- Concrete parameters, test data, and the theorems at concrete inputs.
mod Texts
mod Blocks
mod Traits
mod Rings
mod Reads
mod Sends
mod Fills
mod Runtimes
mod Lives
mod Foreign
mod Delivered
mod Reached
mod Lent
mod Sessions
mod Heard
