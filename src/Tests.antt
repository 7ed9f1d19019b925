-- ===== src/Tests.antt =====
-- Concrete inputs: the definitions run on them, and the theorems apply to them.
mod Plain
mod Parsing
mod Generating
mod Listing
mod Arguments
mod Writing
mod Texts
mod Running
mod Reading
mod Tracing
mod Mime
mod Nesting
mod Parts
mod Paths
