-- ===== src/Tests.antt =====
-- The theorems at concrete inputs, and runs of the definitions.
mod Arrays
mod Chunks
mod Hashing
mod Scanning
mod Typing
mod Capturing
mod Compiling
mod Resolving
