-- ===== src/Tests.antt =====
-- A small chip on which the theorems of the library are instantiated, and concrete runs.
mod Chip
mod Frames
mod Words
mod Hi3717a
mod Hi6138
mod Hi3593
mod Net
mod Bytes
mod Bringup
mod Removal
mod Transfer
