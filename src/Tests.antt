-- ===== src/Tests.antt =====
-- Concrete runs of the model: one instance of each property that has conditions or arguments.
mod Filters
mod Sketches
mod Tables
mod Frames
mod Sources
mod Replays
mod Wires
mod Blocking
mod Colliding
mod Runs
mod Links
mod Boards
mod Demo
mod Screens
