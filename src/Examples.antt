-- ===== src/Examples.antt =====
-- Tests of the definitions on small inputs, and each theorem at an input where its hypotheses hold.
mod Identity
mod Tags
mod Tree
mod Merge
mod Replay
mod Config
mod Resolutions
mod Naming
mod Schema
mod Workspace
mod Diagnostics
mod Execution
