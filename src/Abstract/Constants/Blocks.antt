-- ===== src/Abstract/Constants/Blocks.antt =====
-- A block's run, and the states that abstract/constants.py gives its exits.
pub mod States
pub mod Runs
pub mod Exits
