-- ===== src/Encode/Keeps.antt =====
-- Pre- and postconditions of the actions of encode.c, with one rule for each way to build an
-- action, and the invariant that every layer keeps.
pub mod Rules
pub mod Actions
pub mod Steps
pub mod Sized
