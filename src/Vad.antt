-- ===== src/Vad.antt =====
-- src-tauri/src/asr/vad.rs: how the utterances that the detector finds are cut into windows for a
-- provider. `usize` is `u64`, and a float is known by its operations only. The loop over a core runs
-- on fuel, and `none` is no value of the program: it means that the fuel ran out. The detector itself,
-- its model and its configuration are another package's.
pub mod Select
pub mod Partition
pub mod Grid
pub mod Boundary
pub mod Windows
pub mod Cores
mod Tests
