-- ===== src/Stage.antt =====
-- vendor-init/stage_*.c: the stages of the bringup, one module each.
pub mod Outcome
pub mod Kit
pub mod Prefix
pub mod WdsStart
pub mod PostTune
pub mod ServingSystem
pub mod Radios
pub mod NasRat
pub mod Fff2
pub mod Iattach
pub mod DpmOpen
pub mod WdaSet
pub mod BindMux
pub mod Dsd
pub mod DmsOnline
