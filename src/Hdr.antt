-- ===== src/Hdr.antt =====
-- vendor-baseline-4.19/drivers/platform/msm/ipa/ipa_v2/ipa_hdr.c: the headers of the IPA driver.
pub mod Slots
pub mod Apart
pub mod Moves
pub mod Reserve
pub mod Tables
pub mod Contexts
pub mod Headers
pub mod Live
pub mod Listed
pub mod Joined
pub mod Added
pub mod Dropped
pub mod Deleted
pub mod Runs
pub mod Hardware
pub mod Written
