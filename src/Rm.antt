-- ===== src/Rm.antt =====
-- The IPA resource manager (vendor-baseline-4.19/drivers/platform/msm/ipa/ipa_rm_*.c): resource
-- names, which are even for producers and odd for consumers.
pub mod PeersList
pub mod Counted
pub mod Heap
pub mod Callbacks
pub mod Consumer
pub mod Producer
pub mod Dependency
pub mod Lifetime
pub mod DepGraph
pub mod Manager
pub mod Clients
pub mod Works
pub mod Profile
pub mod Voting
pub mod Outcome
pub mod Requested
pub mod Released
pub mod Peering
pub mod RequestRound
pub mod RequestLoop
pub mod RequestEnd
pub mod CallbackMap
pub mod CallbackLoop
pub mod Answered
pub mod Liveness
pub mod ReleaseLoop
pub mod Table
pub mod InactivityTimer
pub mod TimerRuns
pub mod Added
pub mod Dependent
use postmarketos_x00td_cellu.Common.{
  ℕ, ◌%◌, Bool, true, false, ◌&&◌, ◌||◌, ◌==◌, ltb, if◌then◌else◌,
}
use postmarketos_x00td_cellu.Common.Int.{ℤ, pos, negsuc}

abbrev pub ipa_rm_resource_max : ℕ
ipa_rm_resource_max = 22

-- IPA_RM_INDEX_INVALID
abbrev pub ipa_rm_index_invalid : ℤ
ipa_rm_index_invalid = negsuc 0

unfoldable pub is_prod : ℕ → Bool
is_prod x = ltb x ipa_rm_resource_max && (x % 2 == 0)

unfoldable pub is_cons : ℕ → Bool
is_cons x = ltb x ipa_rm_resource_max && (x % 2 == 1)

-- The cases of the switch, by the values of the enumeration.
unfoldable pub ipa_rm_prod_index : ℕ → ℤ
ipa_rm_prod_index name =
    if (name == 0)
      || (name == 2)
      || (name == 4)
      || (name == 6)
      || (name == 8)
      || (name == 10)
      || (name == 12)
      || (name == 14)
      || (name == 16)
      || (name == 18)
      || (name == 20)
    then pos name
    else ipa_rm_index_invalid

unfoldable pub ipa_rm_cons_index : ℕ → ℤ
ipa_rm_cons_index name =
    if (name == 1)
      || (name == 3)
      || (name == 7)
      || (name == 15)
      || (name == 9)
      || (name == 17)
      || (name == 19)
      || (name == 5)
      || (name == 21)
    then pos name
    else ipa_rm_index_invalid
