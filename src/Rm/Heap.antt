-- ===== src/Rm/Heap.antt =====
-- ipa_rm_resource.h and the state that ipa_rm_resource.c works on: the resources by the name that a
-- pointer to them stands as, and the calls that were made outside, the last one first. A resource's
-- type is its constructor. What the drivers and the clocks answer is a parameter.
use postmarketos_x00td_cellu.Common.{
  ℕ, ◌+◌, ◌-◌, ◌%◌, Bool, true, false, Option, none, some, List, ◌∷◌, ◌==◌,
}
use postmarketos_x00td_cellu.Common.Fault.{◌>>=◌}
use postmarketos_x00td_cellu.Common.Int.{ℤ, pos, negsuc}
pub use postmarketos_x00td_cellu.Common.Int.{einval, eperm, enomem}
pub use postmarketos_x00td_cellu.Common.{update, update_self, update_ne}
use postmarketos_x00td_cellu.Rm.PeersList.{PeersList, get_resource, get_size}

pub data ResourceState : Type 0 where
  released request_in_progress granted release_in_progress : ResourceState

pub data RmEvent : Type 0 where
  resource_granted resource_released : RmEvent

pub record RegisterParams : Type 0 where
  pub user_data : ℕ
  pub notify_cb : ℕ

pub record NotificationInfo : Type 0 where
  pub reg_params : RegisterParams
  pub is_explicit : Bool

pub record Resource : Type 0 where
  pub name : ℕ
  pub floor_voltage : ℕ
  pub max_bw : ℕ
  pub needed_bw : ℕ
  pub state : ResourceState
  pub peers_list : Option PeersList

-- `completed` is the completion request_consumer_in_progress.
pub record Cons : Type 0 where
  pub resource : Resource
  pub usage_count : ℤ
  pub completed : Bool

-- The two counts are lowered only where they are positive.
pub record Prod : Type 0 where
  pub resource : Resource
  pub event_listeners : List NotificationInfo
  pub pending_request : ℕ
  pub pending_release : ℕ

pub data Object : Type 0 where
  producer : Prod → Object
  consumer : Cons → Object

-- The calls out of the file, and the commands that it queues.
pub data Call : Type 0 where
  request_resource release_resource perf_profile_change resume_resource : ℕ → Call
  enable_clks_no_block suspend_resource_no_block : ℕ → Call
  inc_active_clients dec_active_clients suspend_resource_sync : ℕ → Call
  send_resume_cmd : ℕ → ResourceState → ℕ → Bool → Call
  send_suspend_cmd : ℕ → ResourceState → ℕ → Call
  send_notify_prod : ℕ → RmEvent → Bool → Call
  notify_cb : ℕ → ℕ → RmEvent → Call

pub record Heap : Type 0 where
  pub object : ℕ → Option Object
  pub calls : List Call

-- What a call answers, by the calls before it and the resource it is made for.
pub record Drivers : Type 0 where
  pub request_answer : List Call → ℕ → ℤ
  pub release_answer : List Call → ℕ → ℤ
  pub enable_clks_answer : List Call → ℕ → ℤ
  pub suspend_answer : List Call → ℕ → ℤ

abbrev pub einprogress : ℤ
einprogress = negsuc 114

abbrev pub eexist : ℤ
eexist = negsuc 16

-- Comparisons with a state.
abbrev pub is_leaving : ResourceState → Bool
is_leaving release_in_progress = true
is_leaving _ = false

abbrev pub is_coming : ResourceState → Bool
is_coming request_in_progress = true
is_coming _ = false

-- `rc == -EINPROGRESS`
abbrev pub is_in_progress : ℤ → Bool
is_in_progress (pos n) = false
is_in_progress (negsuc n) = n == 114

-- The u32 operators += and -=.
abbrev pub add_u32 : ℕ → ℕ → ℕ
add_u32 a b = (a + b) % 4294967296

abbrev pub sub_u32 : ℕ → ℕ → ℕ
sub_u32 a b = (a + (4294967296 - b)) % 4294967296

abbrev pub call : Call → Heap → Heap
call c h = record h { calls = c ∷ h.calls }

abbrev pub put : ℕ → Object → Heap → Heap
put n o h = record h { object = update h.object n (some o) }

-- A pointer to a resource of the other type, or to none, is not followed.
abbrev pub as_cons : Object → Option Cons
as_cons (consumer c) = some c
as_cons (producer p) = none

abbrev pub as_prod : Object → Option Prod
as_prod (producer p) = some p
as_prod (consumer c) = none

abbrev pub base : Object → Resource
base (producer p) = p.resource
base (consumer c) = c.resource

abbrev pub with_base : Object → Resource → Object
with_base (producer p) r = producer (record p { resource = r })
with_base (consumer c) r = consumer (record c { resource = r })

abbrev pub cons_at : Heap → ℕ → Option Cons
cons_at h n = h.object n >>= as_cons

abbrev pub prod_at : Heap → ℕ → Option Prod
prod_at h n = h.object n >>= as_prod

abbrev pub cons_state : Cons → ResourceState → Cons
cons_state c s = record c { resource = record c.resource { state = s } }

abbrev pub prod_state : Prod → ResourceState → Prod
prod_state p s = record p { resource = record p.resource { state = s } }

-- The peer at an index of a resource's list; a NULL list is not followed.
abbrev pub peer_of : Resource → ℕ → Option (Option ℕ)
peer_of r i = do l ← r.peers_list; get_resource (pos i) l

abbrev pub size_of : Resource → Option ℕ
size_of r = do l ← r.peers_list; some (get_size l)
