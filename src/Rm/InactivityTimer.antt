-- ===== src/Rm/InactivityTimer.antt =====
-- ipa_rm_inactivity_timer.c: a resource is released a while after its last release. The state is the
-- table of the handles, the delayed work that is queued for each, and the calls that were made, the last
-- one first. The work queue outside runs a queued work once.
use postmarketos_x00td_cellu.Common.{ℕ, Bool, true, false, not, List, ◌∷◌, ltb, if◌then◌else◌}
use postmarketos_x00td_cellu.Common.Int.{ℤ, pos}
use postmarketos_x00td_cellu.Rm.{ipa_rm_resource_max}
use postmarketos_x00td_cellu.Rm.Heap.{einval, enomem, update}

pub record ItPrivate : Type 0 where
  pub initied : Bool
  pub resource_requested : Bool
  pub reschedule_work : Bool
  pub work_in_progress : Bool
  pub jiffies : ℕ
  pub w_lock : Bool

pub data TimerCall : Type 0 where
  rm_request_resource rm_release_resource pm_stay_awake pm_relax : ℕ → TimerCall
  queue_delayed_work : ℕ → ℕ → TimerCall
  cancel_delayed_work_sync wakeup_source_register wakeup_source_unregister : ℕ → TimerCall

pub record Timers : Type 0 where
  pub handle : ℕ → ItPrivate
  pub queued : ℕ → Bool
  pub calls : List TimerCall

-- A static handle, and one after memset.
abbrev pub no_handle : ItPrivate
no_handle = record {
  initied = false;
  resource_requested = false;
  reschedule_work = false;
  work_in_progress = false;
  jiffies = 0;
  w_lock = false;
}

abbrev pub put_handle : ℕ → ItPrivate → Timers → Timers
put_handle n me t = record t { handle = update t.handle n me }

abbrev pub timer_call : TimerCall → Timers → Timers
timer_call c t = record t { calls = c ∷ t.calls }

-- Queueing a work that is queued already leaves it queued.
abbrev pub queue : ℕ → ℕ → Timers → Timers
queue n jiffies t =
    timer_call (queue_delayed_work n jiffies) (record t { queued = update t.queued n true })

unfoldable pub timer_func : ℕ → Timers → Timers
timer_func n t =
    let me = t.handle n in
    if me.reschedule_work
    then queue n me.jiffies (put_handle n (record me { reschedule_work = false }) t)
    else if me.resource_requested
    then put_handle n (record me { work_in_progress = false }) t
    else put_handle n (record me { work_in_progress = false })
        (timer_call (rm_release_resource n) (timer_call (pm_relax n) t))

-- `jiffies` is what msecs_to_jiffies returns, and `registered` whether the wakeup source is.
unfoldable pub timer_init : ℕ → ℕ → Bool → Timers → ℤ × Timers
timer_init n jiffies registered t =
    let me = record (t.handle n) {
      resource_requested = false;
      reschedule_work = false;
      work_in_progress = false;
      jiffies = jiffies;
      w_lock = registered;
    } in
    let t1 = timer_call (wakeup_source_register n) t in
    if not (ltb n ipa_rm_resource_max)
    then (einval, t)
    else if (t.handle n).initied
    then (einval, t)
    else if not registered
    then (enomem, put_handle n me t1)
    else (pos 0, put_handle n (record me { initied = true }) t1)

unfoldable pub timer_destroy : ℕ → Timers → ℤ × Timers
timer_destroy n t =
    let t1 = record t { queued = update t.queued n false } in
    let t2 = timer_call (wakeup_source_unregister n) (timer_call (cancel_delayed_work_sync n) t1) in
    if not (ltb n ipa_rm_resource_max)
    then (einval, t)
    else if not (t.handle n).initied
    then (einval, t)
    else (pos 0, put_handle n no_handle t2)

-- `answer` is what ipa_rm_request_resource returns.
unfoldable pub timer_request_resource : ℕ → ℤ → Timers → ℤ × Timers
timer_request_resource n answer t =
    let me = record (t.handle n) { resource_requested = true } in
    if not (ltb n ipa_rm_resource_max)
    then (einval, t)
    else if not (t.handle n).initied
    then (einval, t)
    else (answer, timer_call (rm_request_resource n) (put_handle n me t))

unfoldable pub timer_release_resource : ℕ → Timers → ℤ × Timers
timer_release_resource n t =
    let me = record (t.handle n) { resource_requested = false } in
    let started = record me { work_in_progress = true; reschedule_work = false } in
    if not (ltb n ipa_rm_resource_max)
    then (einval, t)
    else if not (t.handle n).initied
    then (einval, t)
    else if me.work_in_progress
    then (pos 0, put_handle n (record me { reschedule_work = true }) t)
    else (pos 0, queue n me.jiffies (timer_call (pm_stay_awake n) (put_handle n started t)))
