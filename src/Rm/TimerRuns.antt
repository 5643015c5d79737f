-- ===== src/Rm/TimerRuns.antt =====
-- The inactivity timer over any sequence of requests, releases and expiries.
use postmarketos_x00td_cellu.Common.{
  ℕ, suc, ◌<◌, ◌≡◌, refl, ◌∙◌, Bool, true, false, List, [], ◌∷◌, ◌==◌, ==-refl, if◌then◌else◌,
  arith, Bool-cases, inl, inr,
}
use postmarketos_x00td_cellu.Common.Int.{ℤ}
use postmarketos_x00td_cellu.Rm.Heap.{update}
use postmarketos_x00td_cellu.Rm.InactivityTimer.{
  TimerCall, rm_release_resource, Timers, timer_func, timer_request_resource,
  timer_release_resource,
}

pub data Input : Type 0 where
  requests : ℤ → Input
  releases expires : Input

-- An expiry runs the work where one is queued, which is then no longer so.
unfoldable pub act : ℕ → Input → Timers → Timers
unfolding timer_func timer_request_resource timer_release_resource
act n (requests answer) t = (timer_request_resource n answer t).1
act n releases t = (timer_release_resource n t).1
act n expires t =
    if t.queued n then timer_func n (record t { queued = update t.queued n false }) else t

unfoldable pub acts : ℕ → List Input → Timers → Timers
unfolding act
acts n [] t = t
acts n (i ∷ is) t = acts n is (act n i t)

abbrev pub is_release : ℕ → TimerCall → Bool
is_release n (rm_release_resource m) = n == m
is_release n _ = false

-- How often the resource manager was told to release the resource.
unfoldable pub released_times : ℕ → List TimerCall → ℕ
released_times n [] = 0
released_times n (c ∷ cs) =
    if is_release n c then suc (released_times n cs) else released_times n cs

-- An initialised handle whose work is in progress where it is queued, and only there.
pub record IsTimer (n : ℕ) (t : Timers) : Type 0 where
  pub named : n < 22
  pub initied : (t.handle n).initied ≡ true
  pub in_progress : (t.handle n).work_in_progress ≡ t.queued n

act-IsTimer : (n : ℕ) (i : Input) (t : Timers) → IsTimer n t → IsTimer n (act n i t)
unfolding act
act-IsTimer n (requests answer) t w = ground (arith, ==-refl n)
act-IsTimer n releases t w = ground (arith, ==-refl n)
act-IsTimer n expires t w = ground (arith, ==-refl n)

abbrev IsNoRelease : Input → Type 0
IsNoRelease releases = ⊥
IsNoRelease _ = Unit

abbrev NoRelease : List Input → Type 0
NoRelease [] = Unit
NoRelease (i ∷ is) = IsNoRelease i × NoRelease is

-- While the resource is requested, an input that is no release keeps it so and releases nothing.
act_requested :
    (n : ℕ) (i : Input) (t : Timers)
    → IsTimer n t
    → (t.handle n).resource_requested ≡ true
    → IsNoRelease i
    → (((act n i t).handle n).resource_requested ≡ true)
      × (released_times n (act n i t).calls ≡ released_times n t.calls)
unfolding act released_times
act_requested n (requests answer) t w r c = ground (arith, ==-refl n)
act_requested n releases t w r c = absurd c
act_requested n expires t w r c = ground (arith, ==-refl n)

acts_requested :
    (n : ℕ) (is : List Input) (t : Timers)
    → IsTimer n t
    → (t.handle n).resource_requested ≡ true
    → NoRelease is
    → released_times n (acts n is t).calls ≡ released_times n t.calls
unfolding acts
acts_requested n [] t w r c = refl
acts_requested n (i ∷ is) t w r (c, cs) =
    let (r1, same) = act_requested n i t w r c in
    acts_requested n is (act n i t) (act-IsTimer n i t w) r1 cs ∙ same

-- After a request, no sequence of expiries and further requests tells the resource manager to release
-- the resource, whatever was going on before.
pub request_holds :
    (n : ℕ) (answer : ℤ) (is : List Input) (t : Timers)
    → IsTimer n t
    → NoRelease is
    → released_times n (acts n (requests answer ∷ is) t).calls ≡ released_times n t.calls
unfolding acts act released_times
request_holds n answer is t w c =
    let t1 = act n (requests answer) t in
    let r : (t1.handle n).resource_requested ≡ true = ground (arith, ==-refl n) in
    let same : released_times n t1.calls ≡ released_times n t.calls = ground (arith, ==-refl n) in
    acts_requested n is t1 (act-IsTimer n (requests answer) t w) r c ∙ same

-- A handle whose resource is not requested, with its work queued, `times` releases made.
record Ending (n : ℕ) (again : Bool) (times : ℕ) (t : Timers) : Type 0 where
  good : IsTimer n t
  unrequested : (t.handle n).resource_requested ≡ false
  rescheduled : (t.handle n).reschedule_work ≡ again
  is_queued : t.queued n ≡ true
  times_now : released_times n t.calls ≡ times

abbrev Ended : ℕ → ℕ → Timers → Type 0
Ended n times t = (released_times n t.calls ≡ times) × (t.queued n ≡ false) × IsTimer n t

act-Ending :
    (n : ℕ) (t : Timers)
    → IsTimer n t
    → (again : Bool) × Ending n again (released_times n t.calls) (act n releases t)
unfolding act released_times
act-Ending n t w = elim (Bool-cases (t.handle n).work_in_progress) [
  | inl x ↦ (true, ground (arith, ==-refl n))
  | inr x ↦ (false, ground (arith, ==-refl n))
]

reschedule-Ending :
    (n times : ℕ) (t : Timers) → Ending n true times t → Ending n false times (act n expires t)
unfolding act released_times
reschedule-Ending n times t e = ground (arith, ==-refl n)

expire-Ended :
    (n times : ℕ) (t : Timers) → Ending n false times t → Ended n (suc times) (act n expires t)
unfolding act released_times
expire-Ended n times t e = ground (arith, ==-refl n)

idle-Ended : (n times : ℕ) (t : Timers) → Ended n times t → Ended n times (act n expires t)
unfolding act
idle-Ended n times t e = rw (e.1) e

-- A release is carried out: after it, where no request follows, the second expiry at the latest has told
-- the resource manager to release the resource, exactly once, and no work is queued any more.
pub release_ends :
    (n : ℕ) (t : Timers)
    → IsTimer n t
    → let t' = acts n (releases ∷ expires ∷ expires ∷ []) t in
      (released_times n t'.calls ≡ suc (released_times n t.calls))
      × (t'.queued n ≡ false)
      × IsTimer n t'
unfolding acts
release_ends n t w = by_turn (act-Ending n t w)
  where
    by_turn :
        (again : Bool) × Ending n again (released_times n t.calls) (act n releases t)
        → Ended n
            (suc (released_times n t.calls))
            (act n expires (act n expires (act n releases t)))
    by_turn (true, e) = expire-Ended n _ _ (reschedule-Ending n _ _ e)
    by_turn (false, e) = idle-Ended n _ _ (expire-Ended n _ _ e)
