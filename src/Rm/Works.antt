-- ===== src/Rm/Works.antt =====
-- ipa_rm.c: the work queue, a single thread that runs the commands one by one. A command is put at the
-- end of the queue, and the handler is given the work that the thread has taken off.
use postmarketos_x00td_cellu.Common.{
  ℕ, Bool, true, false, not, Option, none, some, List, [], ◌∷◌, ◌++◌, if◌then◌else◌,
}
use postmarketos_x00td_cellu.Common.Fault.{◌>>=◌}
use postmarketos_x00td_cellu.Common.Int.{ℤ, pos}
use postmarketos_x00td_cellu.Rm.{is_prod, is_cons}
use postmarketos_x00td_cellu.Rm.Heap.{
  ResourceState, RmEvent, Drivers, inc_active_clients, dec_active_clients, suspend_resource_sync,
  einval, enomem, call, prod_at,
}
use postmarketos_x00td_cellu.Rm.Callbacks.{notify_clients, consumer_handle_cb}
use postmarketos_x00td_cellu.Rm.Consumer.{request_work, release_work}
use postmarketos_x00td_cellu.Rm.DepGraph.{graph_get_resource}
use postmarketos_x00td_cellu.Rm.Manager.{no_context, freed_context, context, Manager, followed}

pub data RmWqCmd : Type 0 where
  wq_notify_prod wq_notify_cons wq_resource_cb : RmWqCmd

pub record RmWqWork : Type 0 where
  pub wq_cmd : RmWqCmd
  pub resource_name : ℕ
  pub event : RmEvent
  pub notify_registered_only : Bool

pub record SuspendResumeWork : Type 0 where
  pub resource_name : ℕ
  pub prev_state : ResourceState
  pub needed_bw : ℕ
  pub inc_usage_count : Bool

-- A work with its handler.
pub data Work : Type 0 where
  plain : RmWqWork → Work
  suspend resume : SuspendResumeWork → Work

-- queue_work returns 1 for a work that was not queued before, as a new one.
unfoldable pub enqueue : Bool → Work → List Work → ℤ × List Work
enqueue alloc_ok work queue = if alloc_ok then (pos 1, queue ++ (work ∷ [])) else (enomem, queue)

unfoldable pub wq_send_cmd : RmWqCmd → ℕ → RmEvent → Bool → Bool → List Work → ℤ × List Work
unfolding enqueue
wq_send_cmd wq_cmd resource_name event notify_registered_only alloc_ok queue =
    enqueue alloc_ok
      (plain (record {
        wq_cmd = wq_cmd;
        resource_name = resource_name;
        event = event;
        notify_registered_only = notify_registered_only;
      }))
      queue

-- kzalloc leaves inc_usage_count false.
unfoldable pub wq_send_suspend_cmd : ℕ → ResourceState → ℕ → Bool → List Work → ℤ × List Work
unfolding enqueue
wq_send_suspend_cmd resource_name prev_state needed_bw alloc_ok queue =
    enqueue alloc_ok
      (suspend (record {
        resource_name = resource_name;
        prev_state = prev_state;
        needed_bw = needed_bw;
        inc_usage_count = false;
      }))
      queue

unfoldable pub wq_send_resume_cmd : ℕ → ResourceState → ℕ → Bool → Bool → List Work → ℤ × List Work
unfolding enqueue
wq_send_resume_cmd resource_name prev_state needed_bw inc_usage_count alloc_ok queue =
    enqueue alloc_ok
      (resume (record {
        resource_name = resource_name;
        prev_state = prev_state;
        needed_bw = needed_bw;
        inc_usage_count = inc_usage_count;
      }))
      queue

-- A driver's report that its request or release is complete, past the test of the context. Without
-- memory for the command the report is lost, and the context is not followed.
unfoldable pub report_completion : RmEvent → ℕ → Bool → Manager → List Work → Option (ℤ × List Work)
unfolding followed is_cons wq_send_cmd
report_completion event resource_name alloc_ok s queue =
    let (sent, queue1) = wq_send_cmd wq_resource_cb resource_name event false alloc_ok queue in
    if not (is_cons resource_name)
    then some (einval, queue)
    else if not alloc_ok
    then some (pos 0, queue1)
    else do c ← followed s.ipa_rm_ctx; some (pos 0, queue1)

unfoldable pub rm_notify_completion :
    RmEvent → ℕ → Bool → Manager → List Work → Option (ℤ × List Work)
unfolding report_completion
rm_notify_completion event resource_name alloc_ok s queue = elim s.ipa_rm_ctx [
  | no_context ↦ some (einval, queue)
  | freed_context ↦ report_completion event resource_name alloc_ok s queue
  | context c ↦ report_completion event resource_name alloc_ok s queue
]

-- The resource of a name in the table of the context.
unfoldable pub lookup : ℕ → Manager → Option (Option ℕ)
unfolding followed graph_get_resource
lookup name s = do
  c ← followed s.ipa_rm_ctx
  (found, r) ← graph_get_resource c.dep_graph name
  some r

-- The two cases of the switch that do something.
unfoldable pub handle_notify_prod : RmWqWork → Manager → Option Manager
unfolding is_prod lookup notify_clients
handle_notify_prod work s = if not (is_prod work.resource_name) then some s else do
  r ← lookup work.resource_name s
  elim r [
    | none ↦ some s
    | some n ↦ do
      p ← prod_at s.heap n
      let h = notify_clients p.event_listeners work.event work.notify_registered_only s.heap
      some (record s { heap = h })
  ]

unfoldable pub handle_resource_cb : RmWqWork → Manager → Option Manager
unfolding lookup consumer_handle_cb
handle_resource_cb work s = do
  r ← lookup work.resource_name s
  elim r [
    | none ↦ some s
    | some n ↦ do h ← consumer_handle_cb (some n) work.event s.heap; some (record s { heap = h })
  ]

unfoldable pub wq_handler : RmWqWork → Manager → Option Manager
unfolding handle_notify_prod handle_resource_cb
wq_handler work s = elim work.wq_cmd [
  | wq_notify_prod ↦ handle_notify_prod work s
  | wq_notify_cons ↦ some s
  | wq_resource_cb ↦ handle_resource_cb work s
]

module _ (d : Drivers) where
  -- Whether the work was freed, and the state.
  unfoldable pub wq_resume_handler : SuspendResumeWork → Manager → Option (Bool × Manager)
  unfolding is_cons lookup request_work
  wq_resume_handler work s =
      let name = work.resource_name in
      let h = call (inc_active_clients name) s.heap in
      if not (is_cons name) then some (false, s) else do
        r ← lookup name s
        elim r [
          | none ↦ some (true, record s { heap = call (dec_active_clients name) h })
          | some n ↦ do
            (result, h1) ←
                request_work d n work.prev_state work.needed_bw true work.inc_usage_count h
            some (true, record s { heap = h1 })
        ]

  unfoldable pub wq_suspend_handler : SuspendResumeWork → Manager → Option (Bool × Manager)
  unfolding is_cons lookup release_work
  wq_suspend_handler work s =
      let name = work.resource_name in
      let h = call (suspend_resource_sync name) s.heap in
      if not (is_cons name) then some (false, s) else do
        r ← lookup name s
        elim r [
          | none ↦ some (false, record s { heap = h })
          | some n ↦ do
            (result, h1) ← release_work d n work.prev_state true h
            some (true, record s { heap = h1 })
        ]

  -- One turn of the thread.
  unfoldable pub run_work : Work → Manager → Option Manager
  unfolding wq_handler wq_resume_handler wq_suspend_handler
  run_work (plain work) s = wq_handler work s
  run_work (resume work) s = do (freed, s1) ← wq_resume_handler work s; some s1
  run_work (suspend work) s = do (freed, s1) ← wq_suspend_handler work s; some s1
