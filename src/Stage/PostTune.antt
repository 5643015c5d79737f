-- ===== src/Stage/PostTune.antt =====
-- vendor-init/stage_post_tune.c: the rmnet device, and the knobs around it. Every command is best
-- effort.
use postmarketos_x00td_cellu.Host.{system}
use postmarketos_x00td_cellu.State.{put_file}
use postmarketos_x00td_cellu.State.Files.{put_file-Quiet}
use postmarketos_x00td_cellu.Stage.Kit.{
  arith, ℕ, refl, ◌&&◌, List, [], ◌∷◌, ◌++◌, ltb, codes, show_u, Ctx, StageFn, Cmd, ◌>>◌, pure,
  emit, if◌then◌else◌, Kernel, Brings, Quiet, Quiet-pure, Quiet-if, Quiet-emit, Quiet-bind,
  Brings-pure, Brings-if, then_quiet, Closed, state_record, state_record-Quiet,
}

-- The dash of the recorded texts, in UTF-8.
abbrev em_dash : List ℕ
em_dash = 0xe2 ∷ 0x80 ∷ 0x94 ∷ []

module _ ⦃K : Kernel⦄ where
  -- The status is only logged.
  unfoldable pub try_cmd : List ℕ → Cmd (Unit {0})
  try_cmd cmd = emit (system cmd)

  unfoldable pub try_cmd_opt : List ℕ → Cmd (Unit {0})
  try_cmd_opt cmd = emit (system cmd)

  unfoldable pub try_write : List ℕ → List ℕ → Cmd (Unit {0})
  try_write path value = put_file path value

  -- The MTU of the bearer, where it is one below that of the parent device.
  unfoldable pub set_mtu : Ctx → Cmd (Unit {0})
  unfolding try_cmd
  set_mtu ctx =
      if ltb 0 ctx.bearer_mtu && ltb ctx.bearer_mtu 2000
      then try_cmd (
          codes "ip link set qmapmux0.0 mtu "
          ++ (show_u ctx.bearer_mtu ++ codes " >/dev/null 2>&1"))
      else pure tt

  unfoldable pub set_flags : Ctx → Cmd (Unit {0})
  unfolding try_cmd
  set_flags ctx =
      if ctx.full_ul
      then (do
        try_cmd (
            codes
              "ip link set qmapmux0.0 type rmnet mux_id 1 ingress-deaggregation on ingress-mapv4-checksum on egress-mapv4-checksum on >/dev/null 2>&1")
        state_record (codes "rmnet_data_format_request")
            (codes "DEAGG + INGRESS_MAP_CKSUMV4 + EGRESS_MAP_CKSUMV4"))
      else do
        try_cmd (
            codes
              "ip link set qmapmux0.0 type rmnet mux_id 1 ingress-deaggregation on ingress-mapv4-checksum on >/dev/null 2>&1")
        state_record (codes "rmnet_data_format_request") (codes "DEAGG + INGRESS_MAP_CKSUMV4")

  -- The part of the stage that creates the device and brings it up.
  unfoldable pub create_device : Ctx → Cmd (Unit {0})
  unfolding try_cmd set_mtu set_flags
  create_device ctx = do
    try_cmd (codes "ip link set rmnet_ipa0 up >/dev/null 2>&1")
    try_cmd (
        codes
          "ip link add link rmnet_ipa0 name qmapmux0.0 type rmnet mux_id 1 ingress-deaggregation on ingress-mapv4-checksum on >/dev/null 2>&1")
    set_mtu ctx
    try_cmd (codes "ip link set qmapmux0.0 up >/dev/null 2>&1")
    set_flags ctx

  unfoldable pub write_sysctls : Cmd (Unit {0})
  unfolding try_write
  write_sysctls = do
    try_write (codes "/proc/sys/net/core/netdev_max_backlog") (codes "10000")
    try_write (codes "/proc/sys/net/ipv4/tcp_no_metrics_save") (codes "1")
    try_write (codes "/proc/sys/net/ipv4/tcp_initial_ssthresh") (codes "1400")
    try_write (codes "/sys/module/tcp_cubic/parameters/hystart") (codes "0")
    try_write (codes "/sys/module/tcp_cubic/parameters/hystart_detect") (codes "0")

  unfoldable pub set_offloads : Ctx → Cmd (Unit {0})
  unfolding try_cmd try_cmd_opt
  set_offloads ctx = do
    try_cmd (codes "ethtool -K rmnet_ipa0 gro on >/dev/null 2>&1")
    try_cmd (codes "ethtool -K qmapmux0.0 gro on >/dev/null 2>&1")
    try_cmd_opt (codes "ethtool -K qmapmux0.0 gso on >/dev/null 2>&1")
    try_cmd_opt (codes "ethtool -K qmapmux0.0 tso on >/dev/null 2>&1")
    try_cmd
        (codes "ethtool -K qmapmux0.0 tx-checksum-ipv4 off tx-checksum-ipv6 off >/dev/null 2>&1")
    try_cmd_opt
        (codes "ethtool -K rmnet_ipa0 tx-checksum-ipv4 off tx-checksum-ipv6 off >/dev/null 2>&1")
    if ctx.full_ul
        then state_record (codes "rmnet_ul_txcsum")
            (codes "off (QMAPv3 UL " ++ (em_dash ++ codes " SW csum; HW offload broken)"))
        else state_record (codes "rmnet_ul_txcsum")
            (codes "off (QMAPv1 UL " ++ (em_dash ++ codes " SW csum)"))

  unfoldable pub stage_post_tune : StageFn
  unfolding create_device write_sysctls set_offloads
  stage_post_tune ctx = if ctx.dry_run then pure (0, ctx) else do
    create_device ctx
    write_sysctls
    set_offloads ctx
    try_write (codes "/sys/class/net/rmnet_ipa0/queues/rx-0/rps_cpus") (codes "2")
    try_write (codes "/sys/class/net/qmapmux0.0/queues/rx-0/rps_cpus") (codes "4")
    state_record (codes "post_tune") (codes "applied")
    pure (0, ctx)

  try_cmd-Quiet : (cmd : List ℕ) → Quiet (try_cmd cmd)
  unfolding try_cmd
  try_cmd-Quiet cmd = Quiet-emit (system cmd) tt

  try_cmd_opt-Quiet : (cmd : List ℕ) → Quiet (try_cmd_opt cmd)
  unfolding try_cmd_opt
  try_cmd_opt-Quiet cmd = Quiet-emit (system cmd) tt

  try_write-Quiet : (path value : List ℕ) → Quiet (try_write path value)
  unfolding try_write
  try_write-Quiet path value = put_file-Quiet path value

  create_device-Quiet : (ctx : Ctx) → Quiet (create_device ctx)
  unfolding create_device set_mtu set_flags
  create_device-Quiet ctx = Quiet-bind _ _ (try_cmd-Quiet _) λ _.
      Quiet-bind _ _ (try_cmd-Quiet _) λ _.
        Quiet-bind _ _ (Quiet-if _ _ _ (try_cmd-Quiet _) (Quiet-pure tt)) λ _.
          Quiet-bind _ _ (try_cmd-Quiet _) λ _.
            Quiet-if _ _ _ (Quiet-bind _ _ (try_cmd-Quiet _) λ _. state_record-Quiet _ _)
              (Quiet-bind _ _ (try_cmd-Quiet _) λ _. state_record-Quiet _ _)

  write_sysctls-Quiet : Quiet write_sysctls
  unfolding write_sysctls
  write_sysctls-Quiet = Quiet-bind _ _ (try_write-Quiet _ _) λ _.
      Quiet-bind _ _ (try_write-Quiet _ _) λ _.
        Quiet-bind _ _ (try_write-Quiet _ _)
          λ _. Quiet-bind _ _ (try_write-Quiet _ _) λ _. try_write-Quiet _ _

  set_offloads-Quiet : (ctx : Ctx) → Quiet (set_offloads ctx)
  unfolding set_offloads
  set_offloads-Quiet ctx = Quiet-bind _ _ (try_cmd-Quiet _) λ _.
      Quiet-bind _ _ (try_cmd-Quiet _) λ _. Quiet-bind _ _ (try_cmd_opt-Quiet _) λ _.
        Quiet-bind _ _ (try_cmd_opt-Quiet _) λ _. Quiet-bind _ _ (try_cmd-Quiet _) λ _.
          Quiet-bind _ _ (try_cmd_opt-Quiet _)
            λ _. Quiet-if _ _ _ (state_record-Quiet _ _) (state_record-Quiet _ _)

  -- Whatever the kernel and the modem answer, the stage returns without a fault; the descriptors
  -- that are open then are those that were open before, and the context keeps its bearer socket and
  -- its APN; the exit code is at most 3.
  pub stage_post_tune-Closed :
      (ctx : Ctx) (fds : List ℕ) → Brings fds (stage_post_tune ctx) (Closed ctx fds)
  unfolding stage_post_tune
  stage_post_tune-Closed ctx fds =
      Brings-if _ _ _ (λ _. Brings-pure _ (refl, refl, refl, omega arith))
        λ _. then_quiet _ _ (create_device-Quiet ctx) λ _. then_quiet _ _ write_sysctls-Quiet λ _.
          then_quiet _ _ (set_offloads-Quiet ctx) λ _. then_quiet _ _ (try_write-Quiet _ _) λ _.
            then_quiet _ _ (try_write-Quiet _ _) λ _.
              then_quiet _ _ (state_record-Quiet _ _)
                λ _. Brings-pure _ (refl, refl, refl, omega arith)
