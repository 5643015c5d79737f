-- ===== src/Stage/Kit.antt =====
-- The names that the stages share.
pub use postmarketos_x00td_cellu.Common.{
  ℕ, zero, suc, ◌+◌, ◌%◌, ◌≤◌, ◌<◌, ◌≡◌, refl, Bool, true, false, not, ◌&&◌, Option, none, some,
  List, [], ◌∷◌, ◌++◌, length, ◌==◌, ltb, arith, inl, inr, Bool-cases,
}
pub use postmarketos_x00td_cellu.Common.Int.{ℤ, pos, negsuc, is_zero}
unfoldable pub use postmarketos_x00td_cellu.Common.Text.{codes, show_u, show_d, show_x8, show_ip}
pub use postmarketos_x00td_cellu.Context.{Ctx, StageFn, fd_arg, next_txid}
pub use postmarketos_x00td_cellu.Host.{Cmd, ◌>>◌}
unfoldable pub use postmarketos_x00td_cellu.Host.{
  pure, lift, ask, emit, ◌>>=◌, if◌then◌else◌, on_some,
}
pub use postmarketos_x00td_cellu.Host.{Kernel, close, usleep}
pub use postmarketos_x00td_cellu.Host.Rules.{
  Brings, Quiet, Quiet-pure, Quiet-ask, Quiet-lift, Quiet-if, Quiet-emit, Quiet-bind, Quiet-on_some,
  Brings-pure, Brings-if, Brings-on_some, Brings-bind, then_quiet, then_lift, then_open,
  then_close_last,
}
pub use postmarketos_x00td_cellu.Qmi.Find.{
  qmi_result_total, qmi_tlv_get_u32_total, qmi_tlv_find_total,
}
unfoldable pub use postmarketos_x00td_cellu.Qmi.{qmi_tlv_find, qmi_result, qmi_tlv_get_u32}
unfoldable pub use postmarketos_x00td_cellu.Qrtr.{qrtr_open, qrtr_lookup, qrtr_txn}
pub use postmarketos_x00td_cellu.Qrtr.Lookup.{qrtr_lookup-Quiet}
pub use postmarketos_x00td_cellu.Qrtr.Replies.{qrtr_txn-Quiet}
unfoldable pub use postmarketos_x00td_cellu.Request.{array}
pub use postmarketos_x00td_cellu.Request.Rules.{length-array}
pub use postmarketos_x00td_cellu.Stage.Outcome.{Closed, Kept, then_kept}
unfoldable pub use postmarketos_x00td_cellu.State.{state_record}
pub use postmarketos_x00td_cellu.State.Files.{state_record-Quiet}
