-- ===== src/Cm/Abort.antt =====
-- crates/pnio/src/cm/ar.rs: why an application relationship was aborted.
use Prim.Native.String.{String}
use pnio_rs.Cm.Status.{PnioStatus}

pub data AbortReason : Type 0 where
  controller_release app_ready_failed : AbortReason
  app_ready_rejected : PnioStatus → AbortReason
  activity_timeout controller_reconnect rt_watchdog : AbortReason
  external : String → AbortReason
  controller_err_rta : PnioStatus → AbortReason
  alarm_send_failed rt_socket shutdown : AbortReason
