-- ===== src/Alarm/Channel/Types.antt =====
-- crates/pnio/src/alarm/channel.rs: the channel's data. Instants and durations are numbers of
-- nanoseconds on one clock.
use pnio_rs.Prelude.{ℕ, List, [], Bytes}
use pnio_rs.Eth.Header.{MacAddr}
use pnio_rs.Cm.Status.{PnioStatus}
use pnio_rs.Cm.Abort.{AbortReason}
use pnio_rs.Alarm.Pdu.{Priority, AlarmNotification, seq_init, seq_none}

-- The fixed part of a notification's block length.
abbrev pub notification_fixed_len : ℕ
notification_fixed_len = 24

abbrev pub alarm_ack_timeout_factor : ℕ
alarm_ack_timeout_factor = 10

pub record AlarmChannelConfig : Type 0 where
  pub local_ref : ℕ
  pub remote_ref : ℕ
  pub rta_timeout : ℕ
  pub rta_retries : ℕ
  pub max_alarm_data_length : ℕ
  pub peer_mac : MacAddr
  pub our_mac : MacAddr

pub record AlarmReq : Type 0 where
  pub id : ℕ
  pub priority : Priority
  pub notification : AlarmNotification

pub data AlarmAction : Type 0 where
  send : Bytes → AlarmAction
  acked : ℕ → PnioStatus → AlarmAction
  abort : AbortReason → AlarmAction
  unexpected_rx : AlarmAction

pub data AlarmError : Type 0 where
  too_long : ℕ → ℕ → AlarmError

pub record AlarmStats : Type 0 where
  pub sent : ℕ
  pub acked : ℕ
  pub retries : ℕ
  pub unexpected_rx : ℕ
  pub send_failures : ℕ
  pub ack_timeouts : ℕ
  pub rx_err_rta : ℕ

pub data State : Type 0 where
  idle : State
  sent_data : AlarmReq → ℕ → Bytes → ℕ → State
  await_alarm_ack : AlarmReq → ℕ → State

pub record AlarmChannel : Type 0 where
  pub cfg : AlarmChannelConfig
  pub state : State
  pub queue : List AlarmReq
  pub next_send_seq : ℕ
  pub last_sent_seq : ℕ
  pub last_rx_seq : ℕ
  pub attempt : ℕ
  pub stats : AlarmStats
  pub specifier_seq : ℕ

abbrev pub no_stats : AlarmStats
no_stats = record {
  sent = 0;
  acked = 0;
  retries = 0;
  unexpected_rx = 0;
  send_failures = 0;
  ack_timeouts = 0;
  rx_err_rta = 0;
}

-- `AlarmChannel::new`
unfoldable pub new : AlarmChannelConfig → AlarmChannel
new cfg = record {
  cfg = cfg;
  state = idle;
  queue = [];
  next_send_seq = seq_init;
  last_sent_seq = seq_none;
  last_rx_seq = seq_none;
  attempt = 0;
  stats = no_stats;
  specifier_seq = 0;
}
