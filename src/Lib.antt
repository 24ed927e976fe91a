-- ===== src/Lib.antt =====
-- A model of pnio-rs, a PROFINET IO device in Rust: the codecs of its frames and blocks, and the
-- state machines that stand behind them. Paths are those of the repository, under
-- crates/pnio/src.
--
-- Parts
--   Eth      eth/header.rs: MacAddr, EthHeader::parse and write (Eth/Header).
--   Rt       rt/frame.rs: the cyclic frame, RtFrame::parse and write, DataStatus (Rt/Frame);
--            rt/layout.rs: the tables of an AR (Rt/Layout, from_ar in Rt/Layout/Build);
--            rt/engine.rs: RtEngine::on_tick, on_frame and check_watchdog (Rt/Engine);
--            rt/image.rs: the I/O image (Rt/Image); rt/runner.rs: the tick grid, a tick and a
--            received frame (Rt/Runner).
--   Data     data.rs: the process data types.
--   Rpc      rpc/mod.rs and rpc/uuid.rs: the byte order Drep (Rpc/Drep), the errors (Rpc/Errors) and
--            Uuid (Rpc/Uuid); rpc/header.rs (Rpc/Header); rpc/ndr.rs (Rpc/Ndr).
--   Cm       the context manager: cm/status.rs (Cm/Status), cm/model.rs (Cm/Model), cm/block.rs
--            (Cm/Block for BlockHeader, Cm/Cursor for Cursor, Cm/Requests for the four Connect
--            blocks), cm/connect.rs (Cm/Connect: Parse, Validate, Respond), cm/write.rs (Cm/Write),
--            cm/control.rs (Cm/Control), cm/records.rs (Cm/Records), cm/ar.rs (Cm/Ar: Types, Ops)
--            and cm/mod.rs, the handling of RPC datagrams (Cm/Manager: Types, Pdu, Ops).
--   Im       im.rs: the I&M records and the store of them (Im).
--   Dcp      dcp: blocks (Dcp/Block), frames (Dcp/Frame), Identify (Dcp/Identify), Set (Dcp/Set) and
--            the responder (Dcp/Handle).
--   Diag     diag.rs: the diagnosis store (Diag), on a sorted map (Diag/Map).
--   Alarm    alarm/rta.rs (Alarm/Fields, Alarm/Pdu, Alarm/Rta) and alarm/channel.rs (Alarm/Channel:
--            Types, Ops).
--   Prelude  lists, words, results and buffers that the parts share.
--   Examples runs on a small device and a small station.
--
-- How the parts meet: frames and blocks are lists of bytes, and a writer gives the bytes that the
-- code appends to its buffer. A parsed Connect, Write or control block is an event of the
-- application relationship (Cm/Ar), which answers with the blocks that the writers build; the
-- alarm channel (Alarm/Channel) reads and builds frames with Alarm/Rta; the parameters that a
-- Connect leaves (Cm/Connect) give the layout (Rt/Layout) that the cyclic engine (Rt/Engine) runs on.
-- The manager (Cm/Manager) reads a datagram with Rpc/Header and Rpc/Ndr, gives the AR its event,
-- turns the actions into responses, calls and notices, and keeps the last responses; reads of
-- records go to Cm/Records, which takes the I&M records from Im. The diagnosis store (Diag) builds
-- the notifications that the alarm channel sends. The runner (Rt/Runner) takes the inputs from the
-- image (Rt/Image) into the frames of the engine and publishes there what the engine accepted.
--
-- State: `Ar` and `AlarmChannel` have the fields of the structs, and `RtEngine` has them without the
-- histograms and the counters that other parts write. A method that takes `&mut self` takes the
-- state and returns it with the actions; a handler of `Ar` returns `none` where `.expect` panics,
-- and a method of `RtEngine` returns an error where an index is out of range. `Cm` has the fields of
-- the struct; the error `panic` of Rpc/Errors and of Cm/Manager stands for a panic of the code, and
-- `panics` does for the DCP responder. The locks of the I/O image are held to the end of a method, so
-- a method is one step; whether a `try_lock` succeeds is an argument. Instants and durations are
-- numbers of nanoseconds on one clock, without an upper bound.
-- `Ar::handle_connect` calls itself once, from `Idle`; the model calls the arm for `Idle`.
--
-- Numbers are natural numbers, with the wrap-around of a word written out where the code's sum can
-- reach it; `&`, `|` and shifts on separate bits are remainders, sums and products by powers of 2.
--
-- Loops: `BlockHeader::read_all` and the loop over nested records run on the buffer's length as
-- fuel, which is enough because every turn takes six bytes or more. The loop
-- over DCP blocks has the rest of the buffer's length as fuel; a turn takes four bytes or more.
--
-- The release build is the one that is modelled: the debug assertions on the lengths of DCP blocks are
-- left out, and the number of a call wraps. A slice of a list out of its range is short.
--
-- Not modelled: sockets, threads, the device loop, logging, configuration files and the text forms;
-- the histograms, the poll loop and the thread of the cyclic runner, the files that hold the I&M
-- records, the GSDML reader and the text names of channel errors.
pub mod Prelude
pub mod Eth
pub mod Rt
pub mod Rpc
pub mod Cm
pub mod Alarm
pub mod Examples
pub mod Im
pub mod Dcp
pub mod Diag
pub mod Data
