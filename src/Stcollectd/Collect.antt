-- ===== src/Stcollectd/Collect.antt =====
-- The loop of `collect` in src/stcollectd.c: datagrams are parsed into the current buffers, and both
-- buffers are handed to the writing thread when the interval is over or one of them is nearly full.
-- The queues stand in Stcollectd; here a flush appends the buffers to those that were handed over,
-- and the free buffers that it takes are given with the datagram.
pub mod Accounts
use sflow_toolkit.Base.{
  ℕ, ◌+◌, ◌-◌, ◌%◌, ◌^◌, List, [], ◌∷◌, ◌++◌, ◌==◌, leb, ◌||◌, Bool, if◌then◌else◌,
}
use sflow_toolkit.Base.Results.{Result, ok, fault, division_by_zero, ◌>>=◌}
use sflow_toolkit.Bytes.{Bytes}
use sflow_toolkit.Configparser.Settings.{StcollectdConfig}
use sflow_toolkit.Parser.Samples.{FlowSample, CntrSample}
use sflow_toolkit.Parser.Collect.{Buffer, Collector, parse_datagram}

abbrev pub max_datagram_samples : ℕ
max_datagram_samples = 10

-- What a call of `recvfrom` leaves: the receive buffer, its result, the source address, and the
-- times before the call and while the datagram is parsed.
pub record Received : Type 0 where
  pub bytes : Bytes
  pub bytes_received : ℕ
  pub s_addr : ℕ
  pub time_current : ℕ
  pub now : ℕ

pub record Fresh : Type 0 where
  pub flow : Buffer FlowSample
  pub cntr : Buffer CntrSample

pub record CollectLoop : Type 0 where
  pub collector : Collector
  pub total_datagrams : ℕ
  pub t : ℕ
  pub flushed : List Fresh

-- `(unsigned int)d_t >= flush_interval || count >= (buffer_size - MAX_DATAGRAM_SAMPLES) || …`
unfoldable pub wants_flush : StcollectdConfig → ℕ → Collector → Bool
wants_flush cfg d_t c =
    let limit = (cfg.buffer_size + 2 ^ 32 - max_datagram_samples) % 2 ^ 32 in
    leb cfg.flush_interval (d_t % 2 ^ 32) || (leb limit c.flow.count || leb limit c.cntr.count)

-- `flushLists`
unfoldable pub flush : Fresh → ℕ → CollectLoop → CollectLoop
flush fresh time_current s = record s {
  collector = record s.collector { flow = fresh.flow; cntr = fresh.cntr };
  flushed = s.flushed ++ (record { flow = s.collector.flow; cntr = s.collector.cntr } ∷ []);
  t = time_current;
}

-- `total_datagrams % print_interval`, which decides about a message only.
unfoldable pub remainder : ℕ → ℕ → Result ℕ
remainder n d = if d == 0 then fault division_by_zero else ok (n % d)

-- A turn of the loop.
unfoldable pub collect_one : StcollectdConfig → Received × Fresh → CollectLoop → Result CollectLoop
unfolding wants_flush flush remainder
collect_one cfg (r, fresh) s = do
  c ← parse_datagram r.bytes r.bytes_received r.now r.s_addr s.collector
  _ ← remainder ((s.total_datagrams + 1) % 2 ^ 64) cfg.print_interval
  (let t = if s.t == 0 then r.time_current else s.t in
      let d_t = r.time_current + 2 ^ 64 - t in
      let s' = record s {
        collector = c;
        total_datagrams = (s.total_datagrams + 1) % 2 ^ 64;
        t = t;
      } in
      ok (if wants_flush cfg d_t c then flush fresh r.time_current s' else s'))

unfoldable pub collect :
    StcollectdConfig → List (Received × Fresh) → CollectLoop → Result CollectLoop
unfolding collect_one
collect cfg [] s = ok s
collect cfg (r ∷ rs) s = do s' ← collect_one cfg r s; collect cfg rs s'
