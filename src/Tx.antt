-- ===== src/Tx.antt =====
-- src/endpoint.cpp: `write_msg` and `flush_pending_msgs` of the UART, UDP and TCP endpoints.
pub mod Serial
pub mod Network
pub mod Canwrite
mod Tests
use mavlink_router.Prelude.{
  ℕ, ◌+◌, ◌%◌, ◌^◌, Bool, true, false, ◌&&◌, ◌||◌, not, Option, none, some, List, [], ◌∷◌, ◌++◌,
  ltb, ◌==◌, if◌then◌else◌, contains, length, take, drop, is_some,
}
use mavlink_router.Os.{
  Errno, eagain, enobufs, einval, epipe, Ret, count, failed, is_positive, is_eagain, is_epipe,
}
use mavlink_router.Message.{Msg}
use mavlink_router.Throttle.{is_empty}

abbrev pub tx_buf_max_size : ℕ
tx_buf_max_size = 8192

-- `tx_buf` and `_stat.write`
pub record TxBuf : Type 0 where
  pub pending : List ℕ
  pub bytes : ℕ
  pub total : ℕ

-- The result of an operation, the bytes that the system took in it, and the endpoint after it.
pub record Wrote (S : Type 0) : Type 0 where
  pub result : Ret
  pub sent : List ℕ
  pub after : S

-- After a `write` or `sendto` that took `n` bytes: `tx_buf.len` stops at 0.
abbrev pub consume : ℕ → TxBuf → TxBuf
consume n t = record t { pending = drop n t.pending; bytes = (t.bytes + n) % 2 ^ 64 }

abbrev pub append : Msg → TxBuf → TxBuf
append m t = record t { pending = t.pending ++ m.bytes }

abbrev pub count_write : TxBuf → TxBuf
count_write t = record t { total = (t.total + 1) % 2 ^ 32 }

abbrev pub discard : TxBuf → TxBuf
discard t = record t { pending = [] }

-- `tx_buf.len + pbuf->len > limit`
abbrev pub overflows : ℕ → Msg → TxBuf → Bool
overflows limit m t = ltb limit (length t.pending + length m.bytes)

-- `Endpoint::handle_canwrite`, after the flush that it starts with: whether EPOLLOUT stays armed.
abbrev pub handle_canwrite : {S : Type 0} → (S → TxBuf) → Wrote S → Bool
handle_canwrite tx w =
    is_eagain w.result || (is_positive w.result && not (is_empty (tx w.after).pending))

-- The UART endpoint. `system` is what `write` returns.
pub record Uart : Type 0 where
  pub fd : Option ℕ
  pub tx : TxBuf

pub uart_flush : Ret → Uart → Wrote Uart
uart_flush system u =
    let wrote : Wrote Uart = elim system [
      | count n ↦ record {
        result = count n;
        sent = take n u.tx.pending;
        after = record u { tx = consume n u.tx };
      }
      | failed e ↦ record {
        result = failed e;
        sent = [];
        after = if is_eagain (failed e) then u else record u { tx = discard u.tx };
      }
    ] in
    if is_empty u.tx.pending
    then record { result = count 0; sent = []; after = u }
    else if not (is_some u.fd)
    then record { result = failed einval; sent = []; after = u }
    else wrote

pub uart_write_msg : Ret → Msg → Uart → Wrote Uart
uart_write_msg system m u =
    let flushed = uart_flush system (record u { tx = count_write (append m u.tx) }) in
    let written : Wrote Uart =
      if overflows tx_buf_max_size m u.tx
      then record { result = failed enobufs; sent = []; after = u }
      else if is_positive flushed.result && not (is_empty flushed.after.tx.pending)
      then record flushed { result = failed eagain }
      else flushed in
    if not (is_some u.fd) then record { result = failed einval; sent = []; after = u } else written

-- A UDP or TCP endpoint. `timer` is the time for which `_write_schedule_timer` is armed, 0 if it is
-- not. A TCP endpoint has always a peer; `valid`, `retry_timeout` and `reconnects`, the timers that
-- `_schedule_reconnect` has started, are for TCP alone.
pub record Sock : Type 0 where
  pub fd : Option ℕ
  pub tx : TxBuf
  pub has_peer : Bool
  pub coalesce_bytes : ℕ
  pub coalesce_ms : ℕ
  pub coalesce_nodelay : List ℕ
  pub timer : ℕ
  pub write_scheduled : Bool
  pub valid : Bool
  pub retry_timeout : ℕ
  pub reconnects : ℕ

abbrev pub stop_timer : Sock → Sock
stop_timer s = record s { timer = 0; write_scheduled = false }

-- `_schedule_write`
pub schedule_write : Sock → Sock
schedule_write s =
    if s.write_scheduled then s else record s { timer = s.coalesce_ms; write_scheduled = true }

-- `UdpEndpoint::flush_pending_msgs`, where `system` is what `sendto` returns.
pub udp_flush : Ret → Sock → Wrote Sock
udp_flush system s₀ =
    let s = stop_timer s₀ in
    let wrote : Wrote Sock = elim system [
      | count n ↦ record {
        result = count n;
        sent = take n s.tx.pending;
        after = record s { tx = consume n (count_write s.tx) };
      }
      | failed e ↦ record {
        result = failed e;
        sent = [];
        after = if is_eagain (failed e) then s else record s { tx = discard s.tx };
      }
    ] in
    let addressed : Wrote Sock =
      if not s.has_peer
      then record { result = count 0; sent = []; after = record s { tx = discard s.tx } }
      else wrote in
    if is_empty s.tx.pending
    then record { result = count 0; sent = []; after = s }
    else if not (is_some s.fd)
    then record { result = failed einval; sent = []; after = s }
    else addressed

-- `TcpEndpoint::close`
pub tcp_close : Sock → Sock
tcp_close s = record s { fd = none; tx = discard s.tx }

-- `TcpEndpoint::_schedule_reconnect`; the new timer is taken to have been made.
pub schedule_reconnect : Sock → Sock
unfolding tcp_close
schedule_reconnect s =
    if ltb 0 s.retry_timeout then record (tcp_close s) { reconnects = s.reconnects + 1 } else s

-- Where the other side has gone: reconnect, or give the endpoint up.
pub tcp_hang_up : Sock → Sock
unfolding schedule_reconnect
tcp_hang_up s =
    if ltb 0 s.retry_timeout
    then record (schedule_reconnect s) { valid = true }
    else record s { valid = false }

-- `TcpEndpoint::flush_pending_msgs`
pub tcp_flush : Ret → Sock → Wrote Sock
unfolding tcp_hang_up
tcp_flush system s₀ =
    let s = stop_timer s₀ in
    let wrote : Wrote Sock = elim system [
      | count n ↦ record {
        result = count n;
        sent = take n s.tx.pending;
        after = record s { tx = consume n (count_write s.tx) };
      }
      | failed e ↦ record {
        result = failed e;
        sent = [];
        after =
            if is_eagain (failed e)
            then s
            else if is_epipe (failed e)
            then tcp_hang_up (record s { tx = discard s.tx })
            else record s { tx = discard s.tx };
      }
    ] in
    if is_empty s.tx.pending
    then record { result = count 0; sent = []; after = s }
    else if not (is_some s.fd)
    then record { result = count 0; sent = []; after = s }
    else wrote

-- `write_msg` of the UDP and the TCP endpoint, from the first look at the buffer on. The flush before
-- the message is appended gets `system₁`, the one behind it `system₂`.
pub coalesce_msg : (Ret → Sock → Wrote Sock) → Ret → Ret → Msg → Sock → Wrote Sock
unfolding schedule_write
coalesce_msg flush system₁ system₂ m s =
    let first : Wrote Sock =
      if not (is_empty s.tx.pending) && overflows s.coalesce_bytes m s.tx
      then flush system₁ s
      else record { result = count 0; sent = []; after = s } in
    let s' = first.after in
    let appended = record s' { tx = append m s'.tx } in
    let second = flush system₂ appended in
    if overflows tx_buf_max_size m s'.tx
    then record { result = failed enobufs; sent = first.sent; after = s' }
    else if s'.coalesce_bytes == 0
        || s'.coalesce_ms == 0
        || contains m.msg_id s'.coalesce_nodelay
        || ltb s'.coalesce_bytes (length m.bytes)
    then record second { sent = first.sent ++ second.sent }
    else record {
      result = count (length m.bytes);
      sent = first.sent;
      after = schedule_write appended;
    }

pub udp_write_msg : Ret → Ret → Msg → Sock → Wrote Sock
udp_write_msg system₁ system₂ m s =
    if not s.has_peer
    then record { result = count 0; sent = []; after = s }
    else coalesce_msg udp_flush system₁ system₂ m s

pub tcp_write_msg : Ret → Ret → Msg → Sock → Wrote Sock
tcp_write_msg system₁ system₂ m s = coalesce_msg tcp_flush system₁ system₂ m s
