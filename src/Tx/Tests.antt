-- ===== src/Tx/Tests.antt =====
-- The endpoints' writes at concrete inputs.
use mavlink_router.Prelude.{◌⊎◌, ℕ, ◌≡◌, refl, ◌≢◌, true, false, none, some, List, [], ◌∷◌, arith}
use mavlink_router.Os.{count, failed, eagain}
use mavlink_router.Message.{Msg}
use mavlink_router.Tx.Canwrite.{handle_canwrite_drains}
use mavlink_router.Tx.{
  uart_flush, udp_flush, tcp_flush, handle_canwrite, TxBuf, Uart, uart_write_msg, Sock,
  udp_write_msg, tcp_write_msg,
}
use mavlink_router.Tx.Serial.{IsWithin, Fate, uart_write_msg-Fate}
use mavlink_router.Tx.Network.{Keeps, write_msg-Keeps, write_msg-IsWithin}

abbrev packet : Msg
packet = record {
  bytes = 1 ∷ 2 ∷ 3 ∷ [];
  msg_id = 0;
  target_sysid = none;
  target_compid = none;
  src_sysid = 1;
  src_compid = 1;
  payload_len = 0;
  payload_ofs = 0;
}

abbrev buffer_of : List ℕ → TxBuf
buffer_of pending = record { pending = pending; bytes = 0; total = 0 }

abbrev serial : Uart
serial = record { fd = some 4; tx = buffer_of (9 ∷ []) }

no_zero : count 2 ≢ count 0
no_zero e = cc

uart_write_msg-Fate_example : Fate (count 2) packet serial (uart_write_msg (count 2) packet serial)
uart_write_msg-Fate_example = uart_write_msg-Fate (count 2) packet serial no_zero

abbrev socket : List ℕ → Sock
socket pending = record {
  fd = some 5;
  tx = buffer_of pending;
  has_peer = true;
  coalesce_bytes = 0;
  coalesce_ms = 0;
  coalesce_nodelay = [];
  timer = 0;
  write_scheduled = false;
  valid = true;
  retry_timeout = 5;
  reconnects = 0;
}

write_msg-Keeps_example :
    Keeps packet
      (socket (9 ∷ []))
      (udp_write_msg (failed eagain) (count 4) packet (socket (9 ∷ [])))
    × Keeps packet
        (socket (9 ∷ []))
        (tcp_write_msg (failed eagain) (count 4) packet (socket (9 ∷ [])))
write_msg-Keeps_example =
    write_msg-Keeps (failed eagain) (count 4) packet (socket (9 ∷ [])) refl tt refl

write_msg-IsWithin_example :
    IsWithin (udp_write_msg (count 0) (count 2) packet (socket [])).after.tx
    × IsWithin (tcp_write_msg (count 0) (count 2) packet (socket [])).after.tx
write_msg-IsWithin_example = write_msg-IsWithin (count 0) (count 2) packet (socket []) (omega arith)

handle_canwrite_drains_example :
    ((handle_canwrite (λ u. u.tx) (uart_flush (count 2) serial) ≡ true)
      ⊎ ((uart_flush (count 2) serial).after.tx.pending ≡ []))
    × ((handle_canwrite (λ s. s.tx) (udp_flush (count 2) (socket (9 ∷ []))) ≡ true)
        ⊎ ((udp_flush (count 2) (socket (9 ∷ []))).after.tx.pending ≡ []))
    × ((handle_canwrite (λ s. s.tx) (tcp_flush (count 2) (socket (9 ∷ []))) ≡ true)
        ⊎ ((tcp_flush (count 2) (socket (9 ∷ []))).after.tx.pending ≡ []))
handle_canwrite_drains_example =
    handle_canwrite_drains (count 2) serial (socket (9 ∷ [])) no_zero refl refl
