-- ===== src/Tx/Canwrite.antt =====
-- src/endpoint.cpp, `Endpoint::handle_canwrite`: when an endpoint no longer waits for its device.
use mavlink_router.Prelude.{
  zero, suc, ◌≡◌, ◌≢◌, refl, ◌⊎◌, inl, inr, true, false, [], arith, Bool-cases, is_some,
}
use mavlink_router.Os.{Ret, count, failed}
use mavlink_router.Tx.{Uart, uart_flush, Sock, udp_flush, tcp_flush, handle_canwrite}
use mavlink_router.Tx.Serial.{empty-eq-nil}

canwrite-uart :
    (system : Ret) (u : Uart)
    → system ≢ count 0
    → is_some u.fd ≡ true
    → handle_canwrite (λ u. u.tx) (uart_flush system u) ≡ false
    → (uart_flush system u).after.tx.pending ≡ []
unfolding uart_flush
canwrite-uart (count zero) u progress opened stop = absurd (progress refl)
canwrite-uart (count (suc n)) u progress opened stop = empty-eq-nil _ (ground (arith, opened, stop))
canwrite-uart (failed e) u progress opened stop = empty-eq-nil _ (ground (arith, opened, stop))

canwrite-udp :
    (system : Ret) (s : Sock)
    → system ≢ count 0
    → is_some s.fd ≡ true
    → handle_canwrite (λ s. s.tx) (udp_flush system s) ≡ false
    → (udp_flush system s).after.tx.pending ≡ []
unfolding udp_flush
canwrite-udp (count zero) s progress opened stop = absurd (progress refl)
canwrite-udp (count (suc n)) s progress opened stop = empty-eq-nil _ (ground (arith, opened, stop))
canwrite-udp (failed e) s progress opened stop = empty-eq-nil _ (ground (arith, opened, stop))

canwrite-tcp :
    (system : Ret) (s : Sock)
    → system ≢ count 0
    → is_some s.fd ≡ true
    → handle_canwrite (λ s. s.tx) (tcp_flush system s) ≡ false
    → (tcp_flush system s).after.tx.pending ≡ []
unfolding tcp_flush
canwrite-tcp (count zero) s progress opened stop = absurd (progress refl)
canwrite-tcp (count (suc n)) s progress opened stop = empty-eq-nil _ (ground (arith, opened, stop))
canwrite-tcp (failed e) s progress opened stop = empty-eq-nil _ (ground (arith, opened, stop))

-- An endpoint whose descriptor is open stops to wait for EPOLLOUT, as `handle_canwrite` returns false,
-- only when nothing is pending any more: this holds of UART, UDP and TCP. A write that is not refused
-- is taken to write something.
pub handle_canwrite_drains :
    (system : Ret) (u : Uart) (s : Sock)
    → system ≢ count 0
    → is_some u.fd ≡ true
    → is_some s.fd ≡ true
    → ((handle_canwrite (λ u. u.tx) (uart_flush system u) ≡ true)
        ⊎ ((uart_flush system u).after.tx.pending ≡ []))
      × ((handle_canwrite (λ s. s.tx) (udp_flush system s) ≡ true)
          ⊎ ((udp_flush system s).after.tx.pending ≡ []))
      × ((handle_canwrite (λ s. s.tx) (tcp_flush system s) ≡ true)
          ⊎ ((tcp_flush system s).after.tx.pending ≡ []))
handle_canwrite_drains system u s progress open₁ open₂ = (
  elim (Bool-cases (handle_canwrite (λ u. u.tx) (uart_flush system u))) [
    | inl more ↦ inl more
    | inr stop ↦ inr (canwrite-uart system u progress open₁ stop)
  ],
  elim (Bool-cases (handle_canwrite (λ s. s.tx) (udp_flush system s))) [
    | inl more ↦ inl more
    | inr stop ↦ inr (canwrite-udp system s progress open₂ stop)
  ],
  elim (Bool-cases (handle_canwrite (λ s. s.tx) (tcp_flush system s))) [
    | inl more ↦ inl more
    | inr stop ↦ inr (canwrite-tcp system s progress open₂ stop)
  ],
)
