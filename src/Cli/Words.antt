-- ===== src/Cli/Words.antt =====
-- src/main.cpp, `parse_argv`: what one word of the command line adds.
use mavlink_router.Prelude.{
  ℕ, ◌≡◌, refl, sym, ap, ◌∙◌, ◌⊎◌, inl, inr, true, false, ◌&&◌, not, Option, none, some, List, [],
  ◌∷◌, ◌++◌, append-nil, ◌==◌, ==_iff, if◌then◌else◌, Bool-cases,
}
use mavlink_router.Text.{Bytes}
use mavlink_router.Throttle.{is_empty}
use mavlink_router.Groups.Link.{same_text}
use mavlink_router.Commands.{client, server, UdpConfig}
use mavlink_router.Cli.{
  cli_name, default_baudrate, ulong_max, TcpConfig, UartConfig, Configuration, Tools, Parsed,
  parsed, invalid, validate_udp, validate_tcp, validate_uart, find_next_udp_port,
  split_on_last_colon, last_colon, cli_udp, add_udp, parse_endpoint, parse_tcp_endpoint,
  parse_positional,
}
use mavlink_router.Cli.Asked.{
  Word, option_e, option_p, argument, a_uart, a_udp, a_tcp, is_valid, Asks, asks_client,
  asks_client_anywhere, asks_tcp, asks_server, asks_serial, asks_serial_default, no_words, one_word,
  uarts_of, udps_of, tcps_of, Adds,
}

pub add_udp-Adds :
    (o : Tools) (w : Word) (udp : UdpConfig) (c : Configuration)
    → Asks o w (a_udp udp)
    → Adds o (w ∷ []) c (add_udp udp c)
unfolding add_udp Adds is_valid uarts_of udps_of tcps_of
add_udp-Adds o w udp c a = elim (Bool-cases (validate_udp udp)) [
  | inl ok ↦ rw ok (
    a_udp udp ∷ [],
    one_word a ok no_words,
    record { uarts = sym (append-nil _); udps = refl; tcps = sym (append-nil _) },
  )
  | inr bad ↦ rw bad tt
]

find_next_udp_port_lem :
    (ip : Bytes) (cs : List UdpConfig)
    → (find_next_udp_port ip cs ≡ 14550) ⊎ (find_next_udp_port ip cs ≡ 14551)
unfolding find_next_udp_port
find_next_udp_port_lem ip [] = inl refl
find_next_udp_port_lem ip (c ∷ cs) = elim (Bool-cases (same_text ip c.address && c.port == 14550)) [
  | inl used ↦ rw used (inr refl)
  | inr free ↦ rw free (find_next_udp_port_lem ip cs)
]

pub parse_endpoint-Adds :
    (o : Tools) (arg : Bytes) (c : Configuration)
    → Adds o (option_e arg ∷ []) c (parse_endpoint o arg c)
unfolding parse_endpoint Adds
parse_endpoint-Adds o arg c = go (split_on_last_colon o arg) refl
  where
    go :
        (s : Option (Bytes × ℕ))
        → split_on_last_colon o arg ≡ s
        → Adds o (option_e arg ∷ []) c (elim s as (λ _. Parsed) [
          | none ↦ invalid
          | some a ↦
              add_udp
                (cli_udp client a.0
                  (if a.1 == ulong_max then find_next_udp_port [] c.udp_configs else a.1))
                c
        ])
    go none e = tt
    go (some (ip, port)) e = elim (Bool-cases (port == ulong_max)) [
      | inl missing ↦
          let none_given : port ≡ ulong_max = (==_iff port ulong_max).0 missing in
          rw missing (
            add_udp-Adds o _ _ c (
              asks_client_anywhere arg ip _ (e ∙ ap (λ n. some (ip, n)) none_given)
                (find_next_udp_port_lem [] c.udp_configs)))
      | inr given ↦ rw given (add_udp-Adds o _ _ c (asks_client arg ip port e given))
    ]

pub parse_tcp_endpoint-Adds :
    (o : Tools) (arg : Bytes) (c : Configuration)
    → Adds o (option_p arg ∷ []) c (parse_tcp_endpoint o arg c)
unfolding parse_tcp_endpoint Adds is_valid uarts_of udps_of tcps_of
parse_tcp_endpoint-Adds o arg c = elim_split (split_on_last_colon o arg) refl
  where
    elim_split :
        (s : Option (Bytes × ℕ))
        → split_on_last_colon o arg ≡ s
        → Adds o (option_p arg ∷ []) c (elim s as (λ _. Parsed) [
          | none ↦ invalid
          | some a ↦
              let tcp : TcpConfig = record { name = cli_name; address = a.0; port = a.1 } in
              if a.1 == ulong_max
              then invalid
              else if validate_tcp tcp
              then parsed (record c { tcp_configs = c.tcp_configs ++ (tcp ∷ []) })
              else invalid
        ])
    elim_split none e = tt
    elim_split (some (ip, port)) e = elim (Bool-cases (port == ulong_max)) [
      | inl missing ↦ rw missing tt
      | inr given ↦
          let tcp : TcpConfig = record { name = cli_name; address = ip; port = port } in
          elim (Bool-cases (validate_tcp tcp)) [
            | inl ok ↦
                rw (given, ok)
                  (
                    a_tcp tcp ∷ [],
                    one_word (asks_tcp arg ip port e) ok no_words,
                    record { uarts = sym (append-nil _); udps = sym (append-nil _); tcps = refl },
                  )
            | inr bad ↦ rw (given, bad) tt
          ]
    ]

-- A path that is a device is not empty.
device_filled :
    (o : Tools) (base : Bytes)
    → o.is_char_device [] ≡ false
    → o.is_char_device base ≡ true
    → not (is_empty base) ≡ true
device_filled o [] h k = cc
device_filled o (x ∷ xs) h k = refl

-- A number behind the last colon stands there.
colon_of :
    (o : Tools) (arg base : Bytes) (number : ℕ)
    → split_on_last_colon o arg ≡ some (base, number)
    → number == ulong_max ≡ false
    → (behind : Bytes) × (last_colon arg ≡ some (base, behind))
unfolding split_on_last_colon
colon_of o arg base number e given = go (last_colon arg) refl
  where
    with_number :
        (before behind : Bytes) (n : Option ℕ)
        → o.safe_atoul behind ≡ n
        → last_colon arg ≡ some (before, behind)
        → before ≡ base
    with_number before behind none k l =
        let never : none ≡ some (base, number) = rw (split_on_last_colon, l, k) at e in cc
    with_number before behind (some n) k l =
        let same : some (before, n) ≡ some (base, number) = rw (split_on_last_colon, l, k) at e in
        cc

    go :
        (l : Option (Bytes × Bytes))
        → last_colon arg ≡ l
        → (behind : Bytes) × (last_colon arg ≡ some (base, behind))
    go none l =
        let same : some (arg, ulong_max) ≡ some (base, number) = rw (split_on_last_colon, l) at e in
        let missing : number ≡ ulong_max = cc in
        let never : true ≡ false = sym ((==_iff number ulong_max).1 missing) ∙ given in cc
    go (some (before, behind)) l = (
      behind,
      l ∙ ap (λ b. some (b, behind)) (with_number before behind (o.safe_atoul behind) refl l),
    )

-- The baud rate of a serial device.
device_word :
    (o : Tools) (arg base bauds : Bytes) (number : ℕ)
    → split_on_last_colon o arg ≡ some (base, number)
    → ((behind : Bytes) → last_colon arg ≡ some (base, behind) → bauds ≡ behind)
    → o.is_char_device base ≡ true
    → Asks o (argument arg) (
        a_uart (record {
          name = cli_name;
          device = base;
          baudrates = (if number == ulong_max then default_baudrate else o.atoi bauds) ∷ [];
        }))
device_word o arg base bauds number e b d = elim (Bool-cases (number == ulong_max)) [
  | inl missing ↦
      let none_given : number ≡ ulong_max = (==_iff number ulong_max).0 missing in
      rw missing (asks_serial_default arg base (e ∙ ap (λ n. some (base, n)) none_given) d)
  | inr given ↦
      let (behind, l) = colon_of o arg base number e given in
      rw (given, b behind l) (asks_serial arg base behind l d)
]

bauds_of : Bytes → Bytes
bauds_of arg = elim (last_colon arg) [ none ↦ [] | some (before, behind) ↦ behind ]

bauds_of_lem :
    (arg base behind : Bytes) → last_colon arg ≡ some (base, behind) → bauds_of arg ≡ behind
unfolding bauds_of
bauds_of_lem arg base behind l = rw (bauds_of, l) refl

pub parse_positional-Adds :
    (o : Tools) (arg : Bytes) (c : Configuration)
    → o.is_char_device [] ≡ false
    → Adds o (argument arg ∷ []) c (parse_positional o arg c)
unfolding parse_positional Adds validate_uart is_valid uarts_of udps_of tcps_of bauds_of
parse_positional-Adds o arg c h = go (split_on_last_colon o arg) refl
  where
    go :
        (s : Option (Bytes × ℕ))
        → split_on_last_colon o arg ≡ s
        → Adds o (argument arg ∷ []) c (elim s as (λ _. Parsed) [
          | none ↦ invalid
          | some a ↦
              let uart : UartConfig = record {
                name = cli_name;
                device = a.0;
                baudrates =
                    (if a.1 == ulong_max then default_baudrate else o.atoi (bauds_of arg)) ∷ [];
              } in
              if o.is_char_device a.0
              then parsed (record c { uart_configs = c.uart_configs ++ (uart ∷ []) })
              else if a.1 == ulong_max
              then invalid
              else add_udp (cli_udp server a.0 a.1) c
        ])
    go none e = tt
    go (some (base, number)) e = elim (Bool-cases (o.is_char_device base)) [
      | inl device ↦ rw device (
        a_uart _ ∷ [],
        one_word (device_word o arg base (bauds_of arg) number e (bauds_of_lem arg base) device)
            (device_filled o base h device) no_words,
        record { uarts = refl; udps = sym (append-nil _); tcps = sym (append-nil _) },
      )
      | inr address ↦ elim (Bool-cases (number == ulong_max)) [
        | inl missing ↦ rw (address, missing) tt
        | inr given ↦
            rw (address, given) (add_udp-Adds o _ _ c (asks_server arg base number e address))
      ]
    ]
