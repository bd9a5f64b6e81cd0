-- ===== src/Cli/Tests.antt =====
-- src/main.cpp: command lines, and witnesses.
use mavlink_router.Prelude.{
  ℕ, ◌+◌, ◌*◌, ◌-◌, ◌≡◌, refl, true, false, Option, none, some, List, [], ◌∷◌, ◌++◌, map,
  if◌then◌else◌,
}
use mavlink_router.Text.{Bytes}
use mavlink_router.Groups.Link.{same_text}
use mavlink_router.Commands.{client, server}
use mavlink_router.Cli.{
  cli_name, TcpConfig, Configuration, info, opt_endpoint, opt_tcp_endpoint, opt_sniffer, Tools,
  Parsed, parsed, helped, invalid, validate_udp, validate_tcp, cli_udp, parse_argv, parse_opt,
  parse_endpoint, parse_sniffer, split_on_last_colon, last_colon, add_udp, is_known,
  find_next_udp_port, parse_positionals,
}
use mavlink_router.Cli.Address.{
  all_bytes, is_digit, validate_ip, validate_ipv4, validate_ipv6, is_octet, is_hextet, first_part,
  other_parts, every, is_hex, but_last,
}
use mavlink_router.Cli.Colon.{parse_argv_address}
use mavlink_router.Cli.Asked.{
  Adds, option_e, option_p, argument, words_of, option_words, argument_words,
}
use mavlink_router.Cli.Valid.{parse_argv-Adds}

decimal : ℕ → Bytes → ℕ
decimal n [] = n
decimal n (c ∷ cs) = decimal (n * 10 + (c - b'0')) cs

unsigned : Bytes → Option ℕ
unsigned [] = none
unsigned (c ∷ cs) = if all_bytes is_digit (c ∷ cs) then some (decimal 0 (c ∷ cs)) else none

-- No path is a device.
abbrev tools : Tools
tools = record { safe_atoul = unsigned; atoi = decimal 0; is_char_device = λ path. false }

abbrev defaults : Configuration
defaults = record {
  conf_file_name = [];
  conf_dir = [];
  tcp_port = 5760;
  report_msg_statistics = false;
  debug_log_level = info;
  syslog = false;
  logs_dir = [];
  log_telemetry = false;
  uart_configs = [];
  udp_configs = [];
  tcp_configs = [];
  sniffer_sysid = 0;
}

abbrev home : Bytes
home = b'1' ∷ b'.' ∷ b'1' ∷ b'.' ∷ b'1' ∷ b'.' ∷ b'1' ∷ []

abbrev home_9 : Bytes
home_9 = home ++ b':' ∷ b'9' ∷ []

-- `[::1]`
abbrev loopback : Bytes
loopback = b'[' ∷ b':' ∷ b':' ∷ b'1' ∷ b']' ∷ []

-- What the tests look at: the port of each UDP endpoint, and the id of the sniffer.
abbrev seen : Parsed → List ℕ × ℕ
seen (parsed c) = (map (λ u. u.port) c.udp_configs, c.sniffer_sysid)
seen helped = ([], 0)
seen invalid = ([], 0)

parse_argv-Adds_example :
    Adds tools
      (option_e home ∷ option_p home_9 ∷ argument home_9 ∷ [])
      defaults
      (parse_argv tools (opt_endpoint home ∷ opt_tcp_endpoint home_9 ∷ []) (home_9 ∷ []) defaults)
unfolding words_of option_words argument_words
parse_argv-Adds_example =
    parse_argv-Adds tools (opt_endpoint home ∷ opt_tcp_endpoint home_9 ∷ []) (home_9 ∷ []) defaults
      refl

parse_argv_address_example :
    let arg = loopback ++ b':' ∷ b'9' ∷ [] in
    let tcp : TcpConfig = record { name = cli_name; address = loopback; port = 9 } in
    (parse_argv tools (opt_endpoint arg ∷ []) [] defaults ≡ (
      if validate_udp (cli_udp client loopback 9)
      then parse_argv tools [] [] (record defaults { udp_configs = cli_udp client loopback 9 ∷ [] })
      else invalid))
    × (parse_argv tools (opt_tcp_endpoint arg ∷ []) [] defaults ≡ (
        if validate_tcp tcp
        then parse_argv tools [] [] (record defaults { tcp_configs = tcp ∷ [] })
        else invalid))
    × (parse_argv tools [] (arg ∷ []) defaults ≡ (
        if validate_udp (cli_udp server loopback 9)
        then parse_argv tools [] []
            (record defaults { udp_configs = cli_udp server loopback 9 ∷ [] })
        else invalid))
unfolding unsigned decimal all_bytes is_digit
parse_argv_address_example =
    parse_argv_address tools loopback (b'9' ∷ []) 9 [] [] defaults (refl, tt) refl refl refl

-- Two endpoints without a port get the same one, though their address is the same.
same_ports :
    seen (parse_argv tools (opt_endpoint home ∷ opt_endpoint home ∷ []) [] defaults)
    ≡ (14550 ∷ 14550 ∷ [], 0)
unfolding parse_argv parse_opt parse_endpoint split_on_last_colon last_colon add_udp validate_udp
    validate_ip validate_ipv4 validate_ipv6 is_octet is_hextet first_part other_parts every
    all_bytes is_digit is_hex but_last is_known cli_udp find_next_udp_port same_text
    parse_positionals
same_ports = refl

-- An IPv6 address is valid.
loopback_valid : validate_udp (cli_udp client loopback 9) ≡ true
unfolding validate_udp validate_ip validate_ipv4 validate_ipv6 is_octet is_hextet first_part
    other_parts every all_bytes is_digit is_hex but_last is_known cli_udp
loopback_valid = refl

-- 65537 is taken for 1.
sniffer_wraps :
    seen (parse_argv tools (opt_sniffer (b'6' ∷ b'5' ∷ b'5' ∷ b'3' ∷ b'7' ∷ []) ∷ []) [] defaults)
    ≡ ([], 1)
unfolding parse_argv parse_opt parse_sniffer decimal parse_positionals
sniffer_wraps = refl
