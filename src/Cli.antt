-- ===== src/Cli.antt =====
-- src/main.cpp, the command line; and the checks of an endpoint's configuration in src/endpoint.cpp. What
-- `getopt_long` returns, `strtoul`, `atoi` (its 32 low bits) and `stat` are parameters.
pub mod Address
pub mod Asked
pub mod Colon
pub mod Words
pub mod Valid
mod Tests
use mavlink_router.Prelude.{
  ℕ, ◌+◌, ◌-◌, ◌%◌, ◌^◌, Bool, true, false, ◌&&◌, ◌||◌, not, Option, none, some, List, [], ◌∷◌,
  ◌++◌, leb, ltb, ◌==◌, if◌then◌else◌,
}
use mavlink_router.Os.{Ret, is_failure}
use mavlink_router.Text.{Bytes, memcaseeq}
use mavlink_router.Throttle.{is_empty}
use mavlink_router.Filter.{no_filters}
use mavlink_router.Groups.Link.{same_text}
use mavlink_router.Commands.{Mode, undefined, server, client, UdpConfig}
use mavlink_router.Cli.Address.{validate_ip}

abbrev pub ulong_max : ℕ
ulong_max = 2 ^ 64 - 1

-- `Log::Level`
pub data Level : Type 0 where
  error warning info debug trace : Level

-- The fields of `TcpEndpointConfig` and `UartEndpointConfig` that the command line sets.
pub record TcpConfig : Type 0 where
  pub name : Bytes
  pub address : Bytes
  pub port : ℕ

pub record UartConfig : Type 0 where
  pub name : Bytes
  pub device : Bytes
  pub baudrates : List ℕ

-- `Configuration`, with the fields of `log_config` that the command line sets.
pub record Configuration : Type 0 where
  pub conf_file_name : Bytes
  pub conf_dir : Bytes
  pub tcp_port : ℕ
  pub report_msg_statistics : Bool
  pub debug_log_level : Level
  pub syslog : Bool
  pub logs_dir : Bytes
  pub log_telemetry : Bool
  pub uart_configs : List UartConfig
  pub udp_configs : List UdpConfig
  pub tcp_configs : List TcpConfig
  pub sniffer_sysid : ℕ

-- An option that `getopt_long` returns, with `optarg`.
pub data Opt : Type 0 where
  opt_help opt_report_stats opt_telemetry opt_verbose opt_syslog opt_version opt_unknown : Opt
  opt_endpoint opt_tcp_port opt_log opt_log_level opt_sniffer opt_tcp_endpoint : Bytes → Opt
  opt_conf_file opt_conf_dir : Bytes → Opt

-- What the parsing of the command line uses: `safe_atoul`, `none` for an error; `atoi`; and whether
-- `stat` finds a character device.
pub record Tools : Type 0 where
  pub safe_atoul : Bytes → Option ℕ
  pub atoi : Bytes → ℕ
  pub is_char_device : Bytes → Bool

-- The return value of `parse_argv`: 2 with the configuration, 0, or -EINVAL.
pub data Parsed : Type 0 where
  parsed : Configuration → Parsed
  helped invalid : Parsed

-- `UdpEndpoint::validate_config`, `TcpEndpoint::validate_config` and `UartEndpoint::validate_config`
pub is_known : Mode → Bool
is_known undefined = false
is_known _ = true

pub validate_udp : UdpConfig → Bool
validate_udp c =
    not (is_empty c.address)
    && (validate_ip c.address && (not (c.port == 0 || c.port == ulong_max) && is_known c.mode))

pub validate_tcp : TcpConfig → Bool
validate_tcp c =
    not (is_empty c.address) && (validate_ip c.address && not (c.port == 0 || c.port == ulong_max))

pub validate_uart : UartConfig → Bool
validate_uart c = not (is_empty c.baudrates) && not (is_empty c.device)

-- `find_next_udp_port`
pub find_next_udp_port : Bytes → List UdpConfig → ℕ
find_next_udp_port ip [] = 14550
find_next_udp_port ip (c ∷ cs) =
    let rest = find_next_udp_port ip cs in
    if same_text ip c.address && c.port == 14550 then 14550 + 1 else rest

-- `strrchr` for a colon: what stands before the last one, and behind it.
pub last_colon : Bytes → Option (Bytes × Bytes)
last_colon [] = none
last_colon (c ∷ cs) = elim (last_colon cs) [
  | some (before, behind) ↦ some (c ∷ before, behind)
  | none ↦ if c == b':' then some ([], cs) else none
]

-- `split_on_last_colon`: `none` for -EINVAL, else the base and the number.
pub split_on_last_colon : Tools → Bytes → Option (Bytes × ℕ)
split_on_last_colon o str = elim (last_colon str) [
  | none ↦ some (str, ulong_max)
  | some (base, number) ↦ elim (o.safe_atoul number) [ none ↦ none | some n ↦ some (base, n) ]
]

-- `log_level_from_str`: `none` where it throws.
pub log_level_from_str : Bytes → Option Level
log_level_from_str str =
    if memcaseeq str (b'e' ∷ b'r' ∷ b'r' ∷ b'o' ∷ b'r' ∷ [])
    then some error
    else if memcaseeq str (b'w' ∷ b'a' ∷ b'r' ∷ b'n' ∷ b'i' ∷ b'n' ∷ b'g' ∷ [])
    then some warning
    else if memcaseeq str (b'i' ∷ b'n' ∷ b'f' ∷ b'o' ∷ [])
    then some info
    else if memcaseeq str (b'd' ∷ b'e' ∷ b'b' ∷ b'u' ∷ b'g' ∷ [])
    then some debug
    else if memcaseeq str (b't' ∷ b'r' ∷ b'a' ∷ b'c' ∷ b'e' ∷ [])
    then some trace
    else none

abbrev pub cli_name : Bytes
cli_name = b'C' ∷ b'L' ∷ b'I' ∷ []

abbrev pub default_baudrate : ℕ
default_baudrate = 115200

-- An `UdpEndpointConfig` with the fields that the command line sets; the others are zero or empty.
pub cli_udp : Mode → Bytes → ℕ → UdpConfig
cli_udp mode address port = record {
  name = cli_name;
  address = address;
  port = port;
  mode = mode;
  filters = no_filters;
  group = [];
  coalesce_bytes = 0;
  coalesce_ms = 0;
  coalesce_nodelay = [];
}

pub add_udp : UdpConfig → Configuration → Parsed
add_udp udp c =
    if validate_udp udp
    then parsed (record c { udp_configs = c.udp_configs ++ (udp ∷ []) })
    else invalid

-- Case 'e'. The address is not yet set when `find_next_udp_port` is called with it.
pub parse_endpoint : Tools → Bytes → Configuration → Parsed
parse_endpoint o arg c = elim (split_on_last_colon o arg) [
  | none ↦ invalid
  | some (ip, port) ↦
      add_udp
        (cli_udp client ip
          (if port == ulong_max then find_next_udp_port [] c.udp_configs else port))
        c
]

-- Case 'p'
pub parse_tcp_endpoint : Tools → Bytes → Configuration → Parsed
parse_tcp_endpoint o arg c = elim (split_on_last_colon o arg) [
  | none ↦ invalid
  | some (ip, port) ↦
      let tcp : TcpConfig = record { name = cli_name; address = ip; port = port } in
      if port == ulong_max
      then invalid
      else if validate_tcp tcp
      then parsed (record c { tcp_configs = c.tcp_configs ++ (tcp ∷ []) })
      else invalid
]

-- Case 's': a word of 16 bits.
pub parse_sniffer : Tools → Bytes → Configuration → Parsed
parse_sniffer o arg c =
    let id = o.atoi arg % 2 ^ 16 in
    if id == 0 || ltb 255 id then invalid else parsed (record c { sniffer_sysid = id })

-- A turn of the loop of `parse_argv` over the options.
pub parse_opt : Tools → Opt → Configuration → Parsed
parse_opt o opt_help c = helped
parse_opt o (opt_endpoint arg) c = parse_endpoint o arg c
parse_opt o opt_report_stats c = parsed (record c { report_msg_statistics = true })
parse_opt o (opt_tcp_port arg) c = elim (o.safe_atoul arg) [
  | none ↦ invalid
  | some port ↦ parsed (record c { tcp_port = port })
]
parse_opt o (opt_log arg) c = parsed (record c { logs_dir = arg })
parse_opt o opt_telemetry c = parsed (record c { log_telemetry = true })
parse_opt o (opt_log_level arg) c = elim (log_level_from_str arg) [
  | none ↦ invalid
  | some level ↦ parsed (record c { debug_log_level = level })
]
parse_opt o opt_verbose c = parsed (record c { debug_log_level = debug })
parse_opt o (opt_sniffer arg) c = parse_sniffer o arg c
parse_opt o (opt_tcp_endpoint arg) c = parse_tcp_endpoint o arg c
parse_opt o (opt_conf_file arg) c = parsed c
parse_opt o (opt_conf_dir arg) c = parsed c
parse_opt o opt_syslog c = parsed c
parse_opt o opt_version c = parsed c
parse_opt o opt_unknown c = invalid

-- An argument that is no option: a serial device, or the address of a UDP server.
pub parse_positional : Tools → Bytes → Configuration → Parsed
parse_positional o arg c = elim (split_on_last_colon o arg) [
  | none ↦ invalid
  | some (base, number) ↦
      let bauds : Bytes = elim (last_colon arg) [ none ↦ [] | some (before, behind) ↦ behind ] in
      let uart : UartConfig = record {
        name = cli_name;
        device = base;
        baudrates = (if number == ulong_max then default_baudrate else o.atoi bauds) ∷ [];
      } in
      if o.is_char_device base
      then parsed (record c { uart_configs = c.uart_configs ++ (uart ∷ []) })
      else if number == ulong_max
      then invalid
      else add_udp (cli_udp server base number) c
]

pub parse_positionals : Tools → List Bytes → Configuration → Parsed
parse_positionals o [] c = parsed c
parse_positionals o (arg ∷ args) c = elim (parse_positional o arg c) [
  | parsed d ↦ parse_positionals o args d
  | other ↦ other
]

-- `parse_argv`, for the options and then the arguments that are none.
pub parse_argv : Tools → List Opt → List Bytes → Configuration → Parsed
parse_argv o [] args c = parse_positionals o args c
parse_argv o (opt ∷ opts) args c = elim (parse_opt o opt c) [
  | parsed d ↦ parse_argv o opts args d
  | other ↦ other
]
