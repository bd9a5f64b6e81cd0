-- ===== src/Cli/Asked.antt =====
-- src/main.cpp, `parse_argv`: what a command line asks for.
use mavlink_router.Prelude.{
  ℕ, ◌≡◌, refl, ap, ◌∙◌, ◌⊎◌, Bool, true, false, some, List, [], ◌∷◌, ◌++◌, append_assoc,
  append-nil, sym, ◌==◌,
}
use mavlink_router.Text.{Bytes}
use mavlink_router.Commands.{client, server, UdpConfig}
use mavlink_router.Cli.{
  cli_name, default_baudrate, ulong_max, opt_help, opt_endpoint, opt_report_stats, opt_tcp_port,
  opt_log, opt_telemetry, opt_log_level, opt_verbose, opt_sniffer, opt_tcp_endpoint, opt_conf_file,
  opt_conf_dir, opt_syslog, opt_version, opt_unknown, TcpConfig, UartConfig, Configuration, Opt,
  Tools, Parsed, parsed, helped, invalid, validate_udp, validate_tcp, validate_uart, last_colon,
  split_on_last_colon, cli_udp,
}

-- The words of a command line that ask for an endpoint: `-e` or `-p` with its argument, or an argument
-- that belongs to no option.
pub data Word : Type 0 where
  option_e option_p argument : Bytes → Word

unfoldable pub option_words : Opt → List Word
option_words (opt_endpoint arg) = option_e arg ∷ []
option_words (opt_tcp_endpoint arg) = option_p arg ∷ []
option_words opt_help = []
option_words opt_report_stats = []
option_words (opt_tcp_port arg) = []
option_words (opt_log arg) = []
option_words opt_telemetry = []
option_words (opt_log_level arg) = []
option_words opt_verbose = []
option_words (opt_sniffer arg) = []
option_words (opt_conf_file arg) = []
option_words (opt_conf_dir arg) = []
option_words opt_syslog = []
option_words opt_version = []
option_words opt_unknown = []

unfoldable pub argument_words : List Bytes → List Word
argument_words [] = []
argument_words (arg ∷ args) = argument arg ∷ argument_words args

-- In the order in which they stand.
unfoldable pub words_of : List Opt → List Bytes → List Word
words_of [] args = argument_words args
words_of (opt ∷ opts) args = option_words opt ++ words_of opts args

-- An endpoint of any kind.
pub data AnyConfig : Type 0 where
  a_uart : UartConfig → AnyConfig
  a_udp : UdpConfig → AnyConfig
  a_tcp : TcpConfig → AnyConfig

unfoldable pub is_valid : AnyConfig → Bool
is_valid (a_uart u) = validate_uart u
is_valid (a_udp u) = validate_udp u
is_valid (a_tcp t) = validate_tcp t

-- Which endpoint a word asks for. What stands before its last colon is the address or the path, and the
-- number behind it the port or the baud rate. The option `-e` may have no port, and then gets one.
pub data Asks (o : Tools) : Word → AnyConfig → Type 0 where
  asks_client :
      (arg ip : Bytes) (port : ℕ)
      → split_on_last_colon o arg ≡ some (ip, port)
      → port == ulong_max ≡ false
      → Asks o (option_e arg) (a_udp (cli_udp client ip port))
  asks_client_anywhere :
      (arg ip : Bytes) (port : ℕ)
      → split_on_last_colon o arg ≡ some (ip, ulong_max)
      → (port ≡ 14550) ⊎ (port ≡ 14551)
      → Asks o (option_e arg) (a_udp (cli_udp client ip port))
  asks_tcp :
      (arg ip : Bytes) (port : ℕ)
      → split_on_last_colon o arg ≡ some (ip, port)
      → Asks o (option_p arg) (a_tcp (record { name = cli_name; address = ip; port = port }))
  asks_server :
      (arg ip : Bytes) (port : ℕ)
      → split_on_last_colon o arg ≡ some (ip, port)
      → o.is_char_device ip ≡ false
      → Asks o (argument arg) (a_udp (cli_udp server ip port))
  asks_serial :
      (arg path behind : Bytes)
      → last_colon arg ≡ some (path, behind)
      → o.is_char_device path ≡ true
      → Asks o
          (argument arg)
          (a_uart (record { name = cli_name; device = path; baudrates = o.atoi behind ∷ [] }))
  asks_serial_default :
      (arg path : Bytes)
      → split_on_last_colon o arg ≡ some (path, ulong_max)
      → o.is_char_device path ≡ true
      → Asks o
          (argument arg)
          (a_uart (record { name = cli_name; device = path; baudrates = default_baudrate ∷ [] }))

-- One valid endpoint for each word, in their order.
pub data Asked (o : Tools) : List Word → List AnyConfig → Type 0 where
  no_words : Asked o [] []
  one_word :
      {w : Word} {e : AnyConfig} {ws : List Word} {es : List AnyConfig}
      → Asks o w e
      → is_valid e ≡ true
      → Asked o ws es
      → Asked o (w ∷ ws) (e ∷ es)

pub Asked-append :
    {o : Tools} {ws vs : List Word} {es fs : List AnyConfig}
    → Asked o ws es
    → Asked o vs fs
    → Asked o (ws ++ vs) (es ++ fs)
Asked-append no_words b = b
Asked-append (one_word a v more) b = one_word a v (Asked-append more b)

-- The endpoints of each kind.
unfoldable pub uarts_of : List AnyConfig → List UartConfig
uarts_of [] = []
uarts_of (a_uart u ∷ es) = u ∷ uarts_of es
uarts_of (a_udp u ∷ es) = uarts_of es
uarts_of (a_tcp t ∷ es) = uarts_of es

unfoldable pub udps_of : List AnyConfig → List UdpConfig
udps_of [] = []
udps_of (a_uart u ∷ es) = udps_of es
udps_of (a_udp u ∷ es) = u ∷ udps_of es
udps_of (a_tcp t ∷ es) = udps_of es

unfoldable pub tcps_of : List AnyConfig → List TcpConfig
tcps_of [] = []
tcps_of (a_uart u ∷ es) = tcps_of es
tcps_of (a_udp u ∷ es) = tcps_of es
tcps_of (a_tcp t ∷ es) = t ∷ tcps_of es

-- The configuration `d` has the endpoints of `c`, and behind them these ones.
pub record Extends (es : List AnyConfig) (c d : Configuration) : Type 0 where
  pub uarts : d.uart_configs ≡ c.uart_configs ++ uarts_of es
  pub udps : d.udp_configs ≡ c.udp_configs ++ udps_of es
  pub tcps : d.tcp_configs ≡ c.tcp_configs ++ tcps_of es

-- If something was parsed, it extends what was there by what the words ask for.
unfoldable pub Adds : Tools → List Word → Configuration → Parsed → Type 0
Adds o ws c (parsed d) = (es : List AnyConfig) × Asked o ws es × Extends es c d
Adds o ws c helped = Unit
Adds o ws c invalid = Unit

uarts_of-append : (es fs : List AnyConfig) → uarts_of (es ++ fs) ≡ uarts_of es ++ uarts_of fs
unfolding uarts_of
uarts_of-append [] fs = refl
uarts_of-append (a_uart u ∷ es) fs = ap (λ us. u ∷ us) (uarts_of-append es fs)
uarts_of-append (a_udp u ∷ es) fs = uarts_of-append es fs
uarts_of-append (a_tcp t ∷ es) fs = uarts_of-append es fs

udps_of-append : (es fs : List AnyConfig) → udps_of (es ++ fs) ≡ udps_of es ++ udps_of fs
unfolding udps_of
udps_of-append [] fs = refl
udps_of-append (a_uart u ∷ es) fs = udps_of-append es fs
udps_of-append (a_udp u ∷ es) fs = ap (λ us. u ∷ us) (udps_of-append es fs)
udps_of-append (a_tcp t ∷ es) fs = udps_of-append es fs

tcps_of-append : (es fs : List AnyConfig) → tcps_of (es ++ fs) ≡ tcps_of es ++ tcps_of fs
unfolding tcps_of
tcps_of-append [] fs = refl
tcps_of-append (a_uart u ∷ es) fs = tcps_of-append es fs
tcps_of-append (a_udp u ∷ es) fs = tcps_of-append es fs
tcps_of-append (a_tcp t ∷ es) fs = ap (λ ts. t ∷ ts) (tcps_of-append es fs)

joined :
    {A : Type 0} (xs ys zs us vs : List A) → ys ≡ xs ++ us → zs ≡ ys ++ vs → zs ≡ xs ++ (us ++ vs)
joined xs ys zs us vs e f = f ∙ ap (λ l. l ++ vs) e ∙ append_assoc xs us vs

Extends-trans :
    (es fs : List AnyConfig) (b c d : Configuration)
    → Extends es b c
    → Extends fs c d
    → Extends (es ++ fs) b d
Extends-trans es fs b c d x y = record {
  uarts =
      joined _ _ _ _ _ x.uarts y.uarts
      ∙ ap (λ l. b.uart_configs ++ l) (sym (uarts_of-append es fs));
  udps = joined _ _ _ _ _ x.udps y.udps ∙ ap (λ l. b.udp_configs ++ l) (sym (udps_of-append es fs));
  tcps = joined _ _ _ _ _ x.tcps y.tcps ∙ ap (λ l. b.tcp_configs ++ l) (sym (tcps_of-append es fs));
}

pub Adds-onward :
    (o : Tools) (ws vs : List Word) (c d : Configuration) (r : Parsed)
    → Adds o ws c (parsed d)
    → Adds o vs d r
    → Adds o (ws ++ vs) c r
unfolding Adds
Adds-onward o ws vs c d (parsed f) (es, a, x) (fs, b, y) =
    (es ++ fs, Asked-append a b, Extends-trans es fs c d f x y)
Adds-onward o ws vs c d helped x y = tt
Adds-onward o ws vs c d invalid x y = tt

-- Nothing is added.
pub Adds-same :
    (o : Tools) (c d : Configuration)
    → d.uart_configs ≡ c.uart_configs
    → d.udp_configs ≡ c.udp_configs
    → d.tcp_configs ≡ c.tcp_configs
    → Adds o [] c (parsed d)
unfolding Adds uarts_of udps_of tcps_of
Adds-same o c d a b e = (
  [],
  no_words,
  record {
    uarts = a ∙ sym (append-nil _);
    udps = b ∙ sym (append-nil _);
    tcps = e ∙ sym (append-nil _);
  },
)
