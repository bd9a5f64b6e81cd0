-- ===== src/Cli/Colon.antt =====
-- src/main.cpp, `split_on_last_colon` and the options with an address.
use mavlink_router.Prelude.{
  ℕ, ◌≡◌, refl, inl, inr, false, none, some, List, [], ◌∷◌, ◌++◌, ◌==◌, if◌then◌else◌, All,
  Bool-cases,
}
use mavlink_router.Text.{Bytes}
use mavlink_router.Commands.{client, server}
use mavlink_router.Cli.{
  ulong_max, cli_name, TcpConfig, Configuration, Opt, opt_endpoint, opt_tcp_endpoint, Tools,
  invalid, last_colon, split_on_last_colon, validate_udp, validate_tcp, cli_udp, add_udp,
  parse_endpoint, parse_tcp_endpoint, parse_opt, parse_positional, parse_positionals, parse_argv,
}

-- A text without a colon.
abbrev pub HasNoColon : Bytes → Type 0
HasNoColon t = All (λ c. (c == b':') ≡ false) t

no_colon_found : (t : Bytes) → HasNoColon t → last_colon t ≡ none
unfolding last_colon
no_colon_found [] h = refl
no_colon_found (c ∷ cs) (h, hs) = rw (no_colon_found cs hs, h) refl

colon_found :
    (base number : Bytes)
    → HasNoColon number
    → last_colon (base ++ b':' ∷ number) ≡ some (base, number)
unfolding last_colon
colon_found [] number h = rw (no_colon_found number h) refl
colon_found (c ∷ cs) number h = rw (colon_found cs number h) refl

split_lem :
    (o : Tools) (base number : Bytes) (n : ℕ)
    → HasNoColon number
    → o.safe_atoul number ≡ some n
    → split_on_last_colon o (base ++ b':' ∷ number) ≡ some (base, n)
unfolding split_on_last_colon
split_lem o base number n h e = rw (split_on_last_colon, colon_found base number h, e) refl

-- An option `-e` or `-p`, or an argument that is no option and names no device, with an address and a
-- port behind its last colon, adds exactly the endpoint with this address, also an IPv6 address with
-- colons of its own, and this port, in the mode `Client` for `-e` and `Server` for an argument, and the
-- parsing goes on; or it makes `parse_argv` return -EINVAL, if the check of the endpoint fails. The port
-- is one that `safe_atoul` reads, other than ULONG_MAX, and written without a colon; and the address is not
-- the path of a device.
pub parse_argv_address :
    (o : Tools) (ip number : Bytes) (port : ℕ) (opts : List Opt) (args : List Bytes)
    (c : Configuration)
    → HasNoColon number
    → o.safe_atoul number ≡ some port
    → (port == ulong_max) ≡ false
    → o.is_char_device ip ≡ false
    → let arg = ip ++ b':' ∷ number in
      let tcp : TcpConfig = record { name = cli_name; address = ip; port = port } in
      (parse_argv o (opt_endpoint arg ∷ opts) args c ≡ (
        if validate_udp (cli_udp client ip port)
        then parse_argv o opts args
            (record c { udp_configs = c.udp_configs ++ (cli_udp client ip port ∷ []) })
        else invalid))
      × (parse_argv o (opt_tcp_endpoint arg ∷ opts) args c ≡ (
          if validate_tcp tcp
          then parse_argv o opts args (record c { tcp_configs = c.tcp_configs ++ (tcp ∷ []) })
          else invalid))
      × (parse_argv o [] (arg ∷ args) c ≡ (
          if validate_udp (cli_udp server ip port)
          then parse_argv o [] args
              (record c { udp_configs = c.udp_configs ++ (cli_udp server ip port ∷ []) })
          else invalid))
unfolding parse_argv parse_opt parse_endpoint parse_tcp_endpoint parse_positionals parse_positional
    add_udp
parse_argv_address o ip number port opts args c h e p d =
    let split = split_lem o ip number port h e in
    (
      elim (Bool-cases (validate_udp (cli_udp client ip port))) [
        | inl ok ↦ rw (parse_argv, parse_opt, parse_endpoint, split, p, add_udp, ok) refl
        | inr bad ↦ rw (parse_argv, parse_opt, parse_endpoint, split, p, add_udp, bad) refl
      ],
      elim (Bool-cases (validate_tcp (record { name = cli_name; address = ip; port = port }))) [
        | inl ok ↦ rw (parse_argv, parse_opt, parse_tcp_endpoint, split, p, ok) refl
        | inr bad ↦ rw (parse_argv, parse_opt, parse_tcp_endpoint, split, p, bad) refl
      ],
      elim (Bool-cases (validate_udp (cli_udp server ip port))) [
        | inl ok ↦ rw (parse_positionals, parse_positional, split, d, p, add_udp, ok) refl
        | inr bad ↦ rw (parse_positionals, parse_positional, split, d, p, add_udp, bad) refl
      ],
    )
