-- ===== src/Cli/Valid.antt =====
-- src/main.cpp, `parse_argv`: which configurations it adds.
use mavlink_router.Prelude.{
  ℕ, ◌%◌, ◌^◌, ◌≡◌, refl, inl, inr, false, ◌||◌, Option, none, some, List, [], ◌∷◌, ◌++◌, ◌==◌, ltb,
  Bool-cases,
}
use mavlink_router.Text.{Bytes}
use mavlink_router.Cli.{
  Level, opt_help, opt_endpoint, opt_report_stats, opt_tcp_port, opt_log, opt_telemetry,
  opt_log_level, opt_verbose, opt_sniffer, opt_tcp_endpoint, opt_conf_file, opt_conf_dir,
  opt_syslog, opt_version, opt_unknown, Configuration, Opt, Tools, Parsed, parsed, helped, invalid,
  log_level_from_str, parse_sniffer, parse_opt, parse_positional, parse_positionals, parse_argv,
}
use mavlink_router.Cli.Asked.{
  argument, option_words, argument_words, words_of, Adds, Adds-onward, Adds-same,
}
use mavlink_router.Cli.Words.{parse_endpoint-Adds, parse_tcp_endpoint-Adds, parse_positional-Adds}

parse_opt-Adds :
    (o : Tools) (opt : Opt) (c : Configuration) → Adds o (option_words opt) c (parse_opt o opt c)
unfolding parse_opt parse_sniffer Adds option_words
parse_opt-Adds o opt_help c = tt
parse_opt-Adds o (opt_endpoint arg) c = parse_endpoint-Adds o arg c
parse_opt-Adds o opt_report_stats c = Adds-same o c _ refl refl refl
parse_opt-Adds o (opt_tcp_port arg) c = go (o.safe_atoul arg)
  where
    go :
        (n : Option ℕ)
        → Adds o [] c (elim n as (λ _. Parsed) [
          | none ↦ invalid
          | some port ↦ parsed (record c { tcp_port = port })
        ])
    go none = tt
    go (some port) = Adds-same o c _ refl refl refl
parse_opt-Adds o (opt_log arg) c = Adds-same o c _ refl refl refl
parse_opt-Adds o opt_telemetry c = Adds-same o c _ refl refl refl
parse_opt-Adds o (opt_log_level arg) c = go (log_level_from_str arg)
  where
    go :
        (l : Option Level)
        → Adds o [] c (elim l as (λ _. Parsed) [
          | none ↦ invalid
          | some level ↦ parsed (record c { debug_log_level = level })
        ])
    go none = tt
    go (some level) = Adds-same o c _ refl refl refl
parse_opt-Adds o opt_verbose c = Adds-same o c _ refl refl refl
parse_opt-Adds o (opt_sniffer arg) c =
    let id = o.atoi arg % 2 ^ 16 in
    elim (Bool-cases (id == 0 || ltb 255 id)) [
      | inl bad ↦ rw bad tt
      | inr ok ↦ rw ok (Adds-same o c (record c { sniffer_sysid = id }) refl refl refl)
    ]
parse_opt-Adds o (opt_tcp_endpoint arg) c = parse_tcp_endpoint-Adds o arg c
parse_opt-Adds o (opt_conf_file arg) c = Adds-same o c c refl refl refl
parse_opt-Adds o (opt_conf_dir arg) c = Adds-same o c c refl refl refl
parse_opt-Adds o opt_syslog c = Adds-same o c c refl refl refl
parse_opt-Adds o opt_version c = Adds-same o c c refl refl refl
parse_opt-Adds o opt_unknown c = tt

parse_positionals-Adds :
    (o : Tools) (args : List Bytes) (c : Configuration)
    → o.is_char_device [] ≡ false
    → Adds o (argument_words args) c (parse_positionals o args c)
unfolding parse_positionals Adds argument_words
parse_positionals-Adds o [] c h = Adds-same o c c refl refl refl
parse_positionals-Adds o (arg ∷ args) c h =
    go (parse_positional o arg c) (parse_positional-Adds o arg c h)
      (λ d. parse_positionals-Adds o args d h)
  where
    go :
        (r : Parsed)
        → Adds o (argument arg ∷ []) c r
        → ((d : Configuration) → Adds o (argument_words args) d (parse_positionals o args d))
        → Adds o
            (argument arg ∷ argument_words args)
            c
            (elim r as (λ _. Parsed) [ parsed d ↦ parse_positionals o args d | other ↦ other ])
    go (parsed d) x more = Adds-onward o _ _ c d _ x (more d)
    go helped x more = tt
    go invalid x more = tt

-- If `parse_argv` accepts the command line, it has added one endpoint for each option `-e` and `-p` and
-- each argument, and nothing else to the lists of endpoints: behind those that were there, in the order of
-- the command line, first those of the options, each of the kind, the mode, the address or path and the
-- port or baud rate that its word says, and each one that `validate_config` accepts. No empty path is a
-- device.
pub parse_argv-Adds :
    (o : Tools) (opts : List Opt) (args : List Bytes) (c : Configuration)
    → o.is_char_device [] ≡ false
    → Adds o (words_of opts args) c (parse_argv o opts args c)
unfolding parse_argv Adds words_of
parse_argv-Adds o [] args c h = parse_positionals-Adds o args c h
parse_argv-Adds o (opt ∷ opts) args c h =
    go (parse_opt o opt c) (parse_opt-Adds o opt c) (λ d. parse_argv-Adds o opts args d h)
  where
    go :
        (r : Parsed)
        → Adds o (option_words opt) c r
        → ((d : Configuration) → Adds o (words_of opts args) d (parse_argv o opts args d))
        → Adds o
            (option_words opt ++ words_of opts args)
            c
            (elim r as (λ _. Parsed) [ parsed d ↦ parse_argv o opts args d | other ↦ other ])
    go (parsed d) x more = Adds-onward o _ _ c d _ x (more d)
    go helped x more = tt
    go invalid x more = tt
