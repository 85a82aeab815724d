-- ===== src/Agent/Args/RoundTrip.antt =====
-- The command line of main.rs, written from its arguments and read back.
use network_l4_monitoring_co.Base.{
  String, Bool, true, false, List, [], ◌∷◌, Option, none, some, ◌≡◌, refl, ◌∙◌,
}
use network_l4_monitoring_co.Agent.Args.{Args, parsed, no_args, take_flag, take_value, parse_args}

-- An option with a value, or nothing, in front of other words.
abbrev pub put_value : String → Option String → List String → List String
put_value name none rest = rest
put_value name (some v) rest = name ∷ v ∷ rest

abbrev pub put_flag : String → Bool → List String → List String
put_flag name false rest = rest
put_flag name true rest = name ∷ rest

-- A command line that says what the arguments say, before other words.
abbrev pub put_args : Args → List String → List String
put_args a rest = put_value "--config" a.config (
    put_value "--backend" a.backend (
      put_value "--pcap" a.pcap (
        put_value "--iface" a.iface (
          put_value "--live-cmd" a.live_cmd (
            put_value "--json" a.json
              (put_flag "--no-metrics" a.no_metrics (put_flag "--quiet" a.quiet rest)))))))

-- Each option in turn fills its own field.
read_config :
    (o : Option String) (rest : List String) (a : Args)
    → parse_args (put_value "--config" o rest) (record a { config = none })
      ≡ parse_args rest (record a { config = o })
unfolding parse_args take_flag take_value
read_config none rest a = refl
read_config (some v) rest a = refl

read_backend :
    (o : Option String) (rest : List String) (a : Args)
    → parse_args (put_value "--backend" o rest) (record a { backend = none })
      ≡ parse_args rest (record a { backend = o })
unfolding parse_args take_flag take_value
read_backend none rest a = refl
read_backend (some v) rest a = refl

read_pcap :
    (o : Option String) (rest : List String) (a : Args)
    → parse_args (put_value "--pcap" o rest) (record a { pcap = none })
      ≡ parse_args rest (record a { pcap = o })
unfolding parse_args take_flag take_value
read_pcap none rest a = refl
read_pcap (some v) rest a = refl

read_iface :
    (o : Option String) (rest : List String) (a : Args)
    → parse_args (put_value "--iface" o rest) (record a { iface = none })
      ≡ parse_args rest (record a { iface = o })
unfolding parse_args take_flag take_value
read_iface none rest a = refl
read_iface (some v) rest a = refl

read_live_cmd :
    (o : Option String) (rest : List String) (a : Args)
    → parse_args (put_value "--live-cmd" o rest) (record a { live_cmd = none })
      ≡ parse_args rest (record a { live_cmd = o })
unfolding parse_args take_flag take_value
read_live_cmd none rest a = refl
read_live_cmd (some v) rest a = refl

read_json :
    (o : Option String) (rest : List String) (a : Args)
    → parse_args (put_value "--json" o rest) (record a { json = none })
      ≡ parse_args rest (record a { json = o })
unfolding parse_args take_flag take_value
read_json none rest a = refl
read_json (some v) rest a = refl

read_no_metrics :
    (b : Bool) (rest : List String) (a : Args)
    → parse_args (put_flag "--no-metrics" b rest) (record a { no_metrics = false })
      ≡ parse_args rest (record a { no_metrics = b })
unfolding parse_args take_flag take_value
read_no_metrics false rest a = refl
read_no_metrics true [] a = refl
read_no_metrics true (w ∷ rest) a = refl

read_quiet :
    (b : Bool) (rest : List String) (a : Args)
    → parse_args (put_flag "--quiet" b rest) (record a { quiet = false })
      ≡ parse_args rest (record a { quiet = b })
unfolding parse_args take_flag take_value
read_quiet false rest a = refl
read_quiet true [] a = refl
read_quiet true (w ∷ rest) a = refl

-- A command line that spells out its arguments, an option with a value for each one that is set and a
-- flag for each one that is true, is read as these arguments, whatever the values are.
pub parse_args-put_args : (a : Args) → parse_args (put_args a []) no_args ≡ parsed a
unfolding parse_args
parse_args-put_args a =
    read_config a.config
      (put_value "--backend" a.backend (
        put_value "--pcap" a.pcap (
          put_value "--iface" a.iface (
            put_value "--live-cmd" a.live_cmd (
              put_value "--json" a.json
                (put_flag "--no-metrics" a.no_metrics (put_flag "--quiet" a.quiet [])))))))
      no_args
    ∙ read_backend a.backend
        (put_value "--pcap" a.pcap (
          put_value "--iface" a.iface (
            put_value "--live-cmd" a.live_cmd (
              put_value "--json" a.json
                (put_flag "--no-metrics" a.no_metrics (put_flag "--quiet" a.quiet []))))))
        (record no_args { config = a.config })
    ∙ read_pcap a.pcap
        (put_value "--iface" a.iface (
          put_value "--live-cmd" a.live_cmd (
            put_value "--json" a.json
              (put_flag "--no-metrics" a.no_metrics (put_flag "--quiet" a.quiet [])))))
        (record no_args { config = a.config; backend = a.backend })
    ∙ read_iface a.iface
        (put_value "--live-cmd" a.live_cmd (
          put_value "--json" a.json
            (put_flag "--no-metrics" a.no_metrics (put_flag "--quiet" a.quiet []))))
        (record no_args { config = a.config; backend = a.backend; pcap = a.pcap })
    ∙ read_live_cmd a.live_cmd
        (put_value "--json" a.json
          (put_flag "--no-metrics" a.no_metrics (put_flag "--quiet" a.quiet [])))
        (record no_args { config = a.config; backend = a.backend; pcap = a.pcap; iface = a.iface })
    ∙ read_json a.json (put_flag "--no-metrics" a.no_metrics (put_flag "--quiet" a.quiet []))
        (record no_args {
          config = a.config;
          backend = a.backend;
          pcap = a.pcap;
          iface = a.iface;
          live_cmd = a.live_cmd;
        })
    ∙ read_no_metrics a.no_metrics (put_flag "--quiet" a.quiet []) (record no_args {
      config = a.config;
      backend = a.backend;
      pcap = a.pcap;
      iface = a.iface;
      live_cmd = a.live_cmd;
      json = a.json;
    })
    ∙ read_quiet a.quiet [] (record no_args {
      config = a.config;
      backend = a.backend;
      pcap = a.pcap;
      iface = a.iface;
      live_cmd = a.live_cmd;
      json = a.json;
      no_metrics = a.no_metrics;
    })
