-- ===== src/Tests/Args.antt =====
-- The command line and the attributes of main.rs at concrete inputs.
use network_l4_monitoring_co.Base.{◌≡◌, refl, true, some, List, [], ◌∷◌, ◌++◌}
use network_l4_monitoring_co.Base.Text.{is_whitespace, is_empty, trim_start, trim_end, trim}
use network_l4_monitoring_co.Agent.Args.{Args, parsed, no_args, parse_args}
use network_l4_monitoring_co.Agent.Args.RoundTrip.{put_args, parse_args-put_args}
use network_l4_monitoring_co.Agent.Resource.{Attribute, push_kv_list}
use network_l4_monitoring_co.Agent.Resource.Lists.{push_kv_list-put_list}
use network_l4_monitoring_co.Base.Text.Pairs.{IsPlain, put_list}

abbrev replay : Args
replay = record no_args { pcap = some "--quiet"; json = some "off"; quiet = true }

parse_args-put_args_example : parse_args (put_args replay []) no_args ≡ parsed replay
parse_args-put_args_example = parse_args-put_args replay

abbrev attributes : List Attribute
attributes = ("team", "net=ops") ∷ ("zone", "") ∷ []

team-IsPlain : IsPlain ("team", "net=ops")
unfolding is_whitespace is_empty trim_start trim_end trim
team-IsPlain = record {
  key_comma = (refl, (refl, (refl, (refl, tt))));
  key_equals = (refl, (refl, (refl, (refl, tt))));
  value_comma = (refl, (refl, (refl, (refl, (refl, (refl, (refl, tt)))))));
  key_trimmed = refl;
  value_trimmed = refl;
  key_set = refl;
}

zone-IsPlain : IsPlain ("zone", "")
unfolding is_whitespace is_empty trim_start trim_end trim
zone-IsPlain = record {
  key_comma = (refl, (refl, (refl, (refl, tt))));
  key_equals = (refl, (refl, (refl, (refl, tt))));
  value_comma = tt;
  key_trimmed = refl;
  value_trimmed = refl;
  key_set = refl;
}

push_kv_list-put_list_example :
    push_kv_list (("service.name", "l4scope") ∷ []) (put_list attributes)
    ≡ (("service.name", "l4scope") ∷ []) ++ attributes
push_kv_list-put_list_example =
    push_kv_list-put_list (("service.name", "l4scope") ∷ []) attributes
      (team-IsPlain, (zone-IsPlain, tt))
