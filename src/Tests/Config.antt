-- ===== src/Tests/Config.antt =====
-- config.rs at concrete inputs.
use network_l4_monitoring_co.Base.{ℕ, ◌≡◌, refl, String, Option, none}
use network_l4_monitoring_co.Base.Text.{
  is_whitespace, is_empty, trim_start, trim_end, trim, split_once, lines, strip_prefix,
  strip_suffix, parse_digits, parse_uint,
}
use network_l4_monitoring_co.Core.Error.{Error, config, show_error, ok, err}
use network_l4_monitoring_co.Core.Config.{Config, default}
use network_l4_monitoring_co.Core.Config.Parse.{
  strip_comment, parse_u32, unknown_key, apply_detect, apply, set_line, take_line, parse_lines,
  from_str,
}
use network_l4_monitoring_co.Core.Config.Lines.{settings, Layers, from_str-Layers}
use network_l4_monitoring_co.Core.Config.Rejected.{FailsAt, from_str-FailsAt}
use network_l4_monitoring_co.Tests.Values.{ops, fmt}

-- No float is set in these texts.
abbrev no_f64 : String → Option ℕ
no_f64 s = none

abbrev no_text : String → String
no_text e = e

abbrev good : String
good = "[detect] # thresholds\n dup_ack_threshold = 5\r\n\n"

abbrev good_config : Config ℕ
good_config = record (default ops) {
  detect = record (default ops).detect { dup_ack_threshold = 5 };
}

good_runs : from_str ops fmt no_f64 no_text good ≡ ok good_config
unfolding is_whitespace is_empty trim_start trim_end trim split_once lines strip_prefix strip_suffix
    parse_digits parse_uint strip_comment parse_u32 unknown_key apply_detect apply set_line
    take_line parse_lines from_str
good_runs = refl

from_str-Layers_example : Layers (settings "" (lines good)) (default ops) good_config
from_str-Layers_example = from_str-Layers ops fmt no_f64 no_text good good_config good_runs

abbrev bad : String
bad = "[detect]\nbogus = 1\n"

abbrev bad_error : Error String
bad_error = config "line : config error: unknown key '[detect] bogus'"

bad_runs : from_str ops fmt no_f64 no_text bad ≡ err bad_error
unfolding is_whitespace is_empty trim_start trim_end trim split_once lines strip_prefix strip_suffix
    show_error strip_comment unknown_key apply_detect apply set_line take_line parse_lines from_str
bad_runs = refl

from_str-FailsAt_example : FailsAt ops fmt no_f64 no_text 1 (lines bad) "" (default ops) bad_error
from_str-FailsAt_example = from_str-FailsAt ops fmt no_f64 no_text bad bad_error bad_runs
