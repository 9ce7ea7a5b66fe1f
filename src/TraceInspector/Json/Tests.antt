-- ===== src/TraceInspector/Json/Tests.antt =====
-- Runs of the scan, and its property at a concrete input.
use tracium.Prelude.{◌≡◌, refl, true, false, Option, none, some, if◌then◌else◌, ◌===◌}
use tracium.Prelude.Int.{pos}
use tracium.Uri.{Text, bytes}
use tracium.Extensions.{bytes_key}
use tracium.TraceInspector.Json.{
  Parsed, Place, prettify_group, find_balanced_end, prettify_from, prettify_maybe_json,
}
use tracium.TraceInspector.Json.Pieces.{Pieces, prettify_maybe_json_total}

-- The values of two groups
abbrev parse : Text → Option Parsed
parse text =
    if text === bytes "{\"a\":\"}\"}"
    then some (record { is_scalar_ref = false; printed = bytes "{ \"a\": \"}\" }" })
    else if text === bytes "[1]"
    then some (record { is_scalar_ref = true; printed = bytes "[ 1 ]" })
    else none

-- A bracket in a string closes nothing; a citation and a group that is no JSON stay.
prettified :
    prettify_maybe_json parse (bytes "x {\"a\":\"}\"} [1] {b} [")
    ≡ some (bytes "x { \"a\": \"}\" } [1] {b} [")
unfolding prettify_maybe_json prettify_from prettify_group find_balanced_end
prettified = refl

escaped_quote : find_balanced_end (pos 0) Place.outside (bytes "[\"\\\"]\"]..") ≡ some 7
unfolding find_balanced_end
escaped_quote = refl

-- A bracket that closes nothing stays, and so does a group that never ends.
lone_bracket : prettify_maybe_json parse (bytes "a } [1") ≡ some (bytes "a } [1")
unfolding prettify_maybe_json prettify_from prettify_group find_balanced_end
lone_bracket = refl

prettify_maybe_json_total_example :
    (r : Text) × (prettify_maybe_json parse (bytes "a [1]") ≡ some r)
    × Pieces parse (bytes "a [1]") r
prettify_maybe_json_total_example = prettify_maybe_json_total parse (bytes "a [1]")
