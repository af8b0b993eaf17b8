-- ===== src/Json/Tests.antt =====
-- The byte accounting at a small value, with code points for the bytes of ASCII texts.
use peas_engine.Prelude.{◌≡◌, refl, String, ok, codes, length}
use peas_engine.Json.{Json, obj, field, end, arr, cons, nil, str, null, canonical_json}
use peas_engine.Json.Limits.{
  JsonLimits, JsonMetrics, assert_json_within_limits, assert_json_limits, visit, count_items,
  count_fields, check_keys, add_key_bytes,
}
use peas_engine.Fixtures.{stringify, codes-IsUtf8}
use peas_engine.Json.Accounting.{within_limits_exact}

abbrev value : Json
value = obj (field "b" (str "xy") (field "a" (arr (cons null nil)) end))

abbrev limits : JsonLimits
limits = record {
  max_depth = 3;
  max_nodes = 10;
  max_array_length = 5;
  max_object_keys = 5;
  max_string_bytes = 10;
  max_canonical_bytes = 100;
}

abbrev metrics : JsonMetrics
metrics = record { nodes = 4; max_depth = 3; canonical_bytes = 21 }

within : assert_json_within_limits stringify codes value limits ≡ ok metrics
unfolding assert_json_within_limits visit count_items count_fields check_keys add_key_bytes
    assert_json_limits
within = refl

within_limits_exact_example :
    (text : String) × (canonical_json stringify value ≡ ok text)
    × (metrics.canonical_bytes ≡ length (codes text))
within_limits_exact_example =
    within_limits_exact stringify codes codes-IsUtf8 value limits metrics within
