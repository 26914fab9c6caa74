-- ===== src/Traffic/Observed.antt =====
-- packages/guardian_core/traffic/url_match.py: the path template of an observed URL.
use living_api_contract_guar.Common.{String, Option, none, some, ◌==◌, string_key, if◌then◌else◌}
use living_api_contract_guar.Common.Text.{before, contains}
use living_api_contract_guar.Mining.PathNormalize.{
  urlsplit, path_or_root, rooted, abstract_static_segments,
}
use living_api_contract_guar.Traffic.UrlMatch.{Node, match_path}

-- `_strip_to_path`
unfoldable pub strip_to_path : String → String
unfolding contains urlsplit before rooted
strip_to_path url =
    rooted (if contains "://" url then path_or_root (urlsplit url).0 else before 63 url)

abbrev if_any : String → String → String
if_any templated path = if templated == "" then path else templated

abbrev templated_by : String → Option String → String × Option String
templated_by path (some matched) = (matched, some matched)
templated_by path none = (if_any (abstract_static_segments path) path, none)

abbrev match_in : Option Node → String → String → Option String
match_in none method path = none
match_in (some tree) method path = match_path tree method path

-- `normalize_observed_path`
unfoldable pub normalize_observed_path : String → String → Option Node → String × Option String
unfolding strip_to_path abstract_static_segments match_path
normalize_observed_path url method tree =
    let path = strip_to_path url in templated_by path (match_in tree method path)
