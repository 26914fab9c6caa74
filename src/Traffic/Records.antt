-- ===== src/Traffic/Records.antt =====
-- packages/guardian_core/traffic/har_parser.py and grpc_parser.py, on the decoded text of an upload.
-- The JSON decoders, haralyzer's pages and `repr` are parameters; `none` is an exception.
use living_api_contract_guar.Common.{
  String, true, Option, none, some, List, [], ◌∷◌, ◌++◌, ◌||◌, ◌==◌, string_key, is_empty, get_or,
  ltb, collect, if◌then◌else◌,
}
use living_api_contract_guar.Common.Int.{ℤ, pos}
use living_api_contract_guar.Common.Dict.{Dict, get, put}
use living_api_contract_guar.Common.Text.{text_length, upper, lower, splitlines, strip}
use living_api_contract_guar.Json.Value.{
  Value, null, boolean, int, str, arr, obj, no_item, Fields, entries, as_str, get_value, truthy,
  is_null,
}
use living_api_contract_guar.Diff.Raising.{◌>>=◌}
use living_api_contract_guar.Diff.OpenApi.Reading.{iterate}
use living_api_contract_guar.Traffic.Merge.{dict_or_empty}

-- `None` is `null` in a body.
pub record HarRequestRecord : Type 0 where
  pub method : String
  pub url : String
  pub status : ℤ
  pub request_body : Value
  pub response_body : Value
  pub request_headers : Dict String String
  pub response_headers : Dict String String
  pub query : Dict String String
  pub timestamp : Option String

pub record GrpcCallRecord : Type 0 where
  pub method : String
  pub path : String
  pub client : Option String
  pub request_body : Value
  pub response_body : Value
  pub status : ℤ
  pub timestamp : Option String

-- What stands outside. `pages` has the raw entries of each page of a HAR file.
pub record Decoders : Type 0 where
  pub loads : String → Option Value
  pub first_item : String → Option Value
  pub pages : Fields → List (List Value)
  pub repr : Value → String

-- `status if isinstance(status, int) else 0`
abbrev pub status_or_zero : Value → ℤ
status_or_zero (int n) = n
status_or_zero (boolean true) = pos 1
status_or_zero _ = pos 0

abbrev header_of : Option String → Option String → Dict String String → Dict String String
header_of (some name) (some value) out = put (lower name) value out
header_of name value out = out

-- `_headers_to_dict`
unfoldable pub headers_to_dict : Dict String String → List Value → Option (Dict String String)
unfolding put lower as_str get_value entries
headers_to_dict out [] = some out
headers_to_dict out (obj h ∷ hs) =
    headers_to_dict
      (header_of (as_str (get_value "name" (entries h))) (as_str (get_value "value" (entries h)))
        out)
      hs
headers_to_dict out (h ∷ hs) = none

abbrev query_of : Option String → Option String → Dict String String → Dict String String
query_of (some name) value out = put name (get_or value "") out
query_of none value out = out

-- `_querystring_to_dict`
unfoldable pub querystring_to_dict : Dict String String → List Value → Option (Dict String String)
unfolding put as_str get_value entries
querystring_to_dict out [] = some out
querystring_to_dict out (obj q ∷ qs) =
    querystring_to_dict
      (query_of (as_str (get_value "name" (entries q))) (as_str (get_value "value" (entries q)))
        out)
      qs
querystring_to_dict out (q ∷ qs) = none

module _ (decoders : Decoders) where
  -- `_stream_json_body`
  unfoldable pub stream_json_body : String → Value
  unfolding strip
  stream_json_body text =
      if text == "" || (strip text == "")
      then null
      else if ltb (text_length text) 64000
      then get_or (decoders.loads text) null
      else get_or (decoders.first_item text) null

  abbrev body_in : Option String → Value
  body_in none = null
  body_in (some text) = stream_json_body text

  abbrev har_record :
      Option String
      → Option String
      → Dict String Value
      → Dict String Value
      → Dict String Value
      → Option (Option HarRequestRecord)
  har_record (some method) (some url) raw_entry request response = do
    req_headers ← iterate (get_value "headers" request)
    request_headers ← headers_to_dict [] req_headers
    resp_headers ← iterate (get_value "headers" response)
    response_headers ← headers_to_dict [] resp_headers
    query_string ← iterate (get_value "queryString" request)
    query ← querystring_to_dict [] query_string
    post ← dict_or_empty (get_value "postData" request)
    content ← dict_or_empty (get_value "content" response)
    some (
        some (record {
          method = upper method;
          url = url;
          status = status_or_zero (get_value "status" response);
          request_body = body_in (as_str (get_value "text" post));
          response_body = body_in (as_str (get_value "text" content));
          request_headers = request_headers;
          response_headers = response_headers;
          query = query;
          timestamp = as_str (get_value "startedDateTime" raw_entry);
        }))
  har_record method url raw_entry request response = some none

  -- `_entry_to_record`
  unfoldable pub entry_to_record : Value → Option (Option HarRequestRecord)
  unfolding upper as_str get_value entries iterate headers_to_dict querystring_to_dict dict_or_empty
      stream_json_body
  entry_to_record (obj fs) = do
    request ← dict_or_empty (get_value "request" (entries fs))
    response ← dict_or_empty (get_value "response" (entries fs))
    har_record (as_str (get_value "method" request)) (as_str (get_value "url" request)) (entries fs)
        request response
  entry_to_record v = none

  abbrev cons_some : Option HarRequestRecord → List HarRequestRecord → List HarRequestRecord
  cons_some none out = out
  cons_some (some r) out = r ∷ out

  -- the records of the entries that have one
  unfoldable pub har_records : List Value → Option (List HarRequestRecord)
  unfolding entry_to_record
  har_records [] = some []
  har_records (v ∷ vs) = do
    found ← entry_to_record v
    rest ← har_records vs
    some (cons_some found rest)

  -- `data["log"].get("entries", [])`
  abbrev entry_list : Value → Option (List Value)
  entry_list null = none
  entry_list (boolean b) = none
  entry_list (int n) = none
  entry_list v = iterate v

  abbrev top_entries : Option Value → Option (List Value)
  top_entries (some (obj log)) = entry_list (get_or (get "entries" (entries log)) (arr no_item))
  top_entries log = none

  abbrev har_of : Value → Option (List HarRequestRecord)
  har_of (obj data_fields) = do
    log ← get "log" (entries data_fields)
    paged ← har_records (collect (λ page. page) (decoders.pages data_fields))
    top ← if is_empty (decoders.pages data_fields) then top_entries (some log) else some []
    more ← har_records top
    some (paged ++ more)
  har_of v = none

  -- `parse_har_bytes`
  unfoldable pub parse_har : String → Option (List HarRequestRecord)
  unfolding iterate get entries har_records
  parse_har raw = if raw == "" then some [] else do decoded ← decoders.loads raw; har_of decoded

  -- `d.get(key) if d.get(key) is not None else d.get(other)`
  abbrev value_or : Value → Value → Value
  value_or v w = if is_null v then w else v

  -- `str(value or "POST")`
  abbrev method_text : Value → String
  method_text (str s) = if s == "" then "POST" else s
  method_text v = if truthy v then decoders.repr v else "POST"

  abbrev path_value : Value → Value → Value
  path_value v w = if truthy v then v else w

  abbrev grpc_record : Dict String Value → Option String → List GrpcCallRecord
  grpc_record d none = []
  grpc_record d (some path) =
      record {
        method = upper (method_text (get_value "method" d));
        path = path;
        client = as_str (get_value "client" d);
        request_body = value_or (get_value "request" d) (get_value "request_body" d);
        response_body = value_or (get_value "response" d) (get_value "response_body" d);
        status = status_or_zero (get_value "status" d);
        timestamp = as_str (get_value "timestamp" d);
      }
      ∷ []

  abbrev grpc_of : Option Value → List GrpcCallRecord
  grpc_of (some (obj fs)) =
      grpc_record (entries fs)
        (as_str (path_value (get_value "path" (entries fs)) (get_value "method_path" (entries fs))))
  grpc_of decoded = []

  -- The body of the loop of `parse_grpc_log`.
  unfoldable pub grpc_line : String → List GrpcCallRecord
  unfolding strip upper as_str get_value entries truthy is_null
  grpc_line line =
      let stripped = strip line in if stripped == "" then [] else grpc_of (decoders.loads stripped)

  -- `parse_grpc_log`
  unfoldable pub parse_grpc_log : String → List GrpcCallRecord
  unfolding splitlines grpc_line
  parse_grpc_log raw = if raw == "" then [] else collect grpc_line (splitlines raw)
