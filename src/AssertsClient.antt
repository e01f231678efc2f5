-- ===== src/AssertsClient.antt =====
-- assertsprocessor/asserts_client.go: one call of the Asserts API server, and fetchConfig of
-- assertsprocessor/config_refresh.go over it.
pub mod Answer
mod Tests
use asserts_otel_processor.Base.{
  ℕ, Bool, true, false, not, ◌&&◌, ◌||◌, String, List, [], ◌∷◌, ◌++◌, Option, none, some,
  if◌then◌else◌, str_eq, ◌==◌,
}
use asserts_otel_processor.Base.Maps.{StringMap, lookup}
use asserts_otel_processor.Config.{Config}
use Prim.Native.String
use Prim.Native.String.{◌++◌ as append}

pub record Request : Type 0 where
  pub method : String
  pub url : String
  pub body : String
  pub headers : List (String × String)

-- What reading the body gives, and whether it ended without an error.
pub record Response : Type 0 where
  pub status_code : ℕ
  pub body : String
  pub complete : Bool

-- net/http, encoding/json and encoding/base64, as far as the client uses them. Nothing is assumed of
-- them.
pub record Network (Payload : Type 0) : Type 0 where
  -- `json.NewEncoder(buf).Encode(payload)`; none is an error.
  pub encode : Payload → Option String
  -- `http.NewRequest` has no error for this method and URL.
  pub is_request : String → String → Bool
  -- `client.Do(req)`; none is an error.
  pub do_request : Request → Option Response
  -- `base64.StdEncoding.EncodeToString`
  pub encode_base64 : String → String
  -- `json.Unmarshal` into a configuration; none is an error.
  pub decode_config : String → Option Config

pub data ClientError : Type 0 where
  encoding : ClientError
  request : ClientError
  transport : ClientError
  reading : ClientError
  -- With the body of the response as its text.
  unexpected : String → ClientError

-- A missing key of a Go map of texts gives the empty text.
abbrev pub text_at : String → StringMap String → String
text_at key m = elim (lookup key m) [ none ↦ "" | some text ↦ text ]

module _ {Payload : Type 0} (net : Network Payload) where
  unfoldable pub basic_auth : String → String → String
  basic_auth username password = net.encode_base64 (append username (append ":" password))

  abbrev has_credentials : StringMap String → Bool
  has_credentials server =
      not (str_eq (text_at "user" server) "") && not (str_eq (text_at "password" server) "")

  unfoldable pub headers : Config → List (String × String)
  unfolding basic_auth
  headers config =
      let server = config.asserts_server in
      let auth = append "Basic " (basic_auth (text_at "user" server) (text_at "password" server)) in
      ("Content-Type", "application/json")
        ∷ ("Accept", "application/json")
        ∷ (if has_credentials server then ("Authorization", auth) ∷ [] else [])
      ++ (if str_eq config.asserts_tenant ""
          then []
          else ("X-Asserts-Tenant", config.asserts_tenant) ∷ [])

  -- The body is returned with every error.
  unfoldable pub read_response_body : Response → Option String × Option ClientError
  read_response_body response = (
    some response.body,
    if response.complete
        then (if response.status_code == 200 then none else some (unexpected response.body))
        else some reading,
  )

  -- Only POST and PUT have a body.
  unfoldable pub request_body : String → Payload → Option String
  request_body method payload =
      if str_eq method "POST" || str_eq method "PUT" then net.encode payload else some ""

  unfoldable pub build_request : Config → String → String → String → Request
  unfolding headers
  build_request config method api body = record {
    method = method;
    url = append (text_at "endpoint" config.asserts_server) api;
    body = body;
    headers = headers config;
  }

  abbrev pub answer_of : Option Response → Option String × Option ClientError
  answer_of none = (none, some transport)
  answer_of (some response) = read_response_body response

  abbrev pub send : Request → Option String × Option ClientError
  send r =
      if net.is_request r.method r.url then answer_of (net.do_request r) else (none, some request)

  abbrev pub send_body : (String → Request) → Option String → Option String × Option ClientError
  send_body build none = (none, some encoding)
  send_body build (some body) = send (build body)

  unfoldable pub invoke : Config → String → String → Payload → Option String × Option ClientError
  unfolding read_response_body request_body build_request
  invoke config method api payload =
      send_body (build_request config method api) (request_body method payload)

  abbrev pub decoded : Option String × Option ClientError → Option Config
  decoded (some body, none) = net.decode_config body
  decoded _ = none

  -- `fetchConfig`: none is an error.
  unfoldable pub fetch_config : Config → Payload → Option Config
  unfolding invoke
  fetch_config config payload = decoded (invoke config "GET" "/v1/config/otel-collector" payload)
