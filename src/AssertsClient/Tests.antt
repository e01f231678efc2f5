-- ===== src/AssertsClient/Tests.antt =====
-- The theorem on calls at a server that answers every request with the status 200.
use asserts_otel_processor.Base.{◌≡◌, ◌↔◌, refl, true, String, [], ◌∷◌, some}
use asserts_otel_processor.Base.Maps.{lookup}
use asserts_otel_processor.Config.{Config}
use asserts_otel_processor.Config.Sample.{sample_config}
use asserts_otel_processor.AssertsClient.{
  Network, headers, basic_auth, build_request, fetch_config, unexpected, read_response_body,
}
use asserts_otel_processor.AssertsClient.Answer.{IsAnswered, fetch_config_iff}

abbrev net : Network String
net = record {
  encode = λ payload. some payload;
  is_request = λ method url. true;
  do_request = λ r. some (record { status_code = 200; body = "{}"; complete = true });
  encode_base64 = λ text. text;
  decode_config = λ text. some sample_config;
}

abbrev protected : Config
protected = record sample_config {
  asserts_server = ("user", "u") ∷ ("password", "p") ∷ [];
  asserts_tenant = "t";
}

protected_headers : headers net protected ≡ (
    ("Content-Type", "application/json")
    ∷ ("Accept", "application/json")
    ∷ ("Authorization", "Basic u:p")
    ∷ ("X-Asserts-Tenant", "t")
    ∷ [])
unfolding headers basic_auth lookup
protected_headers = refl

not_found :
    read_response_body net (record { status_code = 404; body = "gone"; complete = true })
    ≡ (some "gone", some (unexpected "gone"))
unfolding read_response_body
not_found = refl

fetch_config_iff_example : (fetch_config net sample_config "" ≡ some sample_config) ↔ (
    (text : String) × IsAnswered net
      (build_request net sample_config "GET" "/v1/config/otel-collector" "")
      text
    × (net.decode_config text ≡ some sample_config))
fetch_config_iff_example = fetch_config_iff net sample_config sample_config ""
