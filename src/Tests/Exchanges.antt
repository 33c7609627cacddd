-- ===== src/Tests/Exchanges.antt =====
-- An exchange with the Wardveil service, and the text of its signature.
use goreecloud_drive.Prelude.{◌≡◌, refl, true, false, none, some, [], ◌∷◌, replicate, arith}
use goreecloud_drive.Prelude.Text.{Str, str, ◌==◌, trim_space, has_byte}
use goreecloud_drive.Prelude.Int.{pos, ◌+ℤ◌}
use goreecloud_drive.Errors.{ok}
use goreecloud_drive.Json.{is_blank}
use goreecloud_drive.Storage.Session.{chunk_limit, wrap_int64}
use goreecloud_drive.Wardveil.Action
use goreecloud_drive.Wardveil.Scan.{valid_sha256, valid_action, all_hex}
use goreecloud_drive.Wardveil.Types.{ScanRequest, ScanEnvelope, drive_file_resource_type}
use goreecloud_drive.Wardveil.ScanText.{to_lower, valid_scan_token, token_bytes, has_lower_prefix}
use goreecloud_drive.Wardveil.HttpScanner.{
  request_refused, Url, scan_path, HttpScannerConfig, HttpScanner, ScanWire, Network,
  validate_scan_endpoint, scanner_at, new_http_scanner, wire_request, read_wire, read_response,
  http_scan,
}
use goreecloud_drive.Wardveil.HttpScanner.Material.{
  IsLine, IsSendable, signature_of, signed_text, signature_fixes_headers,
}
use goreecloud_drive.Wardveil.HttpScanner.Exchange.{
  IsLoopbackScanner, IsAnswered, http_scan-IsAnswered,
}
use goreecloud_drive.Tests.Scans.{clean_envelope}

abbrev pub loopback_url : Url
loopback_url = record {
  scheme = str "http";
  has_user = false;
  raw_query = [];
  fragment = [];
  path = scan_path;
  port = str "8791";
  hostname = str "127.0.0.1";
  text_form = str "http://127.0.0.1:8791/v1/scan";
}

abbrev scan_digest : Str
scan_digest = replicate 64 b'a'

abbrev answer : ScanEnvelope
answer = clean_envelope (str "space:node") scan_digest

abbrev pub wire : ScanWire
wire = record {
  resource_id = answer.resource_id;
  resource_digest_sha256 = answer.resource_digest_sha256;
  correlation_id = str "scan-1";
  scan_record = answer.scan_record;
}

-- A service that answers every request with one envelope.
abbrev pub network : Network
network = record {
  parse_url = λ _. some loopback_url;
  parse_ip = λ _. some (record { is_loopback = true; is_v4 = true });
  hmac_sha256 = λ _ _. replicate 32 0;
  format_time = λ _. str "1970-01-01T00:00:00Z";
  exchange = λ _. ok (record {
    status = 200;
    content_type = str "application/json";
    body = record { bytes = str "{}"; broken = false };
  });
  decode_wire = λ _. some (wire, []);
}

abbrev config : HttpScannerConfig
config = record {
  endpoint = str "http://127.0.0.1:8791/v1/scan";
  caller_id = [];
  key_id = [];
  secret = replicate 32 b's';
  timeout = pos 0;
  max_response_bytes = pos 4096;
  now = some (λ clock. clock);
  nonce = some (λ _. ok (str "nonce-1"));
  correlation_id = some (λ _. ok (str "scan-1"));
}

abbrev built : HttpScanner
built = record {
  endpoint = loopback_url;
  caller_id = str "goreecloud-drive";
  key_id = str "scan-current";
  secret = replicate 32 b's';
  timeout = pos 35000000000;
  max_response_bytes = pos 4096;
  now = λ clock. clock;
  nonce = λ _. ok (str "nonce-1");
  correlation_id = λ _. ok (str "scan-1");
}

building_run : new_http_scanner network config ≡ ok built
unfolding new_http_scanner validate_scan_endpoint scanner_at valid_scan_token token_bytes trim_space
    ◌==◌
building_run = refl

abbrev scan_request : ScanRequest
scan_request = record {
  resource_type = drive_file_resource_type;
  resource_id = str "space:node";
  digest_sha256 = scan_digest;
  size_bytes = pos 2;
  action = Action.upload_finalize;
}

scan_run :
    http_scan network 0 none none (some built) scan_request (some (ok (7 ∷ 9 ∷ []))) ≡ ok answer
unfolding http_scan read_response read_wire is_blank has_lower_prefix valid_scan_token token_bytes
    valid_sha256 all_hex valid_action chunk_limit wrap_int64 ◌+ℤ◌ trim_space ◌==◌
scan_run = refl

http_scan-IsAnswered_example :
    IsLoopbackScanner network built
    × IsAnswered network 0 none none built scan_request (ok (7 ∷ 9 ∷ [])) 4096 answer
http_scan-IsAnswered_example =
    http_scan-IsAnswered network config built 4096 scan_request (ok (7 ∷ 9 ∷ [])) 0 none none answer
      building_run refl (omega arith) scan_run

caller_valid : valid_scan_token (str "goreecloud-drive") ≡ true
unfolding valid_scan_token token_bytes
caller_valid = refl

key_valid : valid_scan_token (str "scan-current") ≡ true
unfolding valid_scan_token token_bytes
key_valid = refl

nonce_valid : valid_scan_token (str "nonce-1") ≡ true
unfolding valid_scan_token token_bytes
nonce_valid = refl

correlation_valid : valid_scan_token (str "scan-1") ≡ true
unfolding valid_scan_token token_bytes
correlation_valid = refl

request_accepted : request_refused network scan_request ≡ false
unfolding valid_sha256 all_hex valid_action trim_space ◌==◌
request_accepted = refl

time-IsLine : IsLine (str "1970-01-01T00:00:00Z")
unfolding has_byte
time-IsLine = refl

resource-IsLine : IsLine scan_request.resource_id
unfolding has_byte
resource-IsLine = refl

abbrev time : Str
time = str "1970-01-01T00:00:00Z"

-- The same request with its digest in capitals.
abbrev capitals : ScanRequest
capitals = record scan_request { digest_sha256 = replicate 64 b'A' }

capitals_accepted : request_refused network capitals ≡ false
unfolding valid_sha256 all_hex valid_action trim_space ◌==◌
capitals_accepted = refl

request-IsSendable : IsSendable network scan_request time (str "nonce-1") (str "scan-1")
request-IsSendable = record {
  accepted = request_accepted;
  fresh = nonce_valid;
  correlated = correlation_valid;
  time = time-IsLine;
  resource = resource-IsLine;
}

capitals-IsSendable : IsSendable network capitals time (str "nonce-1") (str "scan-1")
capitals-IsSendable = record {
  accepted = capitals_accepted;
  fresh = nonce_valid;
  correlated = correlation_valid;
  time = time-IsLine;
  resource = resource-IsLine;
}

same_text :
    signed_text network built caller_valid key_valid scan_request time
      (str "nonce-1")
      (str "scan-1")
    ≡ signed_text network built caller_valid key_valid capitals time (str "nonce-1") (str "scan-1")
unfolding to_lower
same_text = refl

same_signature :
    signature_of
      (wire_request network built scan_request (ok []) time (str "nonce-1") (str "scan-1"))
    ≡ signature_of (wire_request network built capitals (ok []) time (str "nonce-1") (str "scan-1"))
unfolding wire_request to_lower
same_signature = refl

signature_fixes_headers_example :
    (wire_request network built scan_request (ok []) time (str "nonce-1") (str "scan-1")).headers
    ≡ (wire_request network built capitals (ok []) time (str "nonce-1") (str "scan-1")).headers
signature_fixes_headers_example =
    signature_fixes_headers network built caller_valid key_valid scan_request capitals (ok [])
      (ok []) time (str "nonce-1") (str "scan-1") time (str "nonce-1") (str "scan-1")
      request-IsSendable capitals-IsSendable (λ _. same_text) same_signature
