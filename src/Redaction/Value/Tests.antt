-- ===== src/Redaction/Value/Tests.antt =====
-- src/redaction.rs: an object with two secrets among its keys.
use previously_on.Prelude.{String, ◌≡◌, refl, arith, length, ◌==◌, string_partial_eq, if◌then◌else◌}
use previously_on.Redaction.{Patterns}
use previously_on.Json.{Fields, string, null, object, end, field, keys}
use previously_on.Redaction.Value.{redact_value}
use previously_on.Redaction.Value.Keys.{redact_value-length}
use previously_on.Redaction.Value.Clean.{IsRedaction, redact_value-IsRedaction}

abbrev same_text : String → String
same_text s = s

abbrev patterns : Patterns
patterns = record {
  private_key = same_text;
  authorization = same_text;
  assignment = same_text;
  cli_secret_flag = same_text;
  url_credentials = same_text;
  well_known_token =
      λ s. if s == "sk-1" then "[REDACTED]" else if s == "sk-2" then "[REDACTED]" else s;
  sensitive_path = same_text;
}

-- One key has the name that the first fresh name would be.
abbrev fields : Fields
fields =
    field "[REDACTED_KEY_0]" null
      (field "password" (string "x") (field "sk-1" null (field "sk-2" null end)))

redact_value-length_example :
    (output : Fields) × (redact_value patterns (object fields) ≡ object output)
    × (length (keys output) ≡ length (keys fields))
redact_value-length_example =
    redact_value-length patterns fields (refl, (refl, (refl, (refl, tt)))) (omega arith)

redact_value-IsRedaction_example :
    IsRedaction patterns (object fields) (redact_value patterns (object fields))
redact_value-IsRedaction_example = redact_value-IsRedaction patterns (object fields)
