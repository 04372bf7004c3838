-- ===== src/Redaction.antt =====
-- src/redaction.rs: the text scrubber. The regular expressions belong to the `regex` crate: the
-- result of each `replace_all`, with the closure or marker that the code passes, is a parameter.
pub mod Value
use previously_on.Prelude.{ℕ, String, leb, if◌then◌else◌, char_count, take_chars}
use previously_on.Domain.{max_evidence_excerpt_chars}

abbrev pub redacted_marker : String
redacted_marker = "[REDACTED]"

-- `PATTERN.replace_all(text, …)` for each of the compiled patterns.
pub record Patterns : Type 0 where
  pub private_key : String → String
  pub authorization : String → String
  pub assignment : String → String
  pub cli_secret_flag : String → String
  pub url_credentials : String → String
  pub well_known_token : String → String
  pub sensitive_path : String → String

unfoldable pub cap_chars : String → ℕ → String
cap_chars input max_chars =
    if leb (char_count input) max_chars then input else take_chars max_chars input

unfoldable pub redact_text : Patterns → String → String
redact_text p input = p.sensitive_path (
    p.well_known_token (
      p.url_credentials (p.cli_secret_flag (p.assignment (p.authorization (p.private_key input))))))

unfoldable pub redact_excerpt : Patterns → String → String
redact_excerpt p input = cap_chars (redact_text p input) max_evidence_excerpt_chars
