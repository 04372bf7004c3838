-- ===== src/Redaction/Value.antt =====
-- src/redaction.rs: the scrubber of JSON values. A sensitive key loses its value, and a key that is
-- itself sensitive gets a fresh name.
pub mod Names
pub mod Keys
pub mod Clean
mod Tests
use previously_on.Prelude.{
  ℕ, zero, suc, ◌+◌, min, String, Option, none, some, List, [], ◌∷◌, ◌++◌, Bool, true, false, ◌&&◌,
  ◌||◌, not, leb, ◌==◌, string_partial_eq, nat_partial_eq, list_eq, filter, any, contains, length,
  concat, decimal, codes, begins, to_ascii_lowercase, is_one_of, reverse, if◌then◌else◌,
}
use previously_on.Redaction.{Patterns, redact_text, redact_excerpt, redacted_marker}
use previously_on.Json.{
  Value, Items, Fields, null, boolean, number, string, array, object, nil, item, end, field, keys,
  insert, as_str,
}

is_ascii_alphanumeric : ℕ → Bool
is_ascii_alphanumeric c =
    (leb b'0' c && leb c b'9') || (leb b'A' c && leb c b'Z') || (leb b'a' c && leb c b'z')

secret_names : List String
secret_names =
    "authorization" ∷ "auth" ∷ "cookie" ∷ "setcookie" ∷ "credential" ∷ "credentials" ∷ "password"
    ∷ "passwd" ∷ "privatekey" ∷ "token" ∷ "databaseurl" ∷ "connectionstring" ∷ "connectionurl"
    ∷ "dsn" ∷ []

secret_suffixes : List String
secret_suffixes =
    "token" ∷ "auth" ∷ "cookie" ∷ "credential" ∷ "credentials" ∷ "privatekey" ∷ "apikey"
    ∷ "accesstoken" ∷ "refreshtoken" ∷ "authtoken" ∷ "idtoken" ∷ "sessiontoken" ∷ "clientsecret"
    ∷ "secretkey" ∷ "secretaccesskey" ∷ "signingkey" ∷ []

-- `ends_with`, on code points.
ends_with : List ℕ → List ℕ → Bool
ends_with suffix text = begins (reverse suffix) (reverse text)

unfoldable pub is_sensitive_key : String → Bool
unfolding is_ascii_alphanumeric secret_names secret_suffixes ends_with
is_sensitive_key key =
    let normalized = to_ascii_lowercase (filter is_ascii_alphanumeric (codes key)) in
    is_one_of normalized secret_names
    || any (λ suffix. ends_with (codes suffix) normalized) secret_suffixes

unfoldable pub eq_ignore_ascii_case : String → String → Bool
eq_ignore_ascii_case a b = list_eq (to_ascii_lowercase (codes a)) (to_ascii_lowercase (codes b))

abbrev pub candidate_key : ℕ → String
candidate_key index = concat ("[REDACTED_KEY_" ∷ decimal index ∷ "]" ∷ [])

-- `saturating_add(1)` on `u32`.
abbrev pub next_index : ℕ → ℕ
next_index index = min (index + 1) 4294967295

-- The `loop` that looks for a name that is not taken, on fuel: the name, and the index after it.
unfoldable pub free_key : ℕ → ℕ → List String → String × ℕ
free_key zero index taken = (candidate_key index, next_index index)
free_key (suc fuel) index taken =
    let rest = free_key fuel (next_index index) taken in
    if contains taken (candidate_key index) then rest else (candidate_key index, next_index index)

-- The name of a field in the output, and the index for the next fresh name.
unfoldable pub output_key : Patterns → List String → List String → ℕ → String → String × ℕ
output_key p taken_in taken_out index key =
    if redact_text p key == key
    then (key, index)
    else free_key (length (taken_in ++ taken_out)) index (taken_in ++ taken_out)

abbrev pub str_or_default : Value → String
str_or_default (string s) = s
str_or_default _ = ""

-- The value of a field in the output; `inner` is the redacted value.
unfoldable pub field_value : Patterns → String → Value → Value → Value
field_value p key v inner =
    if is_sensitive_key key
    then string redacted_marker
    else if eq_ignore_ascii_case key "excerpt"
    then string (redact_excerpt p (str_or_default v))
    else inner

unfoldable mutual
  pub redact_value : Patterns → Value → Value
  redact_value p null = null
  redact_value p (boolean b) = boolean b
  redact_value p (number n) = number n
  redact_value p (string text) = string (redact_text p text)
  redact_value p (array items) = array (redact_items p items)
  redact_value p (object fields) = object (redact_fields p (keys fields) fields 0 end)

  pub redact_items : Patterns → Items → Items
  redact_items p nil = nil
  redact_items p (item v rest) = item (redact_value p v) (redact_items p rest)

  -- The loop over the entries, with the index of the next fresh name and the output so far.
  pub redact_fields : Patterns → List String → Fields → ℕ → Fields → Fields
  redact_fields p taken end index output = output
  redact_fields p taken (field key v rest) index output =
      let inner = redact_value p v in
      let value = field_value p key v (redact_value p v) in
      let (name, next) = output_key p taken (keys output) index key in
      redact_fields p taken rest next (insert name value output)
