-- ===== src/Security.antt =====
-- src/gateway/src/core/security.ts: the checks of tokens, addresses, identifiers and signatures. The
-- limiter of the same file has its own module.
use flopsy.Prelude.{
  ℕ, Bool, true, false, not, ◌&&◌, ◌||◌, Option, none, some, List, [], ◌∷◌, ltb, leb, ◌==◌,
  if◌then◌else◌, length, take, drop, keep, Text, codes, str_eq, starts_with, trim, Outcome,
  returned, thrown,
}
use flopsy.Prelude.Substrings.{some_of}

abbrev Bytes : Type 0
Bytes = List ℕ

pub data HmacAlgorithm : Type 0 where
  sha1 sha256 sha512 : HmacAlgorithm

pub data DigestFormat : Type 0 where
  hex base64 : DigestFormat

pub record WebhookSignatureConfig : Type 0 where
  pub algorithm : HmacAlgorithm
  pub format : DigestFormat
  pub prefix : Option Text

-- node:crypto and Buffer: the HMAC of a body under a secret, printed in a format; the bytes that a
-- text stands for in a format; and UTF-8.
pub record NodeCrypto : Type 0 where
  pub hmac : HmacAlgorithm → Text → Text → DigestFormat → Text
  pub decode : DigestFormat → Text → Bytes
  pub to_utf8 : Text → Bytes

abbrev pub is_empty : Text → Bool
is_empty [] = true
is_empty (x ∷ xs) = false

without_prefix : Option Text → Text → Text
unfolding starts_with
without_prefix none signature = signature
without_prefix (some prefix) signature =
    if starts_with signature prefix then drop (length prefix) signature else signature

-- `timingSafeEqual`, which throws on bytes of different lengths.
timing_safe_equal : Bytes → Bytes → Outcome (Unit {0}) Bool
unfolding str_eq
timing_safe_equal a b = if length a == length b then returned (str_eq a b) else thrown tt

false_if_thrown : Outcome (Unit {0}) Bool → Bool
false_if_thrown (thrown e) = false
false_if_thrown (returned b) = b

unfoldable pub verify_webhook_signature :
    NodeCrypto → Text → Text → Text → WebhookSignatureConfig → Bool
unfolding without_prefix timing_safe_equal false_if_thrown
verify_webhook_signature crypto secret body signature config =
    if is_empty secret || is_empty signature
    then false
    else (let provided = without_prefix config.prefix signature in
        let expected = crypto.hmac config.algorithm secret body config.format in
        false_if_thrown (
          timing_safe_equal (crypto.decode config.format provided)
            (crypto.decode config.format expected)))

validate_some : NodeCrypto → Text → Text → Bool
unfolding str_eq
validate_some crypto expected provided =
    let a = crypto.to_utf8 expected in
    let b = crypto.to_utf8 provided in
    not (is_empty provided || is_empty expected) && (length a == length b && str_eq a b)

unfoldable pub validate_token : NodeCrypto → Text → Option Text → Bool
unfolding validate_some
validate_token crypto expected none = false
validate_token crypto expected (some provided) = validate_some crypto expected provided

bearer_token : Option Text → Option Text
unfolding starts_with
bearer_token none = none
bearer_token (some auth) = if starts_with auth (codes "Bearer ") then some (drop 7 auth) else none

abbrev is_line_end : ℕ → Bool
is_line_end x = x == 10 || (x == 13 || (x == 0x2028 || x == 0x2029))

-- What `^auth\.(.+)$` captures.
protocol_token : Option Text → Option Text
unfolding starts_with some_of
protocol_token none = none
protocol_token (some protocol) =
    let rest = drop 5 protocol in
    if starts_with protocol (codes "auth.")
      && (not (is_empty rest) && not (some_of is_line_end rest))
    then some rest
    else none

first_of : Option Text → Option Text → Option Text
first_of none o = o
first_of (some t) o = some t

-- The token of the two headers `authorization` and `sec-websocket-protocol`, each if it is one text.
unfoldable pub extract_token : Option Text → Option Text → Option Text
unfolding bearer_token protocol_token first_of
extract_token authorization protocol =
    first_of (bearer_token authorization) (protocol_token protocol)

normalize_ip : Text → Text
unfolding starts_with str_eq
normalize_ip ip =
    if starts_with ip (codes "::ffff:")
    then drop 7 ip
    else if str_eq ip (codes "::1") || str_eq ip (codes "0:0:0:0:0:0:0:1")
    then codes "127.0.0.1"
    else ip

unfoldable pub is_loopback_ip : Text → Bool
unfolding normalize_ip str_eq
is_loopback_ip ip = str_eq ip (codes "localhost") || str_eq (normalize_ip ip) (codes "127.0.0.1")

-- `input.replace(/\0/g, '').trim().slice(0, maxLength)`.
unfoldable pub sanitize_text : Text → ℕ → Text
unfolding trim
sanitize_text input max_length = take max_length (trim (keep (λ x. not (x == 0)) input))

-- `[a-zA-Z0-9._:+@-]`.
is_safe_char : ℕ → Bool
is_safe_char x =
    ((leb b'a' x && leb x b'z') || (leb b'A' x && leb x b'Z'))
    || ((leb b'0' x && leb x b'9')
        || (x == 46 || (x == 95 || (x == 58 || (x == 43 || (x == 64 || x == 45))))))

all_safe : Text → Bool
unfolding is_safe_char
all_safe [] = true
all_safe (x ∷ xs) = is_safe_char x && all_safe xs

unfoldable pub is_safe_identifier : Text → ℕ → Bool
unfolding all_safe
is_safe_identifier id max_length = ltb 0 (length id) && (leb (length id) max_length && all_safe id)
