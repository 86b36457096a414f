-- ===== src/Vault/Request.antt =====
-- src/vault/src/server/proxy.ts: the texts that the proxy reads, which are the target and the
-- credentials of a CONNECT request and the head of a decrypted one, whose limit of 64 KB is not modelled. The header object is a Map, in
-- the order of insertion.
use flopsy.Prelude.{
  ℕ, ◌+◌, ◌-◌, ◌*◌, Bool, true, false, not, ◌&&◌, ◌||◌, Option, none, some, List, [], ◌∷◌, ◌++◌,
  leb, ◌==◌, if◌then◌else◌, length, take, drop, Text, codes, str_eq, starts_with, trim,
}
use flopsy.Prelude.JsMap
use flopsy.Prelude.JsMap.{JsMap}
use flopsy.Prelude.Substrings.{split_on, onto_first, cut_at, lower_case, some_of}
use flopsy.Prelude.{is_space, trim_start}
use flopsy.Vault.Store.{every}

pub record Target : Type 0 where
  pub host : Text
  pub port : ℕ

abbrev is_digit : ℕ → Bool
is_digit x = leb b'0' x && leb x b'9'

-- The number that a text begins with, after the digits that came before.
more_digits : ℕ → Text → ℕ
more_digits acc [] = acc
more_digits acc (x ∷ xs) =
    let rest = more_digits (acc * 10 + (x - b'0')) xs in if is_digit x then rest else acc

digits : Text → Option ℕ
unfolding more_digits
digits [] = none
digits (x ∷ xs) = if is_digit x then some (more_digits 0 (x ∷ xs)) else none

unsigned : Text → Option ℕ
unfolding digits
unsigned [] = none
unsigned (x ∷ xs) = if x == b'+' then digits xs else digits (x ∷ xs)

-- `parseInt(s, 10)`, with none for a result that is no number or is negative.
unfoldable pub parse_int : Text → Option ℕ
unfolding unsigned trim_start
parse_int s = unsigned (trim_start s)

target_of : Text → Option ℕ → Option Target
target_of host none = none
target_of host (some port) =
    if leb 1 (length host) && (leb 1 port && leb port 65_535)
    then some (record { host = host; port = port })
    else none

two_parts : List Text → Option Target
unfolding target_of parse_int trim
two_parts [] = none
two_parts (a ∷ []) = none
two_parts (a ∷ b ∷ []) = target_of (trim a) (parse_int b)
two_parts (a ∷ b ∷ d ∷ ps) = none

unfoldable pub parse_connect_target : Option Text → Option Target
unfolding two_parts split_on
parse_connect_target none = none
parse_connect_target (some url) = two_parts (split_on b':' url)

-- What follows a scheme, in any case, and one space.
unfoldable pub credentials : Text → Text → Option Text
unfolding lower_case starts_with
credentials scheme auth =
    if starts_with (lower_case auth) scheme && some_of is_space (take 1 (drop (length scheme) auth))
    then some (drop (1 + length scheme) auth)
    else none

abbrev is_base64 : ℕ → Bool
is_base64 x =
    ((leb b'A' x && leb x b'Z') || (leb b'a' x && leb x b'z'))
    || (is_digit x || (x == b'+' || (x == b'/' || x == b'=')))

non_empty : Text → Option Text
non_empty [] = none
non_empty (x ∷ xs) = some (x ∷ xs)

before_colon : Text → Option (Text × Text) → Text
before_colon decoded none = decoded
before_colon decoded (some (user, password)) = user

-- The user name of Basic credentials. `Buffer.from(s, 'base64').toString('utf8')` is an argument.
basic_token : (Text → Text) → Option Text → Option Text
unfolding trim_start every cut_at before_colon non_empty
basic_token base64_text none = none
basic_token base64_text (some rest) =
    let encoded = trim_start rest in
    let decoded = base64_text encoded in
    if leb 1 (length encoded) && every is_base64 encoded
    then non_empty (before_colon decoded (cut_at b':' decoded))
    else none

bearer_or : (Text → Text) → Text → Option Text → Option Text
unfolding basic_token credentials trim
bearer_or base64_text auth none = basic_token base64_text (credentials (codes "basic") auth)
bearer_or base64_text auth (some []) = basic_token base64_text (credentials (codes "basic") auth)
bearer_or base64_text auth (some (x ∷ xs)) = some (trim (x ∷ xs))

unfoldable pub read_bearer : (Text → Text) → Option Text → Option Text
unfolding bearer_or credentials
read_bearer base64_text none = none
read_bearer base64_text (some auth) = bearer_or base64_text auth (credentials (codes "bearer") auth)

-- A header of a request: one value, or the values of a header that was repeated.
pub data HeaderValue : Type 0 where
  one_value : Text → HeaderValue
  values : List Text → HeaderValue

abbrev pub Headers : Type 0
Headers = JsMap HeaderValue

without_newline : List Text → List Text
without_newline [] = [] ∷ []
without_newline (p ∷ ps) = [] ∷ drop 1 p ∷ ps

unfoldable pub split_lines : Text → List Text
unfolding starts_with without_newline
split_lines [] = [] ∷ []
split_lines (x ∷ xs) =
    let rest = split_lines xs in
    if x == 13 && starts_with xs (10 ∷ []) then without_newline rest else onto_first x rest

abbrev allowed_methods : List Text
allowed_methods =
    codes "GET"
    ∷ codes "POST"
    ∷ codes "PUT"
    ∷ codes "PATCH"
    ∷ codes "DELETE"
    ∷ codes "HEAD"
    ∷ codes "OPTIONS"
    ∷ []

method_and_path : List Text → Option (Text × Text)
unfolding some_of str_eq every
method_and_path [] = none
method_and_path (method ∷ []) = none
method_and_path (method ∷ path ∷ ps) =
    if leb 1 (length path)
      && (some_of (λ m. str_eq m method) allowed_methods
          && every (λ x. not (x == 13 || (x == 10 || x == 0))) path)
    then some (method, path)
    else none

unfoldable pub add_header : Text → Text → Headers → Option HeaderValue → Headers
unfolding JsMap.set
add_header name value headers none = JsMap.set name (one_value value) headers
add_header name value headers (some (one_value v)) =
    JsMap.set name (values (v ∷ value ∷ [])) headers
add_header name value headers (some (values vs)) =
    JsMap.set name (values (vs ++ value ∷ [])) headers

-- A line with a value that is not printable ASCII fails; a line with no colon is passed over.
read_line : Option (Text × Text) → Headers → Option Headers
unfolding add_header every trim lower_case JsMap.get
read_line none headers = some headers
read_line (some (before, after)) headers =
    let name = lower_case (trim before) in
    let value = trim after in
    if every (λ x. (leb 32 x && leb x 126) || x == 9) value
    then some (add_header name value headers (JsMap.get name headers))
    else none

read_lines : List Text → Option Headers → Option Headers
unfolding read_line cut_at
read_lines lines none = none
read_lines [] (some headers) = some headers
read_lines (l ∷ ls) (some headers) = read_lines ls (read_line (cut_at b':' l) headers)

is_truthy : Option HeaderValue → Bool
is_truthy none = false
is_truthy (some (one_value v)) = leb 1 (length v)
is_truthy (some (values vs)) = true

is_repeated : Option HeaderValue → Bool
is_repeated none = false
is_repeated (some (one_value v)) = false
is_repeated (some (values vs)) = true

-- Two lengths, or a length beside a transfer encoding.
unfoldable pub is_ambiguous : Headers → Bool
unfolding is_repeated is_truthy JsMap.get
is_ambiguous headers =
    let content_length = JsMap.get (codes "content-length") headers in
    is_repeated content_length
    || (is_truthy content_length && is_truthy (JsMap.get (codes "transfer-encoding") headers))

pub record RequestHead : Type 0 where
  pub method : Text
  pub path : Text
  pub headers : Headers

with_headers : Option (Text × Text) → Option Headers → Option RequestHead
unfolding is_ambiguous
with_headers (some (method, path)) (some headers) =
    if is_ambiguous headers
    then none
    else some (record { method = method; path = path; headers = headers })
with_headers none _ = none
with_headers (some line) none = none

first_line : List Text → Text
first_line [] = []
first_line (l ∷ ls) = l

-- The head of a request, or none where the proxy answers 400.
unfoldable pub parse_head : Text → Option RequestHead
unfolding split_lines split_on method_and_path read_lines with_headers first_line
parse_head text =
    let lines = split_lines text in
    with_headers (method_and_path (split_on 32 (first_line lines)))
      (read_lines (drop 1 lines) (some []))
