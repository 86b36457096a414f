-- ===== src/Vault/Inject.antt =====
-- src/vault/src/server/proxy.ts, applyRule: what a rule changes in a request.
use flopsy.Prelude.{
  Bool, false, ◌||◌, Option, none, some, List, [], ◌∷◌, ◌++◌, if◌then◌else◌, Text, str_eq,
}
use flopsy.Prelude.JsMap
use flopsy.Prelude.JsMap.{JsMap}
use flopsy.Prelude.Substrings.{includes, replace_all, cut_at, lower_case}
use flopsy.Vault.Rules.{InjectInto, header, any_header, body, query, any_query}
use flopsy.Vault.Request.{HeaderValue, one_value, values, Headers}

-- URLSearchParams: a query string read as pairs, and pairs printed.
pub record UrlSearchParams : Type 0 where
  pub parse : Text → JsMap Text
  pub print : JsMap Text → Text

-- `params.set`: the first pair of the key is changed and the others go.
unfoldable pub params_set : Text → Text → JsMap Text → JsMap Text
unfolding JsMap.delete
params_set k v [] = (k, v) ∷ []
params_set k v ((j, w) ∷ m) =
    if str_eq j k then (j, v) ∷ JsMap.delete k m else (j, w) ∷ params_set k v m

pub record ApplyContext : Type 0 where
  pub headers : Headers
  pub url_path : Text

-- The keys of the parameters, in order.
abbrev keys_of : JsMap Text → List Text
keys_of [] = []
keys_of ((k, v) ∷ m) = k ∷ keys_of m

holds_placeholder : Text → HeaderValue → Bool
unfolding includes
holds_placeholder placeholder (one_value v) = includes v placeholder
holds_placeholder placeholder (values vs) = false

unfoldable pub replace_in : Text → Text → HeaderValue → HeaderValue
unfolding holds_placeholder replace_all
replace_in placeholder real (values vs) = values vs
replace_in placeholder real (one_value v) =
    if includes v placeholder then one_value (replace_all v placeholder real) else one_value v

unfoldable pub replace_headers : Text → Text → Headers → Headers
unfolding replace_in
replace_headers placeholder real [] = []
replace_headers placeholder real ((k, v) ∷ m) =
    (k, replace_in placeholder real v) ∷ replace_headers placeholder real m

any_holds : Text → Headers → Bool
unfolding holds_placeholder
any_holds placeholder [] = false
any_holds placeholder ((k, v) ∷ m) = holds_placeholder placeholder v || any_holds placeholder m

param_holds : Text → Option Text → Bool
unfolding includes
param_holds placeholder none = false
param_holds placeholder (some v) = includes v placeholder

replace_param : Text → Text → Text → Option Text → JsMap Text → JsMap Text
unfolding params_set replace_all includes
replace_param key placeholder real none params = params
replace_param key placeholder real (some v) params =
    if includes v placeholder
    then params_set key (replace_all v placeholder real) params
    else params

-- The loop over the keys, which reads every value when it comes to it.
unfoldable pub replace_params : Text → Text → List Text → JsMap Text → JsMap Text
unfolding replace_param JsMap.get
replace_params placeholder real [] params = params
replace_params placeholder real (k ∷ ks) params =
    replace_params placeholder real ks
      (replace_param k placeholder real (JsMap.get k params) params)

any_param_holds : Text → List Text → JsMap Text → Bool
unfolding param_holds JsMap.get
any_param_holds placeholder [] params = false
any_param_holds placeholder (k ∷ ks) params =
    param_holds placeholder (JsMap.get k params) || any_param_holds placeholder ks params

checked_keys : Option Text → JsMap Text → List Text
checked_keys none params = keys_of params
checked_keys (some k) params = k ∷ []

module _ (url : UrlSearchParams) where
  -- What a rule would change: none if it finds no placeholder, else what the secret makes of the
  -- request.
  header_target : Text → Text → Option HeaderValue → ApplyContext → Option (Text → ApplyContext)
  unfolding holds_placeholder replace_in JsMap.set
  header_target name placeholder none ctx = none
  header_target name placeholder (some v) ctx =
      if holds_placeholder placeholder v
      then some (λ real. record ctx {
        headers = JsMap.set name (replace_in placeholder real v) ctx.headers;
      })
      else none

  query_target :
      Option Text → Text → Option (Text × Text) → ApplyContext → Option (Text → ApplyContext)
  unfolding any_param_holds replace_params checked_keys
  query_target key placeholder none ctx = none
  query_target key placeholder (some (path, text)) ctx =
      let params = url.parse text in
      let keys = checked_keys key params in
      if any_param_holds placeholder keys params
      then some (λ real. record ctx {
        url_path = path ++ (b'?' ∷ url.print (replace_params placeholder real keys params));
      })
      else none

  unfoldable pub injection : Option InjectInto → Text → ApplyContext → Option (Text → ApplyContext)
  unfolding header_target query_target any_holds replace_headers cut_at lower_case JsMap.get
  injection none placeholder ctx = none
  injection (some (header name)) placeholder ctx =
      header_target (lower_case name) placeholder (JsMap.get (lower_case name) ctx.headers) ctx
  injection (some any_header) placeholder ctx =
      if any_holds placeholder ctx.headers
      then some (λ real. record ctx { headers = replace_headers placeholder real ctx.headers })
      else none
  injection (some (query name)) placeholder ctx =
      query_target (some name) placeholder (cut_at b'?' ctx.url_path) ctx
  injection (some any_query) placeholder ctx =
      query_target none placeholder (cut_at b'?' ctx.url_path) ctx
  injection (some body) placeholder ctx = none
