-- ===== src/WebhookRouter.antt =====
-- src/gateway/src/core/webhook-router.ts (WebhookRouter) and the routes of
-- src/gateway/src/core/base-webhook.ts. A request is handled in one step, as its handler awaits
-- nothing; the log is not modelled.
pub mod Once
pub mod Routes
mod Examples
use flopsy.Prelude.{
  ℕ, ◌+◌, Bool, true, false, not, Option, none, some, List, [], ◌∷◌, ◌++◌, ltb, if◌then◌else◌, keep,
  Text, codes, str_eq, decimal,
}
use flopsy.Prelude.JsMap
use flopsy.Prelude.JsMap.{JsMap}
use flopsy.Prelude.Substrings.{lower_case, some_of}
use flopsy.MessageRouter.{
  WorkerOps, MessageRouter, get_worker, get_or_create_worker_for_key, update_worker,
}
use flopsy.Security.{
  HmacAlgorithm, sha256, DigestFormat, hex, NodeCrypto, verify_webhook_signature, sanitize_text,
  is_safe_identifier,
}

abbrev max_event_body_length : ℕ
max_event_body_length = 50_000

abbrev pub delivery_dedup_ttl_ms : ℕ
delivery_dedup_ttl_ms = 300_000

pub data DeliveryMode : Type 0 where
  always conditional silent : DeliveryMode

pub record SignatureSettings : Type 0 where
  pub header : Text
  pub algorithm : Option HmacAlgorithm
  pub format : Option DigestFormat
  pub prefix : Option Text

-- J are the JSON objects and arrays.
pub record ExternalWebhookConfig (J : Type 0) : Type 0 where
  pub name : Text
  pub path : Text
  pub target_channel : Text
  pub target_thread : Option Text
  pub secret : Option Text
  pub signature : Option SignatureSettings
  pub event_type_header : Option Text
  pub filter_actions : Option (List Text)
  pub delivery_mode : Option DeliveryMode
  pub transform : Option (J → Text)

pub record WebhookRequest : Type 0 where
  pub headers : JsMap Text
  pub body : Text
  pub raw : Option Text

pub record TaskEvent : Type 0 where
  pub task_id : Text
  pub result : Text
  pub completed_at : ℕ
  pub delivery_mode : Option DeliveryMode

pub data WebhookReply : Type 0 where
  invalid_signature duplicate invalid_json filtered : WebhookReply
  no_target dropped_unsafe_id queued_silent routed : WebhookReply

unfoldable pub status : WebhookReply → ℕ
status invalid_signature = 401
status duplicate = 204
status invalid_json = 400
status filtered = 204
status no_target = 202
status dropped_unsafe_id = 202
status queued_silent = 202
status routed = 200

-- JSON.parse to an object or array, none if it throws or gives anything else; the field `action` if
-- it is a string; and JSON.stringify.
pub record JsonOps (J : Type 0) : Type 0 where
  pub parse : Text → Option J
  pub action : J → Option Text
  pub print : J → Text

-- A text that counts as true.
abbrev pub truthy : Option Text → Option Text
truthy none = none
truthy (some []) = none
truthy (some (x ∷ xs)) = some (x ∷ xs)

abbrev or_else {ℓ} : {A : Type ℓ} → Option A → A → A
or_else none a = a
or_else (some b) a = b

abbrev first_some {ℓ} : {A : Type ℓ} → Option A → Option A → Option A
first_some none o = o
first_some (some a) o = some a

signed : NodeCrypto → Text → Text → SignatureSettings → Option Text → Bool
unfolding verify_webhook_signature
signed crypto secret body s none = false
signed crypto secret body s (some sig) = verify_webhook_signature crypto secret body sig (record {
  algorithm = or_else s.algorithm sha256;
  format = or_else s.format hex;
  prefix = s.prefix;
})

verify_with : NodeCrypto → WebhookRequest → Option Text → Option SignatureSettings → Bool
unfolding signed JsMap.get lower_case
verify_with crypto req (some secret) (some s) =
    signed crypto secret (or_else req.raw req.body) s
      (truthy (JsMap.get (lower_case s.header) req.headers))
verify_with crypto req (some secret) none = true
verify_with crypto req none s = true

unfoldable pub delivery_id : WebhookRequest → Option Text
unfolding JsMap.get
delivery_id req = truthy (
    first_some (JsMap.get (codes "x-github-delivery") req.headers) (
      first_some (JsMap.get (codes "x-delivery-id") req.headers)
        (JsMap.get (codes "x-request-id") req.headers)))

unfoldable pub purge : ℕ → JsMap ℕ → JsMap ℕ
purge now recent = keep (λ e. not (ltb (e.1 + delivery_dedup_ttl_ms) now)) recent

-- Whether the delivery is a duplicate, and the deliveries afterwards.
unfoldable pub remember : ℕ → Option Text → JsMap ℕ → Bool × JsMap ℕ
unfolding purge JsMap.has JsMap.set
remember now none recent = (false, recent)
remember now (some key) recent =
    let left = purge now recent in
    if JsMap.has key left then (true, left) else (false, JsMap.set key now left)

allowed : Option (List Text) → Option Text → Bool
unfolding some_of str_eq lower_case
allowed none action = true
allowed (some []) action = true
allowed (some (a ∷ actions)) none = false
allowed (some (a ∷ actions)) (some action) =
    some_of (λ x. str_eq (lower_case x) (lower_case action)) (a ∷ actions)

header_value : Option Text → WebhookRequest → Option Text
unfolding JsMap.get lower_case
header_value none req = none
header_value (some name) req = truthy (JsMap.get (lower_case name) req.headers)

is_silent : Option DeliveryMode → Bool
is_silent (some silent) = true
is_silent _ = false

module _ {J : Type 0} where
  unfoldable pub verify : NodeCrypto → WebhookRequest → ExternalWebhookConfig J → Bool
  unfolding verify_with
  verify crypto req cfg = verify_with crypto req (truthy cfg.secret) cfg.signature

  dedup_key_of : ExternalWebhookConfig J → Option Text → Option Text
  dedup_key_of cfg none = none
  dedup_key_of cfg (some id) = some (cfg.name ++ (b':' ∷ id))

  unfoldable pub dedup_key : ExternalWebhookConfig J → WebhookRequest → Option Text
  unfolding dedup_key_of delivery_id
  dedup_key cfg req = dedup_key_of cfg (delivery_id req)

  unfoldable pub extract_event_type : WebhookRequest → ExternalWebhookConfig J → Text
  unfolding header_value
  extract_event_type req cfg = or_else (header_value (truthy cfg.event_type_header) req) cfg.name

  summary_of : JsonOps J → Option (J → Text) → J → Text
  unfolding sanitize_text
  summary_of json none parsed = sanitize_text (json.print parsed) max_event_body_length
  summary_of json (some transform) parsed = transform parsed

module _ {C W M J : Type 0} (ops : WorkerOps C W M) (inject_event : TaskEvent → W → W)
    (json : JsonOps J) (crypto : NodeCrypto) where
  -- The router after a worker was looked for, and the key of the worker.
  exact_or_created :
      Text → Option (Text × W) → MessageRouter C W M → MessageRouter C W M × Option Text
  unfolding get_or_create_worker_for_key JsMap.has
  exact_or_created key (some (k, w)) r = (r, some k)
  exact_or_created key none r =
      let r' = get_or_create_worker_for_key ops key r in
      (r', if JsMap.has key r'.workers then some key else none)

  abbrev key_of : Option (Text × W) → Option Text
  key_of none = none
  key_of (some (k, w)) = some k

  target : Option Text → Text → MessageRouter C W M → MessageRouter C W M × Option Text
  unfolding exact_or_created get_worker
  target none channel r = (r, key_of (get_worker ops channel r))
  target (some thread) channel r = exact_or_created thread (get_worker ops thread r) r

  inject :
      ℕ
      → ExternalWebhookConfig J
      → WebhookRequest
      → J
      → MessageRouter C W M × Option Text
      → WebhookReply × MessageRouter C W M
  unfolding update_worker extract_event_type summary_of is_safe_identifier is_silent
  inject now cfg req parsed (r, none) = (no_target, r)
  inject now cfg req parsed (r, some key) =
      let event_type = extract_event_type req cfg in
      let task_id = cfg.name ++ (b'-' ∷ (event_type ++ (b'-' ∷ decimal now))) in
      if not (is_safe_identifier task_id 128) then (dropped_unsafe_id, r) else (
        if is_silent cfg.delivery_mode then queued_silent else routed,
        update_worker ops
            (inject_event (record {
              task_id = task_id;
              result =
                  b'['
                  ∷ (cfg.name
                      ++ (codes "] "
                          ++ (event_type ++ (10 ∷ summary_of json cfg.transform parsed))));
              completed_at = now;
              delivery_mode = cfg.delivery_mode;
            }))
            key r,
      )

  deliver :
      ℕ
      → ExternalWebhookConfig J
      → WebhookRequest
      → Option J
      → MessageRouter C W M
      → WebhookReply × MessageRouter C W M
  unfolding allowed target inject
  deliver now cfg req none r = (invalid_json, r)
  deliver now cfg req (some parsed) r =
      if not (allowed cfg.filter_actions (json.action parsed))
      then (filtered, r)
      else inject now cfg req parsed (target (truthy cfg.target_thread) cfg.target_channel r)

  handle_new :
      ℕ
      → ExternalWebhookConfig J
      → WebhookRequest
      → MessageRouter C W M
      → Bool × JsMap ℕ
      → WebhookReply × MessageRouter C W M × JsMap ℕ
  unfolding deliver
  handle_new now cfg req r (true, recent) = (duplicate, r, recent)
  handle_new now cfg req r (false, recent) =
      let (reply, r') = deliver now cfg req (json.parse req.body) r in (reply, r', recent)

  unfoldable pub handle :
      ℕ
      → ExternalWebhookConfig J
      → WebhookRequest
      → MessageRouter C W M
      → JsMap ℕ
      → WebhookReply × MessageRouter C W M × JsMap ℕ
  unfolding verify handle_new remember dedup_key
  handle now cfg req r recent =
      if not (verify crypto req cfg)
      then (invalid_signature, r, recent)
      else handle_new now cfg req r (remember now (dedup_key cfg req) recent)
