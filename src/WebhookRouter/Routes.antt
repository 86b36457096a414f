-- ===== src/WebhookRouter/Routes.antt =====
-- src/gateway/src/core/webhook-router.ts and src/gateway/src/core/base-webhook.ts: the endpoints of
-- the configuration and those that are added while the server runs.
use flopsy.Prelude.{
  Bool, true, false, not, ◌&&◌, Option, none, some, List, [], ◌∷◌, ◌++◌, if◌then◌else◌, keep, Text,
  str_eq,
}
use flopsy.Prelude.JsMap
use flopsy.Prelude.JsMap.{JsMap}
use flopsy.Prelude.Substrings.{some_of}
use flopsy.WebhookRouter.{ExternalWebhookConfig, SignatureSettings, truthy}

-- The routes of the server, and the paths whose routes check their own signatures.
pub record WebhookServer (J : Type 0) : Type 0 where
  pub routes : JsMap (ExternalWebhookConfig J)
  pub routes_own_signature : List Text

pub record WebhookRouter (J : Type 0) : Type 0 where
  pub configs : List (ExternalWebhookConfig J)
  pub is_registered : Bool
  pub runtime_routes : List Text

without : Text → List Text → List Text
unfolding str_eq
without path paths = keep (λ p. not (str_eq p path)) paths

are_both : Option Text → Option SignatureSettings → Bool
are_both (some secret) (some s) = true
are_both (some secret) none = false
are_both none s = false

module _ {J : Type 0} where
  owns_signature : ExternalWebhookConfig J → Bool
  unfolding are_both
  owns_signature cfg = are_both (truthy cfg.secret) cfg.signature

  unfoldable pub register_endpoint : ExternalWebhookConfig J → WebhookServer J → WebhookServer J
  unfolding owns_signature without JsMap.set
  register_endpoint cfg server = record {
    routes = JsMap.set cfg.path cfg server.routes;
    routes_own_signature =
        if owns_signature cfg
        then without cfg.path server.routes_own_signature ++ cfg.path ∷ []
        else without cfg.path server.routes_own_signature;
  }

  register_all : List (ExternalWebhookConfig J) → WebhookServer J → WebhookServer J
  unfolding register_endpoint
  register_all [] server = server
  register_all (cfg ∷ cfgs) server = register_all cfgs (register_endpoint cfg server)

  unfoldable pub register : WebhookRouter J → WebhookServer J → WebhookRouter J × WebhookServer J
  unfolding register_all
  register w server = (record w { is_registered = true }, register_all w.configs server)

  unfoldable pub add_runtime_route :
      ExternalWebhookConfig J
      → WebhookRouter J
      → WebhookServer J
      → Bool × WebhookRouter J × WebhookServer J
  unfolding register_endpoint without
  add_runtime_route cfg w server = if not w.is_registered then (false, w, server) else (
    true,
    record w { runtime_routes = without cfg.path w.runtime_routes ++ cfg.path ∷ [] },
    register_endpoint cfg server,
  )

  unfoldable pub unregister_route : Text → WebhookServer J → Bool × WebhookServer J
  unfolding without JsMap.has JsMap.delete
  unregister_route path server = (
    JsMap.has path server.routes,
    record {
      routes = JsMap.delete path server.routes;
      routes_own_signature = without path server.routes_own_signature;
    },
  )

  unfoldable pub remove_runtime_route :
      Text → WebhookRouter J → WebhookServer J → Bool × WebhookRouter J × WebhookServer J
  unfolding unregister_route without str_eq some_of
  remove_runtime_route path w server =
      if not (w.is_registered && some_of (λ p. str_eq p path) w.runtime_routes)
      then (false, w, server)
      else (let (removed, server') = unregister_route path server in
          (
            removed,
            (if removed then record w { runtime_routes = without path w.runtime_routes } else w),
            server',
          ))
