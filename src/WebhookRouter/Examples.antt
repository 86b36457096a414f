-- ===== src/WebhookRouter/Examples.antt =====
-- Runs of the webhook router.
use flopsy.Prelude.{
  ℕ, ◌≡◌, refl, sym, ◌∙◌, ◌≢◌, true, none, some, [], ◌∷◌, arith, Text, codes, str_eq, decimal,
}
use flopsy.MessageRouter.{
  MessageRouter, register_channel, new_router, get_worker, get_or_create_worker_for_key,
}
use flopsy.MessageRouter.Examples.{Worker, worker_ops, telegram}
use flopsy.Security.{NodeCrypto}
use flopsy.WebhookRouter.{
  ExternalWebhookConfig, WebhookRequest, TaskEvent, duplicate, no_target, routed, JsonOps, verify,
  dedup_key, handle,
}
use flopsy.WebhookRouter.Once.{Delivery, handled, remembered, handled-remembered}

abbrev json : JsonOps Text
json = record { parse = λ t. some t; action = λ t. none; print = λ t. t }

abbrev crypto : NodeCrypto
crypto = record { hmac = λ a s b f. b; decode = λ f t. t; to_utf8 = λ t. t }

abbrev inject_event : TaskEvent → Worker → Worker
inject_event e w = record w { events = e.task_id ∷ w.events }

abbrev github : ExternalWebhookConfig Text
github = record {
  name = codes "github";
  path = codes "/webhook/github";
  target_channel = codes "telegram";
  target_thread = none;
  secret = none;
  signature = none;
  event_type_header = none;
  filter_actions = none;
  delivery_mode = none;
  transform = none;
}

abbrev push : WebhookRequest
push = record {
  headers = (codes "x-github-delivery", codes "d1") ∷ [];
  body = codes "x";
  raw = none;
}

-- A router that knows the channel has no worker yet, and another has one.
abbrev with_worker : MessageRouter Text Worker ℕ
with_worker = get_or_create_worker_for_key worker_ops (codes "telegram:dm:42") telegram

abbrev at : ℕ → MessageRouter Text Worker ℕ → Delivery Text Worker ℕ Text
at now r = record { now = now; config = github; request = push; router = r }

first_reply : (handled worker_ops inject_event json crypto (at 10 telegram) []).0 ≡ no_target
unfolding handled handle register_channel new_router get_worker
first_reply = refl

reply_with_worker : (handled worker_ops inject_event json crypto (at 10 with_worker) []).0 ≡ routed
unfolding handled handle register_channel new_router get_worker get_or_create_worker_for_key decimal
reply_with_worker = refl

first_not_duplicate :
    (handled worker_ops inject_event json crypto (at 10 telegram) []).0 ≢ duplicate
first_not_duplicate h = let p : no_target ≡ duplicate = sym first_reply ∙ h in cc

push_verified : verify crypto push github ≡ true
unfolding verify
push_verified = refl

push_key : dedup_key github push ≡ some (codes "github:d1")
unfolding dedup_key str_eq
push_key = refl

-- The delivery that found no target is not taken when it comes again and a worker is there.
handled-remembered_example :
    ((handled worker_ops inject_event json crypto (at 20 with_worker) (
        remembered worker_ops inject_event json crypto []
          (handled worker_ops inject_event json crypto (at 10 telegram) []).2)).0
      ≡ duplicate)
    × ((handled worker_ops inject_event json crypto (at 20 with_worker) (
          remembered worker_ops inject_event json crypto []
            (handled worker_ops inject_event json crypto (at 10 telegram) []).2)).1
        ≡ with_worker)
handled-remembered_example =
    handled-remembered worker_ops inject_event json crypto (at 10 telegram) (at 20 with_worker) []
      (codes "github:d1") [] push_verified push_verified push_key push_key first_not_duplicate tt
      (omega arith)
