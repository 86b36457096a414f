-- ===== src/MessageRouter/Examples.antt =====
-- Runs of the message router, over workers that are no more than what it asks of them.
use flopsy.Prelude.{
  ℕ, ◌+◌, ◌≡◌, refl, Bool, true, ◌&&◌, none, some, List, [], ◌∷◌, ltb, Text, codes, str_eq,
  starts_with,
}
use flopsy.Prelude.JsMap
use flopsy.Prelude.JsMap.{JsMap}
use flopsy.RoutingKey.{user, per_chat, build_routing_key, key_belongs_to_channel}
use flopsy.MessageRouter.{
  InboundMessage, WorkerOps, MessageRouter, new_router, idle_ttl_ms, register_channel, route,
  get_worker, sweep_idle_workers, unregister_channel, get_or_create_worker_for_key,
}
use flopsy.MessageRouter.Workers.{Chosen, get_worker-Chosen}
use flopsy.MessageRouter.Eviction.{get-sweep_idle_workers-unregister_channel, unless}

pub record Worker : Type 0 where
  pub active_at : ℕ
  pub idle : Bool
  pub events : List Text

abbrev pub worker_ops : WorkerOps Text Worker ℕ
worker_ops = record {
  channel_name = λ c. c;
  create = λ c key model. record { active_at = 0; idle = true; events = [] };
  start = λ w. w;
  last_active_at = λ w. w.active_at;
  is_idle = λ w. w.idle;
  dispatch = λ m w. record w { active_at = 5; events = m.id ∷ w.events };
  set_default_peer = λ p w. w;
  set_structured_output_model = λ m w. w;
}

abbrev message : InboundMessage
message = record {
  id = codes "m1";
  peer = record { id = codes "42"; type = user };
  sender_id = none;
}

abbrev pub telegram : MessageRouter Text Worker ℕ
telegram = register_channel worker_ops (codes "telegram") (new_router per_chat)

abbrev busy : MessageRouter Text Worker ℕ
busy = route worker_ops message (codes "telegram") telegram

abbrev busy_worker : Worker
busy_worker = record { active_at = 5; idle = true; events = codes "m1" ∷ [] }

routed_by_channel :
    get_worker worker_ops (codes "telegram") busy ≡ some (codes "telegram:dm:42", busy_worker)
unfolding get_worker route register_channel new_router build_routing_key key_belongs_to_channel
    str_eq starts_with
routed_by_channel = refl

get_worker-Chosen_example :
    Chosen worker_ops (codes "telegram") busy (get_worker worker_ops (codes "telegram") busy)
get_worker-Chosen_example = get_worker-Chosen worker_ops (codes "telegram") busy

busy-Distinct : JsMap.Distinct busy.workers
unfolding route register_channel new_router build_routing_key str_eq
busy-Distinct = (refl, tt)

get-sweep_idle_workers-unregister_channel_example :
    (JsMap.get (codes "telegram:dm:42") (sweep_idle_workers worker_ops 9 busy).1.workers
      ≡ unless worker_ops
          (λ w. ltb (w.active_at + idle_ttl_ms) 9 && w.idle)
          (JsMap.get (codes "telegram:dm:42") busy.workers))
    × (JsMap.get
          (codes "telegram:dm:42")
          (unregister_channel worker_ops (codes "telegram") busy).workers
        ≡ unless worker_ops
            (λ w. key_belongs_to_channel (codes "telegram:dm:42") (codes "telegram"))
            (JsMap.get (codes "telegram:dm:42") busy.workers))
get-sweep_idle_workers-unregister_channel_example =
    get-sweep_idle_workers-unregister_channel worker_ops 9 (codes "telegram")
      (codes "telegram:dm:42") busy busy-Distinct

-- A channel that was unregistered still gets a worker for a key.
revived :
    get_worker worker_ops (codes "telegram") (
      get_or_create_worker_for_key worker_ops
        (codes "telegram:dm:42")
        (unregister_channel worker_ops (codes "telegram") busy))
    ≡ some (codes "telegram:dm:42", record { active_at = 0; idle = true; events = [] })
unfolding get_worker route register_channel new_router build_routing_key key_belongs_to_channel
    unregister_channel get_or_create_worker_for_key str_eq starts_with
revived = refl
