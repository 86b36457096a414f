-- ===== src/MessageRouter.antt =====
-- src/gateway/src/core/message-router.ts: the workers of the routing keys. What the router uses of a
-- ChannelWorker is an interface; a worker that it stops is added to a list, the last one first.
pub mod Workers
pub mod Eviction
pub mod Examples
use flopsy.Prelude.{
  ℕ, ◌+◌, Bool, true, false, ◌&&◌, Option, none, some, List, [], ◌∷◌, ◌++◌, ltb, if◌then◌else◌,
  length, keep, Text,
}
use flopsy.Prelude.JsMap
use flopsy.Prelude.JsMap.{JsMap}
use mathlib.Core.List.{reverse}
use flopsy.RoutingKey.{
  Peer, GroupScope, build_routing_key, key_belongs_to_channel, channel_from_key, peer_from_key,
}

abbrev pub idle_ttl_ms : ℕ
idle_ttl_ms = 21_600_000

pub record InboundMessage : Type 0 where
  pub id : Text
  pub peer : Peer
  pub sender_id : Option Text

-- What the router asks of a channel C and of a worker W; M are the models for structured output.
pub record WorkerOps (C W M : Type 0) : Type 0 where
  pub channel_name : C → Text
  pub create : C → Text → Option M → W
  pub start : W → W
  pub last_active_at : W → ℕ
  pub is_idle : W → Bool
  pub dispatch : InboundMessage → W → W
  pub set_default_peer : Peer → W → W
  pub set_structured_output_model : Option M → W → W

pub record MessageRouter (C W M : Type 0) : Type 0 where
  pub workers : JsMap W
  pub channels : JsMap C
  pub group_scope : GroupScope
  pub structured_output_model : Option M
  pub sweeping : Bool
  pub stopped : List W

unfoldable pub new_router : {C W M : Type 0} → GroupScope → MessageRouter C W M
new_router scope = record {
  workers = [];
  channels = [];
  group_scope = scope;
  structured_output_model = none;
  sweeping = true;
  stopped = [];
}

module _ {C W M : Type 0} (ops : WorkerOps C W M) where
  -- `lastActiveAt < now - IDLE_TTL_MS`, and nothing in flight.
  is_victim : ℕ → W → Bool
  is_victim now w = ltb (ops.last_active_at w + idle_ttl_ms) now && ops.is_idle w

  keys_where : (Text → W → Bool) → JsMap W → List Text
  keys_where p [] = []
  keys_where p ((k, w) ∷ m) = if p k w then k ∷ keys_where p m else keys_where p m

  stop_and_delete : Text → Option W → MessageRouter C W M → MessageRouter C W M
  unfolding JsMap.delete
  stop_and_delete key none r = r
  stop_and_delete key (some w) r = record r {
    workers = JsMap.delete key r.workers;
    stopped = w ∷ r.stopped;
  }

  unfoldable pub evict_keys : List Text → MessageRouter C W M → MessageRouter C W M
  unfolding stop_and_delete JsMap.get
  evict_keys [] r = r
  evict_keys (k ∷ ks) r = evict_keys ks (stop_and_delete k (JsMap.get k r.workers) r)

  unfoldable pub sweep_idle_workers : ℕ → MessageRouter C W M → ℕ × MessageRouter C W M
  unfolding keys_where is_victim evict_keys
  sweep_idle_workers now r =
      let victims = keys_where (λ k w. is_victim now w) r.workers in
      (length victims, evict_keys victims r)

  update_all : (W → W) → JsMap W → JsMap W
  update_all f [] = []
  update_all f ((k, w) ∷ m) = (k, f w) ∷ update_all f m

  unfoldable pub set_structured_output_model : Option M → MessageRouter C W M → MessageRouter C W M
  unfolding update_all
  set_structured_output_model model r = record r {
    structured_output_model = model;
    workers = update_all (ops.set_structured_output_model model) r.workers;
  }

  unfoldable pub create_worker : C → Text → MessageRouter C W M → MessageRouter C W M
  unfolding JsMap.set
  create_worker c key r = record r {
    workers = JsMap.set key (ops.start (ops.create c key r.structured_output_model)) r.workers;
  }

  or_created : Option W → C → Text → MessageRouter C W M → MessageRouter C W M
  unfolding create_worker
  or_created (some w) c key r = r
  or_created none c key r = create_worker c key r

  unfoldable pub get_or_create_worker : C → Text → MessageRouter C W M → MessageRouter C W M
  unfolding or_created JsMap.get
  get_or_create_worker c key r = or_created (JsMap.get key r.workers) c key r

  -- A change of the worker of a key, which is a shared object.
  change : (W → W) → Text → Option W → MessageRouter C W M → MessageRouter C W M
  unfolding JsMap.set
  change f key none r = r
  change f key (some w) r = record r { workers = JsMap.set key (f w) r.workers }

  unfoldable pub update_worker : (W → W) → Text → MessageRouter C W M → MessageRouter C W M
  unfolding change JsMap.get
  update_worker f key r = change f key (JsMap.get key r.workers) r

  unfoldable pub route : InboundMessage → C → MessageRouter C W M → MessageRouter C W M
  unfolding get_or_create_worker update_worker build_routing_key
  route message c r =
      let key =
        build_routing_key
          (record {
            channel_name = ops.channel_name c;
            peer = message.peer;
            sender_id = message.sender_id;
          })
          (some r.group_scope) in
      update_worker (ops.dispatch message) key (get_or_create_worker c key r)

  -- The entry of the most recently active worker of the channel, or the best one before.
  more_active : Option (Text × W) → Text → W → Option (Text × W)
  more_active none k w = some (k, w)
  more_active (some (j, v)) k w =
      if ltb (ops.last_active_at v) (ops.last_active_at w) then some (k, w) else some (j, v)

  unfoldable pub most_recent : Text → Option (Text × W) → JsMap W → Option (Text × W)
  unfolding more_active key_belongs_to_channel
  most_recent name best [] = best
  most_recent name best ((k, w) ∷ m) =
      most_recent name (if key_belongs_to_channel k name then more_active best k w else best) m

  exact_or : Option W → Text → MessageRouter C W M → Option (Text × W)
  unfolding most_recent
  exact_or (some w) name r = some (name, w)
  exact_or none name r = most_recent name none r.workers

  -- The worker, beside its key.
  unfoldable pub get_worker : Text → MessageRouter C W M → Option (Text × W)
  unfolding exact_or JsMap.get
  get_worker name r = exact_or (JsMap.get name r.workers) name r

  unfoldable pub get_workers_for_channel : Text → MessageRouter C W M → JsMap W
  unfolding key_belongs_to_channel
  get_workers_for_channel name r = keep (λ e. key_belongs_to_channel e.0 name) r.workers

  unfoldable pub stop_all : MessageRouter C W M → MessageRouter C W M
  unfolding JsMap.values
  stop_all r = record r {
    sweeping = false;
    workers = [];
    stopped = reverse (JsMap.values r.workers) ++ r.stopped;
  }

  unfoldable pub register_channel : C → MessageRouter C W M → MessageRouter C W M
  unfolding JsMap.set
  register_channel c r = record r { channels = JsMap.set (ops.channel_name c) c r.channels }

  seeded : Text → Option Peer → MessageRouter C W M → MessageRouter C W M
  unfolding update_worker
  seeded key none r = r
  seeded key (some peer) r = update_worker (ops.set_default_peer peer) key r

  on_channel : Text → Option C → MessageRouter C W M → MessageRouter C W M
  unfolding seeded create_worker peer_from_key
  on_channel key none r = r
  on_channel key (some c) r = seeded key (peer_from_key key) (create_worker c key r)

  by_channel_name : Text → Option Text → MessageRouter C W M → MessageRouter C W M
  unfolding on_channel JsMap.get
  by_channel_name key none r = r
  by_channel_name key (some name) r = on_channel key (JsMap.get name r.channels) r

  unless_there : Text → Option W → MessageRouter C W M → MessageRouter C W M
  unfolding by_channel_name channel_from_key
  unless_there key (some w) r = r
  unless_there key none r = by_channel_name key (channel_from_key key) r

  -- The router afterwards, whose worker of the key, if any, is the result.
  unfoldable pub get_or_create_worker_for_key : Text → MessageRouter C W M → MessageRouter C W M
  unfolding unless_there JsMap.get
  get_or_create_worker_for_key key r = unless_there key (JsMap.get key r.workers) r

  unfoldable pub unregister_channel : Text → MessageRouter C W M → MessageRouter C W M
  unfolding keys_where evict_keys key_belongs_to_channel
  unregister_channel name r =
      evict_keys (keys_where (λ k w. key_belongs_to_channel k name) r.workers) r
