-- ===== src/RoutingKey/Examples.antt =====
-- Runs on routing keys.
use flopsy.Prelude.{◌≡◌, refl, true, some, codes}
use flopsy.RoutingKey.{
  RoutingKeyInput, per_participant, group, sanitize, build_routing_key, peer_from_key,
  channel_from_key, key_belongs_to_channel,
}
use flopsy.RoutingKey.RoundTrip.{peer_from_key-build_routing_key}

abbrev in_group : RoutingKeyInput
in_group = record {
  channel_name = codes "line";
  peer = record { id = codes "a:b c"; type = group };
  sender_id = some (codes "ann");
}

built : build_routing_key in_group (some per_participant) ≡ codes "line:group:a-b-c:user:ann"
unfolding build_routing_key
built = refl

peer_from_key-build_routing_key_example :
    let key = build_routing_key in_group (some per_participant) in
    (peer_from_key key ≡ some (record { id = sanitize (codes "a:b c"); type = group }))
    × (channel_from_key key ≡ some (sanitize (codes "line")))
    × (key_belongs_to_channel key (codes "line") ≡ true)
peer_from_key-build_routing_key_example =
    peer_from_key-build_routing_key in_group (some per_participant)
