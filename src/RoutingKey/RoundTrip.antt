-- ===== src/RoutingKey/RoundTrip.antt =====
-- src/gateway/src/core/routing-key.ts: what a key is built from is read back from it.
use flopsy.Prelude.{
  ℕ, ◌<◌, ◌≡◌, refl, ap, ◌∙◌, Bool, true, false, not, ◌&&◌, Option, none, some, List, [], ◌∷◌, ◌++◌,
  arith, ◌==◌, length, All, Text, codes, str_eq, starts_with,
}
use mathlib.Core.List.{append-nil, append_assoc}
use flopsy.RoutingKey.{
  PeerType, user, group, channel, GroupScope, RoutingKeyInput, peer_kind, is_plain, dash_others,
  collapse_dashes, or_dash, sanitize, is_user, is_per_participant, participant, build_routing_key,
  key_belongs_to_channel, onto_first, split_colons, first_part, channel_from_key, id_of, peer_of,
  peer_of_parts, peer_from_key,
}

-- A part of a key: not empty, and without a colon.
NoColon : Text → Type 0
NoColon s = All (λ c. (c == b':') ≡ false) s

plain-not_colon : (c : ℕ) → is_plain c ≡ true → (c == b':') ≡ false
unfolding is_plain
plain-not_colon c h = ground (arith, h)

dash_others-NoColon : (in_run : Bool) (s : Text) → NoColon (dash_others in_run s)
unfolding dash_others NoColon
dash_others-NoColon in_run [] = tt
dash_others-NoColon in_run (c ∷ cs) =
    ground (arith, dash_others-NoColon (not (is_plain c)) cs, plain-not_colon c)

collapse_dashes-NoColon :
    (in_run : Bool) (s : Text) → NoColon s → NoColon (collapse_dashes in_run s)
unfolding collapse_dashes NoColon
collapse_dashes-NoColon in_run [] h = tt
collapse_dashes-NoColon in_run (c ∷ cs) h =
    ground (arith, h, collapse_dashes-NoColon (c == 45) cs h.1)

or_dash-NoColon : (s : Text) → NoColon s → NoColon (or_dash s) × (0 < length (or_dash s))
unfolding or_dash NoColon
or_dash-NoColon [] h = ((refl, tt), omega arith)
or_dash-NoColon (c ∷ cs) h = (h, omega arith)

sanitize-NoColon : (s : Text) → NoColon (sanitize s) × (0 < length (sanitize s))
unfolding sanitize
sanitize-NoColon [] = or_dash-NoColon [] (unfold NoColon in tt)
sanitize-NoColon (c ∷ cs) = or_dash-NoColon (collapse_dashes false (dash_others false (c ∷ cs))) (
    collapse_dashes-NoColon false (dash_others false (c ∷ cs)) (dash_others-NoColon false (c ∷ cs)))

split_colons-append : (s t : Text) → NoColon s → split_colons (s ++ b':' ∷ t) ≡ s ∷ split_colons t
unfolding split_colons onto_first NoColon
split_colons-append [] t h = refl
split_colons-append (c ∷ cs) t h = ground (arith, h.0, split_colons-append cs t h.1)

split_colons-part : (s : Text) → NoColon s → split_colons s ≡ s ∷ []
unfolding split_colons onto_first NoColon
split_colons-part [] h = refl
split_colons-part (c ∷ cs) h = ground (arith, h.0, split_colons-part cs h.1)

peer_kind-NoColon : (t : PeerType) → NoColon (peer_kind t)
unfolding peer_kind NoColon
peer_kind-NoColon user = (refl, (refl, tt))
peer_kind-NoColon group = (refl, (refl, (refl, (refl, (refl, tt)))))
peer_kind-NoColon channel = (refl, (refl, (refl, (refl, (refl, (refl, (refl, tt)))))))

peer_of-kind :
    (t : PeerType) (id : Text)
    → 0 < length id
    → peer_of (peer_kind t) id ≡ some (record { id = id; type = t })
unfolding peer_of peer_kind str_eq
peer_of-kind user [] h = absurd (ground (arith, h))
peer_of-kind group [] h = absurd (ground (arith, h))
peer_of-kind channel [] h = absurd (ground (arith, h))
peer_of-kind user (c ∷ cs) h = refl
peer_of-kind group (c ∷ cs) h = refl
peer_of-kind channel (c ∷ cs) h = refl

user_parts :
    (id s : Text)
    → NoColon id
    → NoColon s
    → split_colons (id ++ (codes ":user:" ++ s)) ≡ id ∷ codes "user" ∷ s ∷ []
user_parts id s h k =
    split_colons-append id (codes "user" ++ b':' ∷ s) h
    ∙ ap (λ l. id ∷ l)
        (split_colons-append (codes "user") s (unfold NoColon in (refl, (refl, (refl, (refl, tt)))))
          ∙ ap (λ l. codes "user" ∷ l) (split_colons-part s k))

-- Whether or not a sender follows, the id is read.
read_tail :
    (t : PeerType) (ch id : Text) (wants : Bool) (sender : Option Text)
    → NoColon id
    → 0 < length id
    → peer_of_parts (ch ∷ peer_kind t ∷ split_colons (id ++ participant wants sender))
      ≡ some (record { id = id; type = t })
unfolding participant peer_of_parts id_of str_eq
read_tail t ch id false sender h l =
    rw (append-nil id) (rw (split_colons-part id h) (peer_of-kind t id l))
read_tail t ch id true none h l =
    rw (append-nil id) (rw (split_colons-part id h) (peer_of-kind t id l))
read_tail t ch id true (some []) h l =
    rw (append-nil id) (rw (split_colons-part id h) (peer_of-kind t id l))
read_tail t ch id true (some (c ∷ cs)) h l =
    rw (user_parts id (sanitize (c ∷ cs)) h (sanitize-NoColon (c ∷ cs)).0) (peer_of-kind t id l)

key_parts :
    (input : RoutingKeyInput) (scope : Option GroupScope)
    → split_colons (build_routing_key input scope)
      ≡ sanitize input.channel_name
        ∷ peer_kind input.peer.type
        ∷ split_colons (
            sanitize input.peer.id
            ++ participant
                (is_per_participant scope && not (is_user input.peer.type))
                input.sender_id)
unfolding build_routing_key
key_parts input scope =
    split_colons-append (sanitize input.channel_name) _ (sanitize-NoColon input.channel_name).0
    ∙ ap (λ l. sanitize input.channel_name ∷ l)
        (split_colons-append (peer_kind input.peer.type) _ (peer_kind-NoColon input.peer.type))

first_part-some : (p q : Text) (ps : List Text) → 0 < length p → first_part (p ∷ q ∷ ps) ≡ some p
unfolding first_part
first_part-some [] q ps h = absurd (ground (arith, h))
first_part-some (c ∷ cs) q ps h = refl

starts_with-append : (s t : Text) → starts_with (s ++ t) s ≡ true
unfolding starts_with
starts_with-append [] t = refl
starts_with-append (c ∷ cs) t = ground (arith, starts_with-append cs t)

build-belongs :
    (input : RoutingKeyInput) (scope : Option GroupScope)
    → key_belongs_to_channel (build_routing_key input scope) input.channel_name ≡ true
unfolding key_belongs_to_channel build_routing_key
build-belongs input scope =
    rw (← append_assoc (sanitize input.channel_name) (b':' ∷ []) _)
      (starts_with-append (sanitize input.channel_name ++ b':' ∷ []) _)

-- For every channel, peer, sender and scope, whatever characters they hold: the key that is built
-- belongs to its channel, the sanitized name of the channel is read back from it, and so is the peer,
-- with its type and its sanitized id; the suffix for a sender changes none of this.
pub peer_from_key-build_routing_key :
    (input : RoutingKeyInput) (scope : Option GroupScope)
    → let key = build_routing_key input scope in
      (peer_from_key key ≡ some (record { id = sanitize input.peer.id; type = input.peer.type }))
      × (channel_from_key key ≡ some (sanitize input.channel_name))
      × (key_belongs_to_channel key input.channel_name ≡ true)
unfolding peer_from_key channel_from_key
peer_from_key-build_routing_key input scope = (
  rw (key_parts input scope) (
      read_tail input.peer.type (sanitize input.channel_name) (sanitize input.peer.id) _
        input.sender_id (sanitize-NoColon input.peer.id).0 (sanitize-NoColon input.peer.id).1),
  rw (key_parts input scope) (
      first_part-some (sanitize input.channel_name) (peer_kind input.peer.type) _
        (sanitize-NoColon input.channel_name).1),
  build-belongs input scope,
)
