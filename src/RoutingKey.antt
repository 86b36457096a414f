-- ===== src/RoutingKey.antt =====
-- src/gateway/src/core/routing-key.ts: the key of a conversation, and the channel and the peer that
-- are read back from it. A peer is its type and its id; its name plays no part.
mod Examples
pub mod RoundTrip
use flopsy.Prelude.{
  ℕ, Bool, true, false, not, ◌&&◌, ◌||◌, Option, none, some, List, [], ◌∷◌, ◌++◌, leb, ◌==◌,
  if◌then◌else◌, Text, codes, str_eq, starts_with,
}

pub data PeerType : Type 0 where
  user group channel : PeerType

pub record Peer : Type 0 where
  pub id : Text
  pub type : PeerType

pub data GroupScope : Type 0 where
  per_chat per_participant : GroupScope

pub record RoutingKeyInput : Type 0 where
  pub channel_name : Text
  pub peer : Peer
  pub sender_id : Option Text

unfoldable pub peer_kind : PeerType → Text
peer_kind user = codes "dm"
peer_kind group = codes "group"
peer_kind channel = codes "channel"

-- `[A-Za-z0-9_.-]`.
unfoldable pub is_plain : ℕ → Bool
is_plain c =
    (leb 65 c && leb c 90)
    || ((leb 97 c && leb c 122)
        || ((leb 48 c && leb c 57) || ((c == 95) || ((c == 46) || (c == 45)))))

-- `replace(/[^A-Za-z0-9_.-]+/g, '-')`, within a run of such characters or not.
unfoldable pub dash_others : Bool → Text → Text
unfolding is_plain
dash_others in_run [] = []
dash_others in_run (c ∷ cs) =
    let rest = dash_others (not (is_plain c)) cs in
    if is_plain c then c ∷ rest else if in_run then rest else 45 ∷ rest

-- `replace(/-+/g, '-')`.
unfoldable pub collapse_dashes : Bool → Text → Text
collapse_dashes in_run [] = []
collapse_dashes in_run (c ∷ cs) =
    let rest = collapse_dashes (c == 45) cs in if c == 45 && in_run then rest else c ∷ rest

or_dash : Text → Text
or_dash [] = codes "-"
or_dash (c ∷ cs) = c ∷ cs

unfoldable pub sanitize : Text → Text
unfolding or_dash dash_others collapse_dashes
sanitize [] = codes "-"
sanitize (c ∷ cs) = or_dash (collapse_dashes false (dash_others false (c ∷ cs)))

unfoldable pub is_user : PeerType → Bool
is_user user = true
is_user _ = false

unfoldable pub is_per_participant : Option GroupScope → Bool
is_per_participant (some per_participant) = true
is_per_participant _ = false

-- The suffix for a sender; an empty sender counts as none.
unfoldable pub participant : Bool → Option Text → Text
unfolding sanitize
participant false sender = []
participant true none = []
participant true (some []) = []
participant true (some (c ∷ cs)) = codes ":user:" ++ sanitize (c ∷ cs)

unfoldable pub build_routing_key : RoutingKeyInput → Option GroupScope → Text
unfolding sanitize peer_kind is_user is_per_participant participant
build_routing_key input scope =
    sanitize input.channel_name
    ++ b':'
      ∷ (peer_kind input.peer.type
          ++ b':'
            ∷ (sanitize input.peer.id
                ++ participant (is_per_participant scope && not (is_user input.peer.type))
                    input.sender_id))

unfoldable pub key_belongs_to_channel : Text → Text → Bool
unfolding sanitize
key_belongs_to_channel key channel_name = starts_with key (sanitize channel_name ++ b':' ∷ [])

-- `key.split(':')`.
onto_first : ℕ → List Text → List Text
onto_first c [] = (c ∷ []) ∷ []
onto_first c (p ∷ ps) = (c ∷ p) ∷ ps

unfoldable pub split_colons : Text → List Text
unfolding onto_first
split_colons [] = [] ∷ []
split_colons (c ∷ cs) =
    let rest = split_colons cs in if c == b':' then [] ∷ rest else onto_first c rest

unfoldable pub join_colons : List Text → Text
join_colons [] = []
join_colons (p ∷ []) = p
join_colons (p ∷ q ∷ ps) = p ++ b':' ∷ join_colons (q ∷ ps)

-- The text before the first colon, which must not be empty.
first_part : List Text → Option Text
first_part [] = none
first_part (p ∷ []) = none
first_part ([] ∷ q ∷ ps) = none
first_part ((c ∷ cs) ∷ q ∷ ps) = some (c ∷ cs)

unfoldable pub channel_from_key : Text → Option Text
unfolding first_part split_colons
channel_from_key key = first_part (split_colons key)

-- `parts.slice(2, parts[3] === 'user' ? 3 : parts.length).join(':')`.
id_of : Text → List Text → Text
unfolding join_colons
id_of p [] = p
id_of p (q ∷ ps) = if str_eq q (codes "user") then p else join_colons (p ∷ q ∷ ps)

peer_of : Text → Text → Option Peer
peer_of scope [] = none
peer_of scope (c ∷ cs) =
    if str_eq scope (codes "dm")
    then some (record { id = c ∷ cs; type = user })
    else if str_eq scope (codes "group")
    then some (record { id = c ∷ cs; type = group })
    else if str_eq scope (codes "channel")
    then some (record { id = c ∷ cs; type = channel })
    else none

peer_of_parts : List Text → Option Peer
unfolding peer_of id_of
peer_of_parts (p ∷ scope ∷ q ∷ ps) = peer_of scope (id_of q ps)
peer_of_parts _ = none

unfoldable pub peer_from_key : Text → Option Peer
unfolding peer_of_parts split_colons
peer_from_key key = peer_of_parts (split_colons key)
