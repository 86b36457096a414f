-- ===== src/ThreadPool.antt =====
-- src/team/src/handler/thread-pool.ts: the least-recently-used cache of threads. The entry type is
-- abstract; the pool reads the two fields of `PoolEntry`. `evicted` records the calls of the
-- callback `onEvict`, whose errors the source swallows; the callback itself leaves the pool alone.
mod Examples
pub mod Eviction
use flopsy.Prelude.{
  ℕ, Bool, true, ◌||◌, Option, none, some, List, [], ◌∷◌, ◌++◌, ltb, leb, if◌then◌else◌, length,
  Text, str_eq, starts_with,
}
use flopsy.Prelude.JsMap
use flopsy.Prelude.JsMap.{JsMap}

pub record PoolEntry (E : Type 0) : Type 0 where
  pub active_turns : E → ℕ
  pub last_used_at : E → ℕ

pub record ThreadPool (E : Type 0) : Type 0 where
  pub entries : JsMap E
  pub max_threads : ℕ
  pub evicted : List (Text × E)

module _ {E : Type 0} where
  unfoldable pub get : Text → ThreadPool E → Option E
  unfolding JsMap.get
  get k p = JsMap.get k p.entries

  unfoldable pub set : Text → E → ThreadPool E → ThreadPool E
  unfolding JsMap.set
  set k e p = record p { entries = JsMap.set k e p.entries }

  unfoldable pub delete : Text → ThreadPool E → Bool × ThreadPool E
  unfolding JsMap.has JsMap.delete
  delete k p = (JsMap.has k p.entries, record p { entries = JsMap.delete k p.entries })

  unfoldable pub has : Text → ThreadPool E → Bool
  unfolding JsMap.has
  has k p = JsMap.has k p.entries

  unfoldable pub size : ThreadPool E → ℕ
  size p = length p.entries

  unfoldable pub drain : ThreadPool E → List E × ThreadPool E
  unfolding JsMap.values
  drain p = (JsMap.values p.entries, record p { entries = [] })

  -- `map.get(k)`, `map.delete(k)`, and the callback for an entry that was there.
  evict_entry : Text → Option E → ThreadPool E → ThreadPool E
  unfolding JsMap.delete
  evict_entry k none p = record p { entries = JsMap.delete k p.entries }
  evict_entry k (some e) p = record p {
    entries = JsMap.delete k p.entries;
    evicted = p.evicted ++ (k, e) ∷ [];
  }

  unfoldable pub evict_key : Text → ThreadPool E → ThreadPool E
  unfolding evict_entry JsMap.get
  evict_key k p = evict_entry k (JsMap.get k p.entries) p

-- `k === peerKey || k.startsWith(peerKey + '#')`.
unfoldable pub is_peer_thread : Text → Text → Bool
is_peer_thread peer_key k = str_eq k peer_key || starts_with k (peer_key ++ b'#' ∷ [])

module _ {E : Type 0} where
  -- The loop over the snapshot of the keys.
  evict_keys : Text → JsMap E → ThreadPool E → ThreadPool E
  unfolding evict_key is_peer_thread
  evict_keys peer_key [] p = p
  evict_keys peer_key ((k, e) ∷ ks) p =
      evict_keys peer_key ks (if is_peer_thread peer_key k then evict_key k p else p)

  unfoldable pub evict_peer_threads : Text → ThreadPool E → ThreadPool E
  unfolding evict_keys
  evict_peer_threads peer_key p = evict_keys peer_key p.entries p

module _ {E : Type 0} (fields : PoolEntry E) where
  open fields use {active_turns, last_used_at}

  -- `e.lastUsedAt < oldestTime`, where the time of no entry yet is infinite.
  is_older : E → Option (Text × E) → Bool
  is_older e none = true
  is_older e (some (k, o)) = ltb (last_used_at e) (last_used_at o)

  find_oldest : JsMap E → Option (Text × E) → Option (Text × E)
  unfolding is_older
  find_oldest [] oldest = oldest
  find_oldest ((k, e) ∷ m) oldest =
      find_oldest m (
        if ltb 0 (active_turns e)
        then oldest
        else if is_older e oldest
        then some (k, e)
        else oldest)

  evict_oldest : Option (Text × E) → ThreadPool E → ThreadPool E
  unfolding evict_key
  evict_oldest none p = p
  evict_oldest (some (k, e)) p = evict_key k p

  unfoldable pub evict_if_at_capacity : ThreadPool E → ThreadPool E
  unfolding find_oldest evict_oldest
  evict_if_at_capacity p =
      if leb (length p.entries) p.max_threads
      then p
      else evict_oldest (find_oldest p.entries none) p
