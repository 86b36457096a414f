-- ===== src/ThreadPool/Examples.antt =====
-- Runs of the pool of threads.
use flopsy.Prelude.{ℕ, ◌≤◌, ◌<◌, ◌≡◌, refl, ◌⊎◌, true, some, [], ◌∷◌, Text, codes, str_eq}
use flopsy.Prelude.JsMap
use flopsy.Prelude.JsMap.{JsMap}
use flopsy.ThreadPool.{PoolEntry, ThreadPool, get, size, evict_if_at_capacity, has}
use flopsy.ThreadPool.Eviction.{Evicts, evict_if_at_capacity_exact}

-- An entry is its turns in flight and the time of its last use.
abbrev fields : PoolEntry (ℕ × ℕ)
fields = record { active_turns = λ e. e.0; last_used_at = λ e. e.1 }

abbrev full : ThreadPool (ℕ × ℕ)
full = record {
  entries = (codes "cli", (1, 5)) ∷ (codes "line:a", (0, 20)) ∷ (codes "line:a#2", (0, 10)) ∷ [];
  max_threads = 2;
  evicted = [];
}

evict_if_at_capacity_exact_example :
    let q = evict_if_at_capacity fields full in
    (size full ≤ 2 → q ≡ full)
    × (2 < size full
        → ((k : Text) × (e : ℕ × ℕ) × Evicts fields full q k e)
          ⊎ ((q ≡ full) × ((j : Text) (o : ℕ × ℕ) → get j full ≡ some o → 0 < o.0)))
unfolding str_eq JsMap.get
evict_if_at_capacity_exact_example =
    evict_if_at_capacity_exact fields full (refl, (refl, (refl, tt)))

least_recent : (evict_if_at_capacity fields full).evicted ≡ (codes "line:a#2", (0, 10)) ∷ []
unfolding evict_if_at_capacity str_eq
least_recent = refl

busy_stays : has (codes "cli") (evict_if_at_capacity fields full) ≡ true
unfolding has evict_if_at_capacity str_eq
busy_stays = refl
