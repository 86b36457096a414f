-- ===== src/ThreadPool/Eviction.antt =====
-- src/team/src/handler/thread-pool.ts: which thread is evicted.
use flopsy.Prelude.{
  ℕ, ◌+◌, ◌≤◌, ◌<◌, ◌≡◌, refl, ◌⊎◌, inl, inr, Bool, false, ◌&&◌, ◌||◌, Option, none, some, [], ◌∷◌,
  ◌++◌, arith, ltb, if◌then◌else◌, Bool-cases, Option-cases, Text, str_eq, str_eq_iff,
}
use flopsy.Prelude.JsMap
use flopsy.Prelude.JsMap.{JsMap}
use flopsy.ThreadPool.{
  PoolEntry, ThreadPool, get, size, evict_if_at_capacity, find_oldest, is_older, evict_key,
  evict_peer_threads, evict_keys, is_peer_thread,
}

-- Whether an evict of a peer removes a key that is in the snapshot.
swept : {E : Type 0} → Text → Text → JsMap E → Bool
swept peer_key j [] = false
swept peer_key j ((k, e) ∷ ks) = (str_eq k j && is_peer_thread peer_key k) || swept peer_key j ks

module _ {E : Type 0} where
  get-evict_key :
      (k j : Text) (p : ThreadPool E)
      → get j (evict_key k p) ≡ (if str_eq k j then none else get j p)
  unfolding evict_key get
  get-evict_key k j p = elim (Option-cases (JsMap.get k p.entries)) [
    | inl e ↦ ground (arith, e, JsMap.get-delete k j p.entries)
    | inr (v, e) ↦ ground (arith, e, JsMap.get-delete k j p.entries)
  ]

  get-evict_keys :
      (peer_key j : Text) (ks : JsMap E) (p : ThreadPool E)
      → get j (evict_keys peer_key ks p) ≡ (if swept peer_key j ks then none else get j p)
  unfolding evict_keys swept
  get-evict_keys peer_key j [] p = refl
  get-evict_keys peer_key j ((k, e) ∷ ks) p = ground (
    arith,
    get-evict_keys peer_key j ks (if is_peer_thread peer_key k then evict_key k p else p),
    get-evict_key k j p,
  )

  swept-get :
      (peer_key j : Text) (m : JsMap E)
      → swept peer_key j m ≡ (JsMap.has j m && is_peer_thread peer_key j)
  unfolding swept JsMap.has
  swept-get peer_key j [] = refl
  swept-get peer_key j ((k, e) ∷ m) = ground (arith, str_eq_iff k j, swept-get peer_key j m)

  -- Evicting a peer removes the threads of the key itself and of the keys that begin with it and
  -- `#`, and no other thread.
  pub get-evict_peer_threads :
      (peer_key j : Text) (p : ThreadPool E)
      → get j (evict_peer_threads peer_key p)
        ≡ (if is_peer_thread peer_key j then none else get j p)
  unfolding evict_peer_threads get
  get-evict_peer_threads peer_key j p = elim (Option-cases (get j p)) [
    | inl e ↦ ground (
      arith,
      e,
      get-evict_keys peer_key j p.entries p,
      swept-get peer_key j p.entries,
      JsMap.has-false-of_get j p.entries e,
    )
    | inr (v, e) ↦ ground (
      arith,
      e,
      get-evict_keys peer_key j p.entries p,
      swept-get peer_key j p.entries,
      JsMap.has-of_get j p.entries v e,
    )
  ]

module _ {E : Type 0} (fields : PoolEntry E) where
  open fields use {active_turns, last_used_at}

  -- An idle entry of the pool that no idle entry was used before.
  pub record IsVictim (m : JsMap E) (k : Text) (e : E) : Type 0 where
    pub present : JsMap.get k m ≡ some e
    pub idle : active_turns e ≡ 0
    pub oldest :
        (j : Text) (o : E)
        → JsMap.get j m ≡ some o
        → active_turns o ≡ 0
        → last_used_at e ≤ last_used_at o

  abbrev AllIdleFrom : ℕ → JsMap E → Type 0
  AllIdleFrom t [] = Unit {0}
  AllIdleFrom t ((k, e) ∷ m) = (active_turns e ≡ 0 → t ≤ last_used_at e) × AllIdleFrom t m

  abbrev AllActive : JsMap E → Type 0
  AllActive [] = Unit {0}
  AllActive ((k, e) ∷ m) = (0 < active_turns e) × AllActive m

  abbrev IsIdleOpt : Option (Text × E) → Type 0
  IsIdleOpt none = Unit {0}
  IsIdleOpt (some (k, e)) = active_turns e ≡ 0

  abbrev FromOpt : ℕ → Option (Text × E) → Type 0
  FromOpt t none = Unit {0}
  FromOpt t (some (k, e)) = t ≤ last_used_at e

  -- The choice so far, after one more entry.
  abbrev choose : Text → E → Option (Text × E) → Option (Text × E)
  choose k e acc =
      if ltb 0 (active_turns e) then acc else if is_older fields e acc then some (k, e) else acc

  choose-IsIdleOpt :
      (k : Text) (e : E) (acc : Option (Text × E)) → IsIdleOpt acc → IsIdleOpt (choose k e acc)
  choose-IsIdleOpt k e acc h = ground arith

  choose-FromOpt :
      (k : Text) (e : E) (acc : Option (Text × E)) (t : ℕ)
      → FromOpt t (choose k e acc)
      → FromOpt t acc × (active_turns e ≡ 0 → t ≤ last_used_at e)
  unfolding is_older
  choose-FromOpt k e none t h = (tt, ground arith)
  choose-FromOpt k e (some (j, o)) t h = (ground arith, ground arith)

  choose_source :
      (k : Text) (e : E) (acc : Option (Text × E)) (j : Text) (o : E)
      → choose k e acc ≡ some (j, o)
      → (acc ≡ some (j, o)) ⊎ ((k ≡ j) × (e ≡ o))
  choose_source k e acc j o h = ground arith

  -- The entry is one of those listed.
  abbrev In : Text → E → JsMap E → Type 0
  In k e [] = ⊥
  In k e ((j, o) ∷ m) = ((j ≡ k) × (o ≡ e)) ⊎ In k e m

  find_oldest-some :
      (m : JsMap E) (acc : Option (Text × E)) (k : Text) (e : E)
      → find_oldest fields m acc ≡ some (k, e)
      → IsIdleOpt acc
      → (active_turns e ≡ 0)
        × FromOpt (last_used_at e) acc
        × AllIdleFrom (last_used_at e) m
        × ((acc ≡ some (k, e)) ⊎ In k e m)
  unfolding find_oldest
  find_oldest-some [] none k e h i = absurd (ground arith)
  find_oldest-some [] (some (j, o)) k e h i =
      let same : o ≡ e = ground arith in (rw same at i, ground arith, tt, inl h)
  find_oldest-some ((j, o) ∷ m) acc k e h i =
      let (idle, from, rest, source) =
        find_oldest-some m (choose j o acc) k e h (choose-IsIdleOpt j o acc i) in
      let (from', mine) = choose-FromOpt j o acc (last_used_at e) from in
      (
        idle,
        from',
        (mine, rest),
        elim source [
          | inr later ↦ inr (inr later)
          | inl now ↦ elim (choose_source j o acc k e now) [
            | inl old ↦ inl old
            | inr new ↦ inr (inl new)
          ]
        ],
      )

  find_oldest-none :
      (m : JsMap E) (acc : Option (Text × E))
      → find_oldest fields m acc ≡ none
      → (acc ≡ none) × AllActive m
  unfolding find_oldest is_older
  find_oldest-none [] acc h = (h, tt)
  find_oldest-none ((j, o) ∷ m) none h =
      let (first, rest) = find_oldest-none m (choose j o none) h in (refl, (ground arith, rest))
  find_oldest-none ((j, o) ∷ m) (some x) h =
      let (first, rest) = find_oldest-none m (choose j o (some x)) h in absurd (ground arith)

  get-In : (k : Text) (e : E) (m : JsMap E) → JsMap.Distinct m → In k e m → JsMap.get k m ≡ some e
  unfolding JsMap.get
  get-In k e [] d h = absurd h
  get-In k e ((j, o) ∷ m) d (inl (ek, eo)) = ground (arith, str_eq_iff j k)
  get-In k e ((j, o) ∷ m) d (inr h) = ground (arith, get-In k e m d.1 h, str_eq_iff j k, d.0)

  AllIdleFrom-get :
      (t : ℕ) (m : JsMap E) (j : Text) (o : E)
      → AllIdleFrom t m
      → JsMap.get j m ≡ some o
      → active_turns o ≡ 0
      → t ≤ last_used_at o
  unfolding JsMap.get
  AllIdleFrom-get t [] j o h e i = absurd (ground arith)
  AllIdleFrom-get t ((k, x) ∷ m) j o h e i = elim (Bool-cases (str_eq k j)) [
    | inl hit ↦ let same : x ≡ o = ground arith in rw same at h.0 i
    | inr miss ↦ AllIdleFrom-get t m j o h.1 (ground arith) i
  ]

  AllActive-get :
      (m : JsMap E) (j : Text) (o : E) → AllActive m → JsMap.get j m ≡ some o → 0 < active_turns o
  unfolding JsMap.get
  AllActive-get [] j o h e = absurd (ground arith)
  AllActive-get ((k, x) ∷ m) j o h e = elim (Bool-cases (str_eq k j)) [
    | inl hit ↦ let same : x ≡ o = ground arith in rw same at h.0
    | inr miss ↦ AllActive-get m j o h.1 (ground arith)
  ]

  -- What an eviction of one entry leaves.
  pub record Evicts (p q : ThreadPool E) (k : Text) (e : E) : Type 0 where
    pub victim : IsVictim p.entries k e
    pub told : q.evicted ≡ p.evicted ++ (k, e) ∷ []
    pub others : (j : Text) → get j q ≡ (if str_eq k j then none else get j p)
    pub fewer : size q + 1 ≡ size p

  evict_key-Evicts :
      (p : ThreadPool E) (k : Text) (e : E)
      → JsMap.Distinct p.entries
      → IsVictim p.entries k e
      → Evicts p (evict_key k p) k e
  unfolding evict_key size
  evict_key-Evicts p k e d v = record {
    victim = v;
    told = ground (arith, v.present);
    others = λ j. get-evict_key k j p;
    fewer = ground (arith, v.present, JsMap.length-delete k e p.entries d v.present);
  }

  find_oldest-IsVictim :
      (m : JsMap E) (k : Text) (e : E)
      → JsMap.Distinct m
      → find_oldest fields m none ≡ some (k, e)
      → IsVictim m k e
  find_oldest-IsVictim m k e d h =
      let (idle, _, from, source) = find_oldest-some m none k e h tt in
      record {
        present = elim source [
          | inl absent ↦ absurd (ground arith)
          | inr there ↦ get-In k e m d there
        ];
        idle = idle;
        oldest = λ j o g i. AllIdleFrom-get (last_used_at e) m j o from g i;
      }

  -- A pool within its capacity is left alone. Above it, exactly one entry goes, an idle one that was
  -- used no later than any other idle one, with one call of the callback for it; or else every entry
  -- has a turn in flight, and nothing goes.
  pub evict_if_at_capacity_exact :
      (p : ThreadPool E)
      → JsMap.Distinct p.entries
      → let q = evict_if_at_capacity fields p in
        (size p ≤ p.max_threads → q ≡ p)
        × (p.max_threads < size p
            → ((k : Text) × (e : E) × Evicts p q k e)
              ⊎ ((q ≡ p) × ((j : Text) (o : E) → get j p ≡ some o → 0 < active_turns o)))
  unfolding evict_if_at_capacity size
  evict_if_at_capacity_exact p d = (
    λ h. ground arith,
    λ h. elim (Option-cases (find_oldest fields p.entries none)) [
      | inl nobody ↦ inr (
        ground (arith, h, nobody),
        unfold get in
            λ j o g. AllActive-get p.entries j o (find_oldest-none p.entries none nobody).1 g,
      )
      | inr ((k, e), found) ↦
          let v = find_oldest-IsVictim p.entries k e d found in
          let same : evict_if_at_capacity fields p ≡ evict_key k p = ground (arith, h, found) in
          inl (k, e, rw same (evict_key-Evicts p k e d v))
    ],
  )
