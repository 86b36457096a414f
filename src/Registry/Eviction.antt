-- ===== src/Registry/Eviction.antt =====
-- src/team/src/state/task-registry.ts: `evictTerminal` removes the old finished tasks and counts them.
use flopsy.Prelude.{
  ℕ, ◌+◌, ◌≡◌, refl, inl, inr, Bool, false, ◌&&◌, ◌||◌, Option, none, some, [], ◌∷◌, arith,
  if◌then◌else◌, Bool-cases, length, Text, str_eq, str_eq_iff, str_eq_refl,
}
use flopsy.Prelude.JsMap
use flopsy.Prelude.JsMap.{JsMap}
use flopsy.Task.{TaskState}
use flopsy.Registry.{TaskRegistry, get, size}
use flopsy.Registry.Messages.{is_evictable, evict_entries, evict_terminal}

abbrev pub some_evictable : ℕ → ℕ → Option TaskState → Bool
some_evictable age_ms now none = false
some_evictable age_ms now (some t) = is_evictable age_ms now t

-- Some entry under the key is evictable.
doomed : ℕ → ℕ → Text → JsMap TaskState → Bool
doomed age_ms now j [] = false
doomed age_ms now j ((id, t) ∷ es) =
    (str_eq id j && is_evictable age_ms now t) || doomed age_ms now j es

get-evict_entries :
    (age_ms now : ℕ) (j : Text) (es : JsMap TaskState) (acc : ℕ × JsMap TaskState)
    → JsMap.get j (evict_entries age_ms now es acc).1
      ≡ (if doomed age_ms now j es then none else JsMap.get j acc.1)
unfolding evict_entries doomed
get-evict_entries age_ms now j [] acc = refl
get-evict_entries age_ms now j ((id, t) ∷ es) acc = ground (
  arith,
  get-evict_entries age_ms now j es
      (if is_evictable age_ms now t then (acc.0 + 1, JsMap.delete id acc.1) else acc),
  JsMap.get-delete id j acc.1,
)

doomed_absent :
    (age_ms now : ℕ) (j : Text) (es : JsMap TaskState)
    → JsMap.get j es ≡ none
    → doomed age_ms now j es ≡ false
unfolding doomed JsMap.get
doomed_absent age_ms now j [] e = refl
doomed_absent age_ms now j ((id, t) ∷ es) e = ground (arith, doomed_absent age_ms now j es)

doomed-get :
    (age_ms now : ℕ) (j : Text) (es : JsMap TaskState)
    → JsMap.Distinct es
    → doomed age_ms now j es ≡ some_evictable age_ms now (JsMap.get j es)
unfolding doomed JsMap.get
doomed-get age_ms now j [] d = refl
doomed-get age_ms now j ((id, t) ∷ es) d =
    ground (arith, str_eq_iff id j, doomed-get age_ms now j es d.1, doomed_absent age_ms now j es)

-- Each entry of the one map is an entry of the other.
Within : JsMap TaskState → JsMap TaskState → Type 0
Within [] m = Unit
Within ((id, t) ∷ es) m = (JsMap.get id m ≡ some t) × Within es m

Within-delete :
    (id : Text) (es m : JsMap TaskState)
    → JsMap.get id es ≡ none
    → Within es m
    → Within es (JsMap.delete id m)
unfolding Within JsMap.get
Within-delete id [] m e w = tt
Within-delete id ((j, t) ∷ es) m e w = (
  ground (arith, w.0, JsMap.get-delete id j m, str_eq_iff id j, str_eq_iff j id),
  Within-delete id es m (ground arith) w.1,
)

Within-cons :
    (id : Text) (t : TaskState) (es m : JsMap TaskState)
    → JsMap.get id es ≡ none
    → Within es m
    → Within es ((id, t) ∷ m)
unfolding Within JsMap.get
Within-cons id t [] m e w = tt
Within-cons id t ((j, u) ∷ es) m e w = (
  ground (arith, w.0, str_eq_iff id j, str_eq_iff j id),
  Within-cons id t es m (ground arith) w.1,
)

Within-self : (m : JsMap TaskState) → JsMap.Distinct m → Within m m
unfolding Within JsMap.get
Within-self [] d = tt
Within-self ((id, t) ∷ m) d =
    (ground (arith, str_eq_refl id), Within-cons id t m m d.0 (Within-self m d.1))

evict_entries_count :
    (age_ms now : ℕ) (es : JsMap TaskState) (acc : ℕ × JsMap TaskState)
    → JsMap.Distinct es
    → JsMap.Distinct acc.1
    → Within es acc.1
    → let (n, m) = evict_entries age_ms now es acc in n + length m ≡ acc.0 + length acc.1
unfolding evict_entries Within
evict_entries_count age_ms now [] acc d k w = refl
evict_entries_count age_ms now ((id, t) ∷ es) acc d k w =
    elim (Bool-cases (is_evictable age_ms now t)) [
      | inl old ↦
          rw (old, evict_entries)
            (omega (
              arith,
              evict_entries_count age_ms now es (acc.0 + 1, JsMap.delete id acc.1) d.1
                  (JsMap.delete-Distinct id acc.1 k) (Within-delete id es acc.1 d.0 w.1),
              JsMap.length-delete id t acc.1 k w.0,
            ))
      | inr kept ↦ rw (kept, evict_entries) (evict_entries_count age_ms now es acc d.1 k w.1)
    ]

-- After `evictTerminal` the registry has exactly the tasks that it had, less those that are in a
-- terminal status and ended (or, with no end time, were created) at least `ageMs` ago, and the
-- number that it returns is the number of tasks removed. The keys of the map are distinct.
pub evict_terminal_exact :
    (age_ms now : ℕ) (r : TaskRegistry) (j : Text)
    → JsMap.Distinct r.tasks
    → let (n, u) = evict_terminal age_ms now r in
      (get j u ≡ (if some_evictable age_ms now (get j r) then none else get j r))
      × (n + size u ≡ size r)
unfolding evict_terminal get size
evict_terminal_exact age_ms now r j d = (
  rw (get-evict_entries age_ms now j r.tasks (0, r.tasks), doomed-get age_ms now j r.tasks d),
  omega (arith, evict_entries_count age_ms now r.tasks (0, r.tasks) d d (Within-self r.tasks d)),
)
