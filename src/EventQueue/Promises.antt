-- ===== src/EventQueue/Promises.antt =====
-- src/gateway/src/core/event-queue.ts: how often a promise waits, and how often it is resolved.
use flopsy.Prelude.{
  ℕ, ◌+◌, ◌<◌, ◌≡◌, refl, Bool, true, not, ◌&&◌, List, [], ◌∷◌, ◌++◌, arith, ◌==◌, if◌then◌else◌,
  ==_iff, keep,
}
use flopsy.EventQueue.{settle_all, notify_all, Waiter, EventQueue, is_waiting}

-- How often a promise waits, and how often it was resolved.
unfoldable pub waits : ℕ → List Waiter → ℕ
waits p [] = 0
waits p (w ∷ ws) = (if w.promise == p then 1 else 0) + waits p ws

unfoldable pub settled : ℕ → List (ℕ × Bool) → ℕ
settled p [] = 0
settled p ((r, b) ∷ rs) = (if r == p then 1 else 0) + settled p rs

-- How often a promise was resolved with `false`, for a timeout.
unfoldable pub timeouts : ℕ → List (ℕ × Bool) → ℕ
timeouts p [] = 0
timeouts p ((r, b) ∷ rs) = (if not b && r == p then 1 else 0) + timeouts p rs

settled-settle_all :
    (b : Bool) (p : ℕ) (ws : List Waiter) (rs : List (ℕ × Bool))
    → settled p (settle_all b ws rs) ≡ waits p ws + settled p rs
unfolding settle_all waits settled
settled-settle_all b p [] rs = omega arith
settled-settle_all b p (w ∷ ws) rs = omega (arith, settled-settle_all b p ws ((w.promise, b) ∷ rs))

timeouts-settle_all :
    (p : ℕ) (ws : List Waiter) (rs : List (ℕ × Bool))
    → timeouts p (settle_all true ws rs) ≡ timeouts p rs
unfolding settle_all timeouts
timeouts-settle_all p [] rs = refl
timeouts-settle_all p (w ∷ ws) rs = omega (arith, timeouts-settle_all p ws ((w.promise, true) ∷ rs))

pub waits-snoc :
    (p : ℕ) (w : Waiter) (ws : List Waiter)
    → waits p (ws ++ w ∷ []) ≡ waits p ws + (if w.promise == p then 1 else 0)
unfolding waits
waits-snoc p w [] = omega arith
waits-snoc p w (v ∷ ws) = omega (arith, waits-snoc p w ws)

pub waits-keep :
    (p r : ℕ) (ws : List Waiter)
    → waits p (keep (λ w. not (w.promise == r)) ws) ≡ (if r == p then 0 else waits p ws)
unfolding waits
waits-keep p r [] = ground arith
waits-keep p r (w ∷ ws) =
    ground (arith, waits-keep p r ws, ==_iff r p, ==_iff w.promise r, ==_iff w.promise p)

pub is_waiting-waits : (p : ℕ) (ws : List Waiter) → is_waiting p ws ≡ true → 0 < waits p ws
unfolding is_waiting waits
is_waiting-waits p [] h = cc
is_waiting-waits p (w ∷ ws) h = ground (arith, h, is_waiting-waits p ws)

module _ {E : Type 0} where
  -- `notifyAll` leaves every promise answered.
  pub notified :
      (q : EventQueue E) (p : ℕ)
      → waits p (notify_all true q).waiters + settled p (notify_all true q).resolved
        ≡ waits p q.waiters + settled p q.resolved
  unfolding notify_all waits
  notified q p = omega (arith, settled-settle_all true p q.waiters q.resolved)

  pub untimed :
      (q : EventQueue E) (p : ℕ) → timeouts p (notify_all true q).resolved ≡ timeouts p q.resolved
  unfolding notify_all
  untimed q p = timeouts-settle_all p q.waiters q.resolved
