-- ===== src/DevicePoller/Examples.antt =====
-- Runs of the device poller.
use flopsy.Prelude.{◌≡◌, refl, true, false, none, some, List, [], ◌∷◌, arith, Text, codes}
use flopsy.DevicePoller.{
  pending, success, DevicePoller, start_device_polling, poll_answers, poll_throws, timer_fires,
}
use flopsy.DevicePoller.Once.{
  Event, timeout, throws, answers, run, stakes, stakes-run, slow_down_forgotten,
}

abbrev history : List (Event Text)
history =
    timeout 5000 ∷ throws 5100 ∷ timeout 10_100 ∷ answers 10_200 (success (codes "token")) ∷ []

stakes-run_example : stakes (run (start_device_polling 0 5 60_000) history) ≡ 1
unfolding start_device_polling timer_fires poll_throws
stakes-run_example = stakes-run 0 5 60_000 history (refl, (refl, tt))

abbrev polling : DevicePoller Text
polling = record {
  is_cancelled = false;
  timer = none;
  in_flight = true;
  interval_sec = 5;
  expires_at = 60_000;
  calls = [];
}

slow_down_forgotten_example :
    let slowed = poll_answers 5000 (pending 5 true) polling in
    let next = poll_answers 15_100 (pending 5 false) (timer_fires 15_000 slowed) in
    (slowed.interval_sec ≡ 10) × (next.interval_sec ≡ 5) × (next.timer ≡ some 20_100)
slow_down_forgotten_example =
    slow_down_forgotten 5000 15_000 15_100 5 5 polling refl (omega arith) (omega arith)
