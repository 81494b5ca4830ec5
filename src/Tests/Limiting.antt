-- ===== src/Tests/Limiting.antt =====
-- Runs of app/web_security.py.
use early_warning_system.Prelude.{
  ◌+◌, ◌-◌, ◌*◌, ◌≤◌, ◌<◌, ◌≡◌, ◌↔◌, refl, true, false, some, [], ◌∷◌, codes, count, All, arith,
  nat_eq,
}
use early_warning_system.WebSecurity.Session.{str, WebSession, cleared}
use early_warning_system.WebSecurity.Csrf.{is_unsafe, require_csrf}
use early_warning_system.WebSecurity.Csrf.Laws.{SameToken, require_csrf_iff}
use early_warning_system.WebSecurity.Limiter.{
  LimiterKey, Limiter, init, ticks_per_second, ceil_seconds, lookup, write, reserve_state,
  current_state, run_scheduled_cleanup, find_or_reserve, add_reference, attempt_enter,
  attempt_acquire, attempt_begin, record_failure, fresh,
}
use early_warning_system.WebSecurity.Limiter.Frame.{IsValid}
use early_warning_system.WebSecurity.Limiter.Lockout.{attempt-record_failure}
use early_warning_system.WebSecurity.Limiter.Threads.{
  idle, waiting, inside, System, Reach, here, next, enter, acquire,
}
use early_warning_system.WebSecurity.Limiter.Threads.Steps.{IsConsistent}
use early_warning_system.WebSecurity.Limiter.Threads.Exclusion.{
  Started, started, inside_key, IsTold, Reach-IsConsistent, at_most_one_inside,
}

abbrev key : LimiterKey
key = record { client_id = codes "10.0.0.1"; digest = codes "root" }

-- one failure locks a key for 900 seconds
abbrev limiter : Limiter
limiter = record {
  max_failures = 1;
  failure_window_seconds = 300;
  lockout_seconds = 900;
  max_states = 4;
  cleanup_interval = 60;
  cleanup_batch_size = 2;
  states = [];
  next_cleanup_at = 60;
  heap = λ i. fresh;
  next_id = 0;
}

limiter-made : init 1 300 900 4 60 2 0 ≡ some limiter
unfolding init
limiter-made = refl

abbrev idle_system : System
idle_system = record { limiter = limiter; threads = idle ∷ idle ∷ [] }

abbrev waiting_system : System
waiting_system = record {
  limiter = (attempt_enter limiter key 5).1;
  threads = waiting key 0 ∷ idle ∷ [];
}

abbrev inside_system : System
inside_system = record {
  limiter = attempt_acquire waiting_system.limiter 0;
  threads = inside key 0 ∷ idle ∷ [];
}

entered : (attempt_enter limiter key 5).0 ≡ some 0
unfolding attempt_enter find_or_reserve run_scheduled_cleanup current_state lookup reserve_state
entered = refl

free : (waiting_system.limiter.heap 0).gate ≡ false
unfolding attempt_enter find_or_reserve run_scheduled_cleanup current_state lookup reserve_state
    write add_reference
free = refl

idle_system-Started : Started idle_system
idle_system-Started = started 1 300 900 4 60 2 0 2 limiter-made refl

inside_system-Reach : Reach idle_system inside_system
inside_system-Reach =
    next (next here (enter [] (idle ∷ []) key 5 0 refl entered refl))
      (acquire [] (idle ∷ []) key 0 refl free refl)

at_most_one_inside_example :
    (count (inside_key key) inside_system.threads ≤ 1) × All IsTold inside_system.threads
at_most_one_inside_example = at_most_one_inside idle_system-Started inside_system-Reach key

Reach-IsConsistent_example : IsConsistent inside_system
Reach-IsConsistent_example = Reach-IsConsistent idle_system-Started inside_system-Reach

limiter-IsValid : IsValid limiter
limiter-IsValid = record {
  bounded = omega arith;
  ids = tt;
  unused_references = λ i h. refl;
  unused_gates = λ i h. refl;
}

reserved : (find_or_reserve limiter key 5).0 ≡ some 0
unfolding find_or_reserve run_scheduled_cleanup current_state lookup reserve_state
reserved = refl

attempt-record_failure_example :
    ((record_failure limiter key 5).0 ≡ 900)
    × ((attempt_begin (record_failure limiter key 5).1 key 50000007 50000008).0
        ≡ ceil_seconds (5 + 900 * ticks_per_second - 50000008))
    × (0 < (attempt_begin (record_failure limiter key 5).1 key 50000007 50000008).0)
attempt-record_failure_example =
    attempt-record_failure limiter key 5 0 50000007 50000008 limiter-IsValid reserved (omega arith)
      (omega arith) (omega arith)

abbrev session : WebSession
session = record cleared { csrf_token = some (str (codes "token")) }

post-IsUnsafe : is_unsafe (codes "post") ≡ true
unfolding is_unsafe
post-IsUnsafe = refl

require_csrf_iff_example :
    (require_csrf (codes "post") session (some (str (codes "token"))) ≡ true)
    ↔ SameToken session.csrf_token (some (str (codes "token")))
require_csrf_iff_example =
    require_csrf_iff (codes "post") session (some (str (codes "token"))) post-IsUnsafe
