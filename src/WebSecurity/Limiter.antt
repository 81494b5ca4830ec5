-- ===== src/WebSecurity/Limiter.antt =====
-- app/web_security.py: `LoginRateLimiter`, in its atomic blocks. Times are microseconds of the injected clock. The
-- attempt states are objects that callers go on holding after the dictionary dropped them, so the
-- dictionary maps a key to an object id and `heap` holds the objects.
mod Dict
pub mod Frame
pub mod Cleanup
pub mod Operations
pub mod Threads
pub mod Lockout
pub mod Window
use early_warning_system.Prelude.{
  ℕ, zero, suc, ◌+◌, ◌-◌, ◌*◌, ◌/◌, min, max, Bool, true, false, ◌&&◌, ◌||◌, not, Option, none,
  some, List, [], ◌∷◌, ◌++◌, length, is_empty, Text, Eq, ◌==◌, nat_eq, text_eq, option_eq, ltb, leb,
  if◌then◌else◌, strip,
}

abbrev pub ticks_per_second : ℕ
ticks_per_second = 1000000

-- `math.ceil` of a span, in seconds
unfoldable pub ceil_seconds : ℕ → ℕ
ceil_seconds span = (span + (ticks_per_second - 1)) / ticks_per_second

-- `_AttemptState`; `gate` is whether its lock is held, `locked_until` is 0 while unlocked
pub record AttemptState : Type 0 where
  pub failures : List ℕ
  pub locked_until : ℕ
  pub gate : Bool
  pub references : ℕ

abbrev pub fresh : AttemptState
fresh = record { failures = []; locked_until = 0; gate = false; references = 0 }

-- `_LimiterKey`
pub record LimiterKey : Type 0 where
  pub client_id : Text
  pub digest : Text

abbrev pub key_beq : LimiterKey → LimiterKey → Bool
key_beq a b = (a.client_id == b.client_id) && (a.digest == b.digest)

-- `str.casefold` and `hashlib.sha256(...).digest()` of the encoded text
pub record Digester : Type 0 where
  pub casefold : Text → Text
  pub sha256 : Text → Text

unfoldable pub limiter_key : Digester → Text → Text → LimiterKey
limiter_key d client_id username = record {
  client_id = client_id;
  digest = d.sha256 (d.casefold (strip username));
}

-- the `OrderedDict` of the limiter
abbrev pub States : Type 0
States = List (LimiterKey × ℕ)

unfoldable pub lookup : LimiterKey → States → Option ℕ
lookup key [] = none
lookup key ((k, i) ∷ rest) = if key_beq k key then some i else lookup key rest

unfoldable pub assign : LimiterKey → ℕ → States → States
assign key i [] = (key, i) ∷ []
assign key i ((k, j) ∷ rest) = if key_beq k key then (k, i) ∷ rest else (k, j) ∷ assign key i rest

unfoldable pub pop : LimiterKey → States → States
pop key [] = []
pop key ((k, j) ∷ rest) = let tail = pop key rest in if key_beq k key then tail else (k, j) ∷ tail

pub record Limiter : Type 0 where
  pub max_failures : ℕ
  pub failure_window_seconds : ℕ
  pub lockout_seconds : ℕ
  pub max_states : ℕ
  pub cleanup_interval : ℕ
  pub cleanup_batch_size : ℕ
  pub states : States
  pub next_cleanup_at : ℕ
  pub heap : ℕ → AttemptState
  pub next_id : ℕ

-- `__init__`; `none` is a `ValueError`
unfoldable pub init : ℕ → ℕ → ℕ → ℕ → ℕ → ℕ → ℕ → Option Limiter
init max_failures window lockout max_states interval batch now =
    if ltb max_states 1
    then none
    else if leb interval 0
    then none
    else if ltb batch 1
    then none
    else some (record {
      max_failures = max_failures;
      failure_window_seconds = window;
      lockout_seconds = lockout;
      max_states = max_states;
      cleanup_interval = interval;
      cleanup_batch_size = batch;
      states = [];
      next_cleanup_at = now + interval;
      heap = λ _. fresh;
      next_id = 0;
    })

-- a write to an object
unfoldable pub write : Limiter → ℕ → AttemptState → Limiter
write l i st = record l { heap = λ j. if i == j then st else l.heap j }

unfoldable pub pop_old : ℕ → ℕ → List ℕ → List ℕ
pop_old window now [] = []
pop_old window now (f ∷ rest) =
    let later = pop_old window now rest in if leb (f + window) now then later else f ∷ rest

unfoldable pub unlock_expired : AttemptState → ℕ → AttemptState
unlock_expired st now =
    if not (st.locked_until == 0) && leb st.locked_until now
    then record st { locked_until = 0; failures = [] }
    else st

-- `_expire_state`; a failure at `f` is old when `f <= now - window`
unfoldable pub expire_state : ℕ → AttemptState → ℕ → AttemptState
unfolding pop_old unlock_expired
expire_state window st now =
    let st' = unlock_expired st now in
    record st' { failures = pop_old (window * ticks_per_second) now st'.failures }

-- `_retry_after`
unfoldable pub state_retry_after : AttemptState → ℕ → ℕ
state_retry_after st now =
    if leb st.locked_until now then 0 else ceil_seconds (st.locked_until - now)

-- `_discard_if_inactive`
unfoldable pub discard_if_inactive : Limiter → LimiterKey → ℕ → Limiter
discard_if_inactive l key i =
    let st = l.heap i in
    if (lookup key l.states == some i)
      && (st.references == 0)
      && is_empty st.failures
      && (st.locked_until == 0)
    then record l { states = pop key l.states }
    else l

-- `_reserve_state`
unfoldable pub reserve_state : Limiter → LimiterKey → Option ℕ × Limiter
reserve_state l key = if leb l.max_states (length l.states) then (none, l) else (
  some l.next_id,
  record (write l l.next_id fresh) {
    states = assign key l.next_id l.states;
    next_id = suc l.next_id;
  },
)

unfoldable pub expire_in_place : Limiter → ℕ → ℕ → Limiter
expire_in_place l i now = write l i (expire_state l.failure_window_seconds (l.heap i) now)

-- `_current_state`
unfoldable pub current_state : Limiter → LimiterKey → ℕ → Option ℕ × Limiter
current_state l key now = elim (lookup key l.states) [
  | none ↦ (none, l)
  | some i ↦
      let l' = discard_if_inactive (expire_in_place l i now) key i in (lookup key l'.states, l')
]

-- one round of the cleanup: `popitem(last=False)`, and back to the end if still in use
unfoldable pub cleanup_step : Limiter → ℕ → LimiterKey → ℕ → States → Limiter
cleanup_step l now key i rest =
    let l' = expire_in_place (record l { states = rest }) i now in
    let st = l'.heap i in
    if not (st.references == 0) || not (is_empty st.failures) || not (st.locked_until == 0)
    then record l' { states = assign key i l'.states }
    else l'

unfoldable pub cleanup_first : Limiter → ℕ → States → Limiter
cleanup_first l now [] = l
cleanup_first l now ((key, i) ∷ rest) = cleanup_step l now key i rest

unfoldable pub cleanup_rounds : ℕ → ℕ → Limiter → Limiter
cleanup_rounds zero now l = l
cleanup_rounds (suc n) now l = cleanup_rounds n now (cleanup_first l now l.states)

-- `_run_scheduled_cleanup`
unfoldable pub run_scheduled_cleanup : Limiter → ℕ → Limiter
run_scheduled_cleanup l now =
    if ltb now l.next_cleanup_at
    then l
    else cleanup_rounds (min l.cleanup_batch_size (length l.states)) now
        (record l { next_cleanup_at = now + l.cleanup_interval })

-- `_capacity_retry_after`
unfoldable pub capacity_retry_after : Limiter → ℕ
capacity_retry_after l = max 1 (ceil_seconds l.cleanup_interval)

-- the lookup that `attempt` and `record_failure` share
unfoldable pub find_or_reserve : Limiter → LimiterKey → ℕ → Option ℕ × Limiter
find_or_reserve l key now =
    let (found, l') = current_state (run_scheduled_cleanup l now) key now in
    elim found [ none ↦ reserve_state l' key | some i ↦ (some i, l') ]

unfoldable pub add_reference : Limiter → ℕ → Limiter
add_reference l i = write l i (record (l.heap i) { references = suc (l.heap i).references })

-- `attempt`, its first block under the lock: the object, referenced, or `none` at capacity
unfoldable pub attempt_enter : Limiter → LimiterKey → ℕ → Option ℕ × Limiter
attempt_enter l key now =
    let (found, l') = find_or_reserve l key now in
    elim found [ none ↦ (none, l') | some i ↦ (some i, add_reference l' i) ]

-- `attempt`, `state.gate.acquire()`, when the gate is free
unfoldable pub attempt_acquire : Limiter → ℕ → Limiter
attempt_acquire l i = write l i (record (l.heap i) { gate = true })

-- `attempt`, its second block under the lock: what it yields
unfoldable pub attempt_check : Limiter → ℕ → ℕ → ℕ × Limiter
attempt_check l i now = let l' = expire_in_place l i now in (state_retry_after (l'.heap i) now, l')

-- `attempt`, the `finally` block: `state.gate.release()`
unfoldable pub attempt_release : Limiter → ℕ → Limiter
attempt_release l i = write l i (record (l.heap i) { gate = false })

-- `attempt`, the `finally` block: its part under the lock
unfoldable pub attempt_leave : Limiter → LimiterKey → ℕ → Limiter
attempt_leave l key i =
    discard_if_inactive (write l i (record (l.heap i) { references = (l.heap i).references - 1 }))
      key i

-- Entering `with limiter.attempt(...)` where nobody else holds the gate: the two clock readings,
-- and back come what it yields, the object held (`none` at capacity) and the limiter.
unfoldable pub attempt_begin : Limiter → LimiterKey → ℕ → ℕ → ℕ × Option ℕ × Limiter
attempt_begin l key now now' =
    let (found, l') = attempt_enter l key now in
    elim found [
      | none ↦ (capacity_retry_after l', none, l')
      | some i ↦
          let (wait, l'') = attempt_check (attempt_acquire l' i) i now' in (wait, some i, l'')
    ]

-- Leaving it, by whatever way.
unfoldable pub attempt_end : Limiter → LimiterKey → Option ℕ → Limiter
attempt_end l key none = l
attempt_end l key (some i) = attempt_leave (attempt_release l i) key i

-- `retry_after`
unfoldable pub retry_after : Limiter → LimiterKey → ℕ → ℕ × Limiter
retry_after l key now =
    let (found, l') = current_state (run_scheduled_cleanup l now) key now in
    (elim found [ none ↦ 0 | some i ↦ state_retry_after (l'.heap i) now ], l')

-- `record_failure` on the object found
unfoldable pub add_failure : Limiter → ℕ → ℕ → ℕ × Limiter
add_failure l i now =
    let st = l.heap i in
    let failures = st.failures ++ now ∷ [] in
    if ltb (length failures) l.max_failures
    then (0, write l i (record st { failures = failures }))
    else (
      l.lockout_seconds,
      write l i (record st {
        failures = failures;
        locked_until = now + l.lockout_seconds * ticks_per_second;
      }),
    )

-- `record_failure`
unfoldable pub record_failure : Limiter → LimiterKey → ℕ → ℕ × Limiter
record_failure l key now =
    let (found, l') = find_or_reserve l key now in
    elim found [ none ↦ (capacity_retry_after l', l') | some i ↦ add_failure l' i now ]

-- `clear`
unfoldable pub clear : Limiter → LimiterKey → Limiter
clear l key = elim (lookup key l.states) [
  | none ↦ l
  | some i ↦
      discard_if_inactive (write l i (record (l.heap i) { failures = []; locked_until = 0 })) key i
]
