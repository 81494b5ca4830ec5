-- ===== src/WorkerHealth/Readiness.antt =====
-- When the application is ready, and what a synchronisation of the worker makes of it.
use early_warning_system.Prelude.{
  ℕ, ◌+◌, ◌≡◌, ◌≤◌, ◌↔◌, refl, Bool, true, Option, none, some, List, [], ◌∷◌, Text, arith, ◌==◌,
  nat_eq, Bool-cases, Option-cases, inl, inr, ok, subst,
}
use early_warning_system.Models.{DateTime, WorkerHeartbeat}
use early_warning_system.Database.{Db}
use early_warning_system.Outside.{Outside}
use early_warning_system.ExecutionLock.{microseconds}
use early_warning_system.WorkerHealth.{
  get_heartbeat, store_heartbeat, new_heartbeat, seen, synced, commit_heartbeat, record_worker_sync,
  has_required_tables, judge_heartbeat, check_readiness,
}

-- A worker that was seen lately and whose last synchronisation went well.
abbrev pub IsAlive : ℕ → DateTime → Db → Type 0
IsAlive timeout_seconds now db =
    (h : WorkerHeartbeat) × (get_heartbeat db.heartbeats ≡ some h)
    × (now ≤ h.last_seen_at + microseconds timeout_seconds)
    × (h.last_sync_ok ≡ true)

judge_heartbeat_iff :
    (timeout_seconds : ℕ) (now : DateTime) (found : Option WorkerHeartbeat)
    → ((judge_heartbeat timeout_seconds now found).is_ready ≡ true) ↔ (
        (h : WorkerHeartbeat) × (found ≡ some h)
        × (now ≤ h.last_seen_at + microseconds timeout_seconds)
        × (h.last_sync_ok ≡ true))
unfolding judge_heartbeat
judge_heartbeat_iff timeout_seconds now none = ((λ h. cc), λ h. cc (h.1))
judge_heartbeat_iff timeout_seconds now (some h) =
    ((λ r. (h, refl, ground arith, ground arith)), (λ k. ground (arith, k.1, k.2, k.3)))

module _ (tables : List Text) (db : Db) (timeout_seconds : ℕ) (now : DateTime) where
  -- The application is ready exactly when the required tables are there and the worker is alive: its
  -- heartbeat is no older than the timeout and its last synchronisation went well.
  pub check_readiness_iff :
      ((check_readiness (some (tables, db)) timeout_seconds now).is_ready ≡ true)
      ↔ ((has_required_tables tables ≡ true) × IsAlive timeout_seconds now db)
  unfolding check_readiness
  check_readiness_iff = elim (Bool-cases (has_required_tables tables)) [
    | inl complete ↦
        rw (complete, check_readiness)
          (
            (λ r. (
              refl,
              (judge_heartbeat_iff timeout_seconds now (get_heartbeat db.heartbeats)).0 r,
            )),
            λ k. (judge_heartbeat_iff timeout_seconds now (get_heartbeat db.heartbeats)).1 k.1,
          )
    | inr incomplete ↦ rw (incomplete, check_readiness) ((λ r. cc), λ k. cc (k.0))
  ]

get_heartbeat-store_heartbeat :
    (h : WorkerHeartbeat) (rows : List WorkerHeartbeat)
    → h.id ≡ 1
    → get_heartbeat (store_heartbeat h rows) ≡ some h
unfolding get_heartbeat store_heartbeat
get_heartbeat-store_heartbeat h [] one = ground (arith, one)
get_heartbeat-store_heartbeat h (x ∷ rows) one =
    ground (arith, one, get_heartbeat-store_heartbeat h rows one)

get_heartbeat-id :
    (rows : List WorkerHeartbeat) (h : WorkerHeartbeat) → get_heartbeat rows ≡ some h → h.id ≡ 1
unfolding get_heartbeat
get_heartbeat-id [] h e = cc
get_heartbeat-id (x ∷ rows) h e = elim (Bool-cases (x.id == 1)) [
  | inl one ↦ ground (arith, one, e)
  | inr other ↦ get_heartbeat-id rows h (rw other at e)
]

synced-id :
    (rows : List WorkerHeartbeat) (worker_id error : Text) (sync_ok : Bool) (timestamp : DateTime)
    → (synced (get_heartbeat rows) worker_id sync_ok error timestamp).id ≡ 1
unfolding synced seen new_heartbeat
synced-id rows worker_id error sync_ok timestamp = elim (Option-cases (get_heartbeat rows)) [
  | inl absent ↦ rw (absent, seen) refl
  | inr (h, found) ↦ rw (found, seen) (get_heartbeat-id rows h found)
]

judge_seen :
    (h : WorkerHeartbeat) (sync_ok : Bool) (timestamp : DateTime) (timeout_seconds : ℕ)
    (now : DateTime)
    → h.last_seen_at ≡ timestamp
    → h.last_sync_ok ≡ sync_ok
    → now ≤ timestamp + microseconds timeout_seconds
    → (judge_heartbeat timeout_seconds now (some h)).is_ready ≡ sync_ok
unfolding judge_heartbeat
judge_seen h sync_ok timestamp timeout_seconds now at_ is_ok late = ground (arith, at_, is_ok, late)

synced_lem :
    (found : Option WorkerHeartbeat) (worker_id error : Text) (sync_ok : Bool)
    (timestamp : DateTime)
    → ((synced found worker_id sync_ok error timestamp).last_seen_at ≡ timestamp)
      × ((synced found worker_id sync_ok error timestamp).last_sync_ok ≡ sync_ok)
unfolding synced seen new_heartbeat
synced_lem none worker_id error sync_ok timestamp = (refl, refl)
synced_lem (some h) worker_id error sync_ok timestamp = (refl, refl)

judge_synced :
    (db : Db) (worker_id error : Text) (sync_ok : Bool) (timestamp : DateTime) (timeout_seconds : ℕ)
    (now : DateTime)
    → now ≤ timestamp + microseconds timeout_seconds
    → (judge_heartbeat timeout_seconds now (
        get_heartbeat (
          store_heartbeat
            (synced (get_heartbeat db.heartbeats) worker_id sync_ok error timestamp)
            db.heartbeats))).is_ready
      ≡ sync_ok
judge_synced db worker_id error sync_ok timestamp timeout_seconds now late =
    let h = synced (get_heartbeat db.heartbeats) worker_id sync_ok error timestamp in
    let found =
      get_heartbeat-store_heartbeat h db.heartbeats
        (synced-id db.heartbeats worker_id error sync_ok timestamp) in
    let k = synced_lem (get_heartbeat db.heartbeats) worker_id error sync_ok timestamp in
    rw found (judge_seen h sync_ok timestamp timeout_seconds now k.0 k.1 late)

-- After a synchronisation whose heartbeat was committed, while that heartbeat is no older than the
-- timeout and the required tables are there, the application is ready if and only if the
-- synchronisation went well, whatever was stored before it.
pub check_readiness-record_worker_sync :
    {W : Type 0} (out : Outside W) (tables : List Text) (db db' : Db) (w : W)
    (worker_id error : Text) (sync_ok : Bool) (timestamp : DateTime) (timeout_seconds : ℕ)
    (now : DateTime)
    → (record_worker_sync out worker_id sync_ok error timestamp db w).0 ≡ ok tt
    → (record_worker_sync out worker_id sync_ok error timestamp db w).1 ≡ db'
    → has_required_tables tables ≡ true
    → now ≤ timestamp + microseconds timeout_seconds
    → (check_readiness (some (tables, db')) timeout_seconds now).is_ready ≡ sync_ok
unfolding record_worker_sync commit_heartbeat check_readiness
check_readiness-record_worker_sync out tables db db' w worker_id error sync_ok timestamp
      timeout_seconds now done after complete late =
    let h = synced (get_heartbeat db.heartbeats) worker_id sync_ok error timestamp in
    elim (Bool-cases (out.commit w).0) [
      | inr failed ↦ cc (rw (failed, commit_heartbeat) at done)
      | inl committed ↦
          subst (λ d. (check_readiness (some (tables, d)) timeout_seconds now).is_ready ≡ sync_ok)
            (rw (committed, commit_heartbeat) at after)
            (rw (complete, check_readiness)
              (judge_synced db worker_id error sync_ok timestamp timeout_seconds now late))
    ]
