-- ===== src/LogService.antt =====
-- app/log_service.py: the pages of the log views, the CSV cells and the cleanup of old logs. The
-- rows of a table are in the order of their keys.
pub mod Pages
pub mod Expired
pub mod Cleanup
pub mod Batches
use early_warning_system.Prelude.{
  ℕ, zero, suc, ◌+◌, ◌-◌, ◌*◌, ◌/◌, min, max, Bool, true, false, not, ◌&&◌, ◌||◌, Option, none,
  some, List, [], ◌∷◌, ◌++◌, Text, codes, any, filter, map, take, drop, length, is_empty, ◌==◌,
  nat_eq, text_eq, option_eq, ltb, leb, if◌then◌else◌, Result, ok, raise,
}
use early_warning_system.Models.{
  DateTime, ExecutionStatus, status_eq, TriggerType, trigger_eq, MailStatus, mail_status_eq,
  ExecutionLog, MailLog,
}
use early_warning_system.Errors.{Error, value_error, overflow_error}
use early_warning_system.Database.{Db}
use early_warning_system.Outside.{Outside}
use early_warning_system.ExecutionLock.{database_error}

abbrev pub min_page_size : ℕ
min_page_size = 10

abbrev pub max_page_size : ℕ
max_page_size = 200

abbrev pub default_cleanup_batch_size : ℕ
default_cleanup_batch_size = 500

pub record LogFilters : Type 0 where
  pub execution_status : Text
  pub trigger_type : Text
  pub rule_id : Text
  pub mail_status : Text
  pub keyword : Text

pub record Page (A : Type 0) : Type 0 where
  pub items : List A
  pub page : ℕ
  pub page_size : ℕ
  pub total : ℕ
  pub total_pages : ℕ
  pub has_previous : Bool
  pub has_next : Bool

-- `csv_safe_cell` of a string
unfoldable pub csv_safe_cell : Text → Text
csv_safe_cell [] = []
csv_safe_cell (c ∷ s) =
    if (c == b'=') || (c == b'+') || (c == b'-') || (c == b'@') then 39 ∷ c ∷ s else c ∷ s

-- `ceil(total / page_size)`
unfoldable pub page_count : ℕ → ℕ → ℕ
page_count total page_size = (total + (page_size - 1)) / page_size

-- `_paginate` of the rows that the statement selects, in its order, which the source leaves open for
-- rows of one timestamp; a page or a size below 1 is read as 0 here, which is treated as the code
-- treats them
unfoldable pub paginate : {A : Type 0} → List A → ℕ → ℕ → Page A
paginate rows page page_size =
    let total = length rows in
    let normalized_page_size = min (max page_size min_page_size) max_page_size in
    let total_pages = max 1 (page_count total normalized_page_size) in
    let normalized_page = min (max page 1) total_pages in
    record {
      items = take normalized_page_size (drop ((normalized_page - 1) * normalized_page_size) rows);
      page = normalized_page;
      page_size = normalized_page_size;
      total = total;
      total_pages = total_pages;
      has_previous = ltb 1 normalized_page;
      has_next = ltb normalized_page total_pages;
    }

-- the values of the three enumerations
unfoldable pub status_of_text : Text → Option ExecutionStatus
status_of_text t =
    if t == codes "running"
    then some ExecutionStatus.running
    else if t == codes "success"
    then some ExecutionStatus.success
    else if t == codes "failed"
    then some ExecutionStatus.failed
    else if t == codes "partial_failed"
    then some ExecutionStatus.partial_failed
    else none

unfoldable pub trigger_of_text : Text → Option TriggerType
trigger_of_text t =
    if t == codes "scheduled"
    then some TriggerType.scheduled
    else if t == codes "manual"
    then some TriggerType.manual
    else none

unfoldable pub mail_status_of_text : Text → Option MailStatus
mail_status_of_text t =
    if t == codes "success"
    then some MailStatus.success
    else if t == codes "failed"
    then some MailStatus.failed
    else if t == codes "partial_failed"
    then some MailStatus.partial_failed
    else none

-- SQL's substring test and Python's `int`, which are not the program's own
pub record Matching : Type 0 where
  pub contains : Text → Text → Bool
  pub parse_int : Text → Option ℕ

-- the filters of `list_execution_logs`, one row at a time; a rule id that is no number matches no row
unfoldable pub keeps_rule : Matching → Text → ExecutionLog → Bool
keeps_rule m [] log = true
keeps_rule m (c ∷ s) log = elim (m.parse_int (c ∷ s)) [
  | none ↦ false
  | some id ↦ log.rule_id == some id
]

unfoldable pub keeps_execution_log : Matching → LogFilters → ExecutionLog → Bool
unfolding keeps_rule
keeps_execution_log m f log =
    elim (status_of_text f.execution_status) [ none ↦ true | some s ↦ log.status == s ]
    && elim (trigger_of_text f.trigger_type) [ none ↦ true | some t ↦ log.trigger_type == t ]
    && keeps_rule m f.rule_id log
    && (is_empty f.keyword
        || m.contains log.error_type f.keyword
        || m.contains log.error_message f.keyword)

unfoldable pub keeps_mail_log : Matching → LogFilters → MailLog → Bool
keeps_mail_log m f log =
    elim (mail_status_of_text f.mail_status) [ none ↦ true | some s ↦ log.status == s ]
    && (is_empty f.keyword
        || m.contains log.recipients f.keyword
        || m.contains log.cc_recipients f.keyword
        || m.contains log.subject f.keyword
        || m.contains log.error_message f.keyword)

-- `list_execution_logs` and `list_mail_logs`, with the order of the rows as an argument
unfoldable pub list_execution_logs :
    Matching → (List ExecutionLog → List ExecutionLog) → Db → LogFilters → ℕ → ℕ → Page ExecutionLog
list_execution_logs m order db f page page_size =
    paginate (order (filter (keeps_execution_log m f) db.execution_logs)) page page_size

unfoldable pub list_mail_logs :
    Matching → (List MailLog → List MailLog) → Db → LogFilters → ℕ → ℕ → Page MailLog
list_mail_logs m order db f page page_size =
    paginate (order (filter (keeps_mail_log m f) db.mail_logs)) page page_size

-- `finished_at < cutoff and status != RUNNING`; a `NULL` is not below anything
unfoldable pub finished_before : DateTime → Option DateTime → Bool
finished_before cutoff none = false
finished_before cutoff (some t) = ltb t cutoff

unfoldable pub is_expired : DateTime → ExecutionLog → Bool
unfolding finished_before
is_expired cutoff log =
    finished_before cutoff log.finished_at && not (log.status == ExecutionStatus.running)

-- `id IN execution_ids`
unfoldable pub is_one_of : List (Option ℕ) → Option ℕ → Bool
is_one_of ids id = any (λ i. i == id) ids

-- the ids that a round selects
unfoldable pub expired_ids : DateTime → ℕ → List ExecutionLog → List (Option ℕ)
expired_ids cutoff batch logs = map (λ l. l.id) (take batch (filter (is_expired cutoff) logs))

-- the two deletes of a round
unfoldable pub delete_logs : List (Option ℕ) → Db → Db
delete_logs ids db = record db {
  mail_logs = filter (λ m. not (is_one_of ids m.execution_log_id)) db.mail_logs;
  execution_logs = filter (λ l. not (is_one_of ids l.id)) db.execution_logs;
}

module _ {W : Type 0} (out : Outside W) (cutoff : DateTime) (batch : ℕ) where
  -- the rounds of `cleanup_expired_logs`, at most so many; `none` is running out of them
  unfoldable pub cleanup_rounds : ℕ → ℕ → Db → W → Option (Result Error ℕ) × Db × W
  cleanup_rounds zero deleted_count db w = (none, db, w)
  cleanup_rounds (suc rounds) deleted_count db w =
      let ids = expired_ids cutoff batch db.execution_logs in
      let (committed, w') = out.commit w in
      let next = cleanup_rounds rounds (deleted_count + length ids) (delete_logs ids db) w' in
      if is_empty ids
      then (some (ok deleted_count), db, w)
      else if committed
      then next
      else (some (raise database_error), db, w')

abbrev pub days : ℕ → ℕ
days n = n * 86400000000

module _ {W : Type 0} (out : Outside W) where
  -- `cleanup_expired_logs`, with a round for each row and one more
  unfoldable pub cleanup_expired_logs : ℕ → DateTime → ℕ → Db → W → Option (Result Error ℕ) × Db × W
  cleanup_expired_logs retention_days now batch_size db w =
      if leb batch_size 0
      then (some (raise (value_error (codes "batch_size must be greater than zero"))), db, w)
      else if ltb now (days retention_days)
      then (some (raise overflow_error), db, w)
      else cleanup_rounds out (now - days retention_days)
          (min batch_size default_cleanup_batch_size) (suc (length db.execution_logs)) 0 db w
