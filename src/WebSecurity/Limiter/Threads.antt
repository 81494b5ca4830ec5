-- ===== src/WebSecurity/Limiter/Threads.antt =====
-- `LoginRateLimiter` under concurrent requests: the atomic blocks of its methods interleave.
pub mod Steps
pub mod Exclusion
use early_warning_system.Prelude.{
  ℕ, zero, suc, ◌+◌, ◌-◌, ◌≤◌, ◌<◌, ◌≡◌, refl, sym, ◌∙◌, Bool, true, false, ◌&&◌, Option, none,
  some, List, [], ◌∷◌, ◌++◌, arith, count, bit, All, count-append_cons, All-replace, All-at, ◌==◌,
  nat_eq, if◌then◌else◌,
}
use early_warning_system.WebSecurity.Limiter.{
  LimiterKey, Limiter, lookup, write, attempt_enter, attempt_acquire, attempt_check,
  attempt_release, attempt_leave, capacity_retry_after, retry_after, record_failure, clear,
}
use early_warning_system.WebSecurity.Limiter.Frame.{IsValid}

-- where a request stands in `with limiter.attempt(...)`, with the key and the object it holds;
-- `turned_away` is inside the block without an object, with the seconds that it was given
pub data Phase : Type 0 where
  idle : Phase
  waiting : LimiterKey → ℕ → Phase
  inside : LimiterKey → ℕ → Phase
  leaving : LimiterKey → ℕ → Phase
  turned_away : LimiterKey → ℕ → Phase

pub record System : Type 0 where
  pub limiter : Limiter
  pub threads : List Phase

-- One atomic block of one request. The clock readings are arbitrary.
pub data Step (s t : System) : Type 0 where
  enter :
      (pre post : List Phase) (key : LimiterKey) (now i : ℕ)
      → s.threads ≡ pre ++ idle ∷ post
      → (attempt_enter s.limiter key now).0 ≡ some i
      → t ≡ record {
        limiter = (attempt_enter s.limiter key now).1;
        threads = pre ++ waiting key i ∷ post;
      }
      → Step s t
  refuse :
      (pre post : List Phase) (key : LimiterKey) (now : ℕ)
      → s.threads ≡ pre ++ idle ∷ post
      → (attempt_enter s.limiter key now).0 ≡ none
      → t ≡ record {
        limiter = (attempt_enter s.limiter key now).1;
        threads =
            pre
            ++ turned_away key (capacity_retry_after (attempt_enter s.limiter key now).1) ∷ post;
      }
      → Step s t
  depart :
      (pre post : List Phase) (key : LimiterKey) (wait : ℕ)
      → s.threads ≡ pre ++ turned_away key wait ∷ post
      → t ≡ record s { threads = pre ++ idle ∷ post }
      → Step s t
  acquire :
      (pre post : List Phase) (key : LimiterKey) (i : ℕ)
      → s.threads ≡ pre ++ waiting key i ∷ post
      → (s.limiter.heap i).gate ≡ false
      → t ≡ record { limiter = attempt_acquire s.limiter i; threads = pre ++ inside key i ∷ post }
      → Step s t
  check : (i now : ℕ) → t ≡ record s { limiter = (attempt_check s.limiter i now).1 } → Step s t
  release :
      (pre post : List Phase) (key : LimiterKey) (i : ℕ)
      → s.threads ≡ pre ++ inside key i ∷ post
      → t ≡ record { limiter = attempt_release s.limiter i; threads = pre ++ leaving key i ∷ post }
      → Step s t
  leave :
      (pre post : List Phase) (key : LimiterKey) (i : ℕ)
      → s.threads ≡ pre ++ leaving key i ∷ post
      → t ≡ record { limiter = attempt_leave s.limiter key i; threads = pre ++ idle ∷ post }
      → Step s t
  fail :
      (key : LimiterKey) (now : ℕ)
      → t ≡ record s { limiter = (record_failure s.limiter key now).1 }
      → Step s t
  reset : (key : LimiterKey) → t ≡ record s { limiter = clear s.limiter key } → Step s t
  query :
      (key : LimiterKey) (now : ℕ)
      → t ≡ record s { limiter = (retry_after s.limiter key now).1 }
      → Step s t

pub data Reach (s : System) : System → Type 0 where
  here : Reach s s
  next : {t u : System} → Reach s t → Step t u → Reach s u

abbrev pub holds : ℕ → Phase → Bool
holds i idle = false
holds i (waiting _ j) = j == i
holds i (inside _ j) = j == i
holds i (leaving _ j) = j == i
holds i (turned_away _ _) = false

abbrev pub is_inside : ℕ → Phase → Bool
is_inside i (inside _ j) = j == i
is_inside i _ = false

-- The object that a request holds is the dictionary's entry of its key.
abbrev pub HasEntry : Limiter → Phase → Type 0
HasEntry l idle = Unit
HasEntry l (waiting key i) = lookup key l.states ≡ some i
HasEntry l (inside key i) = lookup key l.states ≡ some i
HasEntry l (leaving key i) = lookup key l.states ≡ some i
HasEntry l (turned_away key wait) = Unit

pub record Consistent (l : Limiter) (threads : List Phase) : Type 0 where
  pub valid : IsValid l
  pub references : (i : ℕ) → (l.heap i).references ≡ count (holds i) threads
  pub gates : (i : ℕ) → bit (l.heap i).gate ≡ count (is_inside i) threads
  pub entries : All (HasEntry l) threads
