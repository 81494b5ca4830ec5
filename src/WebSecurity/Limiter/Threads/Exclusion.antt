-- ===== src/WebSecurity/Limiter/Threads/Exclusion.antt =====
-- What holds in every state that interleaved requests can reach.
use early_warning_system.Prelude.{
  ℕ, zero, suc, ◌≤◌, ◌≡◌, refl, sym, ap, subst, ◌++◌, All-replace, ◌<◌, Bool, true, false, none,
  some, List, [], ◌∷◌, arith, count, count_mono, bit, All, Option-cases, inl, inr, nat_eq,
}
use early_warning_system.WebSecurity.Limiter.{
  LimiterKey, key_beq, Limiter, fresh, lookup, init, capacity_retry_after, attempt_enter,
}
use early_warning_system.WebSecurity.Limiter.Dict.{key_beq_iff}
use early_warning_system.WebSecurity.Limiter.Threads.{
  Phase, idle, waiting, inside, leaving, turned_away, System, Step, enter, refuse, depart, acquire,
  check, release, leave, fail, reset, query, Reach, here, next, holds, is_inside, HasEntry,
}
use early_warning_system.WebSecurity.Limiter.Threads.Steps.{IsConsistent, Step-IsConsistent}

abbrev pub idle_threads : ℕ → List Phase
idle_threads zero = []
idle_threads (suc n) = idle ∷ idle_threads n

abbrev pub inside_key : LimiterKey → Phase → Bool
inside_key key (inside k _) = key_beq k key
inside_key key _ = false

-- `LoginRateLimiter(...)` with `n` requests that have not begun
pub data Started (s : System) : Type 0 where
  started :
      (max_failures window lockout max_states interval batch now n : ℕ)
      → init max_failures window lockout max_states interval batch now ≡ some s.limiter
      → s.threads ≡ idle_threads n
      → Started s

count-idle : (p : Phase → Bool) (n : ℕ) → p idle ≡ false → count p (idle_threads n) ≡ 0
count-idle p zero h = refl
count-idle p (suc n) h = rw h (count-idle p n h)

entries-idle : (l : Limiter) (n : ℕ) → All (HasEntry l) (idle_threads n)
entries-idle l zero = tt
entries-idle l (suc n) = (tt, entries-idle l n)

-- what the constructor leaves
init_lem :
    (max_failures window lockout max_states interval batch now : ℕ) (l : Limiter)
    → init max_failures window lockout max_states interval batch now ≡ some l
    → (l.states ≡ []) × (l.heap ≡ (λ _. fresh))
unfolding init
init_lem max_failures window lockout max_states interval batch now l h = ground arith

Started-IsConsistent : {s : System} → Started s → IsConsistent s
Started-IsConsistent {s} (started f w o m v b now n made ts) =
    let (empty, heap) = init_lem f w o m v b now s.limiter made in
    record {
      valid = record {
        bounded = rw empty (omega arith);
        ids = rw empty tt;
        unused_references = λ i h. rw heap refl;
        unused_gates = λ i h. rw heap refl;
      };
      references = λ i. rw (heap, ts) (sym (count-idle (holds i) n refl));
      gates = λ i. rw (heap, ts) (sym (count-idle (is_inside i) n refl));
      entries = rw ts (entries-idle s.limiter n);
    }

-- From a new limiter and requests that have not begun, for any interleaving: the dictionary never
-- has more than `max_states` entries, the reference count of every object is the number of requests
-- that hold it, its gate is held exactly while one of them is inside, and an object that a request
-- holds is still the dictionary's entry of that request's key.
pub Reach-IsConsistent : {s t : System} → Started s → Reach s t → IsConsistent t
Reach-IsConsistent st here = Started-IsConsistent st
Reach-IsConsistent st (next r step) = Step-IsConsistent step (Reach-IsConsistent st r)

-- a request inside for a key is inside that key's object
inside_at :
    (l : Limiter) (key : LimiterKey) (i : ℕ) (ts : List Phase)
    → lookup key l.states ≡ some i
    → All (HasEntry l) ts
    → All (λ p. inside_key key p ≡ true → is_inside i p ≡ true) ts
inside_at l key i [] e h = tt
inside_at l key i (idle ∷ ts) e h = ((λ c. cc), inside_at l key i ts e h.1)
inside_at l key i (waiting k j ∷ ts) e h = ((λ c. cc), inside_at l key i ts e h.1)
inside_at l key i (leaving k j ∷ ts) e h = ((λ c. cc), inside_at l key i ts e h.1)
inside_at l key i (turned_away k n ∷ ts) e h = ((λ c. cc), inside_at l key i ts e h.1)
inside_at l key i (inside k j ∷ ts) e h = (
  (λ c.
      ground
        (arith, key_beq_iff k key, h.0, ap (λ x. lookup x l.states) ((key_beq_iff k key).0 c))),
  inside_at l key i ts e h.1,
)

inside_none :
    (l : Limiter) (key : LimiterKey) (ts : List Phase)
    → lookup key l.states ≡ none
    → All (HasEntry l) ts
    → count (inside_key key) ts ≡ 0
inside_none l key [] e h = refl
inside_none l key (idle ∷ ts) e h = inside_none l key ts e h.1
inside_none l key (waiting k j ∷ ts) e h = inside_none l key ts e h.1
inside_none l key (leaving k j ∷ ts) e h = inside_none l key ts e h.1
inside_none l key (turned_away k n ∷ ts) e h = inside_none l key ts e h.1
inside_none l key (inside k j ∷ ts) e h =
    ground (arith, key_beq_iff k key, h.0, inside_none l key ts e h.1)

bit-le-one : (b : Bool) → bit b ≤ 1
bit-le-one b = ground arith

-- at most one request holds the object of a key inside its attempt
Consistent-one :
    (t : System) (key : LimiterKey) → IsConsistent t → count (inside_key key) t.threads ≤ 1
Consistent-one t key c = elim (Option-cases (lookup key t.limiter.states)) [
  | inl absent ↦ omega (arith, inside_none t.limiter key t.threads absent c.entries)
  | inr (i, found) ↦ omega (
    arith,
    count_mono (inside_key key) (is_inside i) t.threads
        (inside_at t.limiter key i t.threads found c.entries),
    c.gates i,
    bit-le-one (t.limiter.heap i).gate,
  )
]

-- a request that is inside without an object was told to wait
abbrev pub IsTold : Phase → Type 0
IsTold (turned_away key wait) = 0 < wait
IsTold _ = Unit

IsTold-idle : (n : ℕ) → All IsTold (idle_threads n)
IsTold-idle zero = tt
IsTold-idle (suc n) = (tt, IsTold-idle n)

wait-positive : (l : Limiter) → 0 < capacity_retry_after l
unfolding capacity_retry_after
wait-positive l = ground arith

IsTold-replace :
    {ts ts' : List Phase} (pre : List Phase) (p q : Phase) (post : List Phase)
    → ts ≡ pre ++ p ∷ post
    → ts' ≡ pre ++ q ∷ post
    → IsTold q
    → All IsTold ts
    → All IsTold ts'
IsTold-replace pre p q post e r w h =
    subst (All IsTold) (sym r) (All-replace IsTold pre p q post (subst (All IsTold) e h) w)

Step-IsTold : {s t : System} → Step s t → All IsTold s.threads → All IsTold t.threads
Step-IsTold (enter pre post key now i e _ r) h =
    IsTold-replace pre idle (waiting key i) post e (ap System.threads r) tt h
Step-IsTold {s} (refuse pre post key now e _ r) h =
    IsTold-replace pre idle _ post e (ap System.threads r)
      (wait-positive (attempt_enter s.limiter key now).1) h
Step-IsTold (depart pre post key wait e r) h =
    IsTold-replace pre (turned_away key wait) idle post e (ap System.threads r) tt h
Step-IsTold (acquire pre post key i e _ r) h =
    IsTold-replace pre (waiting key i) (inside key i) post e (ap System.threads r) tt h
Step-IsTold (check i now r) h = rw r h
Step-IsTold (release pre post key i e r) h =
    IsTold-replace pre (inside key i) (leaving key i) post e (ap System.threads r) tt h
Step-IsTold (leave pre post key i e r) h =
    IsTold-replace pre (leaving key i) idle post e (ap System.threads r) tt h
Step-IsTold (fail key now r) h = rw r h
Step-IsTold (reset key r) h = rw r h
Step-IsTold (query key now r) h = rw r h

Reach-IsTold : {s t : System} → All IsTold s.threads → Reach s t → All IsTold t.threads
Reach-IsTold h here = h
Reach-IsTold h (next r step) = Step-IsTold step (Reach-IsTold h r)

Started-IsTold : {s : System} → Started s → All IsTold s.threads
Started-IsTold (started f w o m v b now n made ts) = rw ts (IsTold-idle n)

-- From a new limiter and requests that have not begun, for any interleaving, at most one request at
-- a time that holds a limiter object is inside the attempt of a client and a user name. A request
-- that found the limiter full is inside its attempt without an object, beside the others, and has
-- been told to wait for at least a second.
pub at_most_one_inside :
    {s t : System}
    → Started s
    → Reach s t
    → (key : LimiterKey) → (count (inside_key key) t.threads ≤ 1) × All IsTold t.threads
at_most_one_inside {s} {t} st r key =
    (Consistent-one t key (Reach-IsConsistent st r), Reach-IsTold (Started-IsTold st) r)
