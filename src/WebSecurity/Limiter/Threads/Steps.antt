-- ===== src/WebSecurity/Limiter/Threads/Steps.antt =====
-- Every atomic block keeps the limiter consistent with the requests that hold its objects.
use early_warning_system.Prelude.{
  ℕ, ◌-◌, ◌≤◌, ◌≡◌, ◌∙◌, refl, false, some, List, [], ◌∷◌, ◌++◌, arith, count, All,
  count-append_cons, All-replace, All-at, nat_eq, subst,
}
use early_warning_system.WebSecurity.Limiter.{
  LimiterKey, Limiter, lookup, write, find_or_reserve, add_reference, attempt_enter,
  attempt_acquire, attempt_release, attempt_leave,
}
use early_warning_system.WebSecurity.Limiter.Dict.{lookup-IdsBelow}
use early_warning_system.WebSecurity.Limiter.Frame.{Frame, discard_if_inactive-Frame}
use early_warning_system.WebSecurity.Limiter.Cleanup.{find_or_reserve-Frame, find_or_reserve-lookup}
use early_warning_system.WebSecurity.Limiter.Threads.{
  Phase, idle, waiting, inside, leaving, turned_away, System, Step, enter, refuse, depart, acquire,
  check, release, leave, fail, reset, query, holds, is_inside, HasEntry, Consistent,
}
use early_warning_system.WebSecurity.Limiter.Operations.{
  check-Frame, refuse-Frame, record_failure-Frame, clear-Frame, retry_after-Frame,
}

HasEntry-Frame :
    {l l' : Limiter} (ts : List Phase)
    → Frame l l'
    → ((i : ℕ) → count (holds i) ts ≤ (l.heap i).references)
    → All (HasEntry l) ts
    → All (HasEntry l') ts
HasEntry-Frame [] f b h = tt
HasEntry-Frame {l} (idle ∷ ts) f b h = (tt, HasEntry-Frame ts f b h.1)
HasEntry-Frame {l} (turned_away k n ∷ ts) f b h = (tt, HasEntry-Frame ts f b h.1)
HasEntry-Frame {l} (waiting k i ∷ ts) f b h =
    (f.kept k i h.0 (ground (arith, b i)), HasEntry-Frame ts f (λ j. ground (arith, b j)) h.1)
HasEntry-Frame {l} (inside k i ∷ ts) f b h =
    (f.kept k i h.0 (ground (arith, b i)), HasEntry-Frame ts f (λ j. ground (arith, b j)) h.1)
HasEntry-Frame {l} (leaving k i ∷ ts) f b h =
    (f.kept k i h.0 (ground (arith, b i)), HasEntry-Frame ts f (λ j. ground (arith, b j)) h.1)

-- Housekeeping keeps consistency.
Consistent-Frame :
    {l l' : Limiter} {ts : List Phase} → Frame l l' → Consistent l ts → Consistent l' ts
Consistent-Frame {l} {l'} {ts} f c = record {
  valid = f.valid;
  references = λ i. f.references i ∙ c.references i;
  gates = λ i. rw (f.gates i) (c.gates i);
  entries = HasEntry-Frame ts f (λ i. omega (arith, c.references i)) c.entries;
}

module _ (l : Limiter) (pre post : List Phase) (key : LimiterKey) (i : ℕ) where
  add_reference-Consistent :
      lookup key l.states ≡ some i
      → Consistent l (pre ++ idle ∷ post)
      → Consistent (add_reference l i) (pre ++ waiting key i ∷ post)
  unfolding add_reference write
  add_reference-Consistent found c =
      let low = lookup-IdsBelow key l.next_id l.states c.valid.ids found in
      record {
        valid = record {
          bounded = c.valid.bounded;
          ids = c.valid.ids;
          unused_references = λ j h. ground (arith, c.valid.unused_references j, low);
          unused_gates = λ j h. ground (arith, c.valid.unused_gates j, low);
        };
        references = λ j. ground (
          arith,
          c.references j,
          count-append_cons (holds j) pre idle post,
          count-append_cons (holds j) pre (waiting key i) post,
        );
        gates = λ j. ground (
          arith,
          c.gates j,
          count-append_cons (is_inside j) pre idle post,
          count-append_cons (is_inside j) pre (waiting key i) post,
        );
        entries = All-replace (HasEntry l) pre _ (waiting key i) post c.entries found;
      }

  acquire-Consistent :
      (l.heap i).gate ≡ false
      → Consistent l (pre ++ waiting key i ∷ post)
      → Consistent (attempt_acquire l i) (pre ++ inside key i ∷ post)
  unfolding attempt_acquire write
  acquire-Consistent free c =
      let found = All-at (HasEntry l) pre _ post c.entries in
      let low = lookup-IdsBelow key l.next_id l.states c.valid.ids found in
      record {
        valid = record {
          bounded = c.valid.bounded;
          ids = c.valid.ids;
          unused_references = λ j h. ground (arith, c.valid.unused_references j, low);
          unused_gates = λ j h. ground (arith, c.valid.unused_gates j, low);
        };
        references = λ j. ground (
          arith,
          c.references j,
          count-append_cons (holds j) pre (waiting key i) post,
          count-append_cons (holds j) pre (inside key i) post,
        );
        gates = λ j. ground (
          arith,
          c.gates j,
          count-append_cons (is_inside j) pre (waiting key i) post,
          count-append_cons (is_inside j) pre (inside key i) post,
        );
        entries = All-replace (HasEntry l) pre _ (inside key i) post c.entries found;
      }

  release-Consistent :
      Consistent l (pre ++ inside key i ∷ post)
      → Consistent (attempt_release l i) (pre ++ leaving key i ∷ post)
  unfolding attempt_release write
  release-Consistent c = record {
    valid = record {
      bounded = c.valid.bounded;
      ids = c.valid.ids;
      unused_references = λ j h. ground (arith, c.valid.unused_references j);
      unused_gates = λ j h. ground (arith, c.valid.unused_gates j);
    };
    references = λ j. ground (
      arith,
      c.references j,
      count-append_cons (holds j) pre (inside key i) post,
      count-append_cons (holds j) pre (leaving key i) post,
    );
    gates = λ j. ground (
      arith,
      c.gates j,
      count-append_cons (is_inside j) pre (inside key i) post,
      count-append_cons (is_inside j) pre (leaving key i) post,
    );
    entries =
        All-replace (HasEntry l) pre _ (leaving key i) post c.entries
          (All-at (HasEntry l) pre _ post c.entries);
  }

  leave-Consistent :
      Consistent l (pre ++ leaving key i ∷ post)
      → Consistent (attempt_leave l key i) (pre ++ idle ∷ post)
  unfolding attempt_leave write
  leave-Consistent c =
      let st = record (l.heap i) { references = (l.heap i).references - 1 } in
      let c' : Consistent (write l i st) (pre ++ idle ∷ post) = record {
        valid = record {
          bounded = c.valid.bounded;
          ids = c.valid.ids;
          unused_references = λ j h. ground (arith, c.valid.unused_references j);
          unused_gates = λ j h. ground (arith, c.valid.unused_gates j);
        };
        references = λ j. ground (
          arith,
          c.references j,
          count-append_cons (holds j) pre (leaving key i) post,
          count-append_cons (holds j) pre idle post,
        );
        gates = λ j. ground (
          arith,
          c.gates j,
          count-append_cons (is_inside j) pre (leaving key i) post,
          count-append_cons (is_inside j) pre idle post,
        );
        entries = All-replace (HasEntry l) pre _ idle post c.entries tt;
      } in
      Consistent-Frame (discard_if_inactive-Frame (write l i st) key i c'.valid) c'

module _ (l : Limiter) (key : LimiterKey) (now : ℕ) where
  enter-Consistent :
      (pre post : List Phase) (i : ℕ)
      → (attempt_enter l key now).0 ≡ some i
      → Consistent l (pre ++ idle ∷ post)
      → Consistent (attempt_enter l key now).1 (pre ++ waiting key i ∷ post)
  unfolding attempt_enter
  enter-Consistent pre post i h c =
      let r = find_or_reserve l key now in
      let e : r.0 ≡ some i = ground arith in
      rw (e, attempt_enter)
        (add_reference-Consistent r.1 pre post key i (find_or_reserve-lookup l key now c.valid i e)
          (Consistent-Frame (find_or_reserve-Frame l key now c.valid) c))

-- A request changes its place and holds no object before and after.
abbrev HoldsNone : Phase → Type 0
HoldsNone p = (i : ℕ) → (holds i p ≡ false) × (is_inside i p ≡ false)

away-Consistent :
    (l : Limiter) (pre post : List Phase) (p q : Phase)
    → HoldsNone p
    → HoldsNone q
    → HasEntry l q
    → Consistent l (pre ++ p ∷ post)
    → Consistent l (pre ++ q ∷ post)
away-Consistent l pre post p q before after entry c = record {
  valid = c.valid;
  references = λ i. ground (
    arith,
    c.references i,
    before i,
    after i,
    count-append_cons (holds i) pre p post,
    count-append_cons (holds i) pre q post,
  );
  gates = λ i. ground (
    arith,
    c.gates i,
    before i,
    after i,
    count-append_cons (is_inside i) pre p post,
    count-append_cons (is_inside i) pre q post,
  );
  entries = All-replace (HasEntry l) pre p q post c.entries entry;
}

abbrev pub IsConsistent : System → Type 0
IsConsistent s = Consistent s.limiter s.threads

on_threads : (l : Limiter) {ts ts' : List Phase} → ts ≡ ts' → Consistent l ts → Consistent l ts'
on_threads l e c = subst (Consistent l) e c

-- Every step keeps consistency.
pub Step-IsConsistent : {s t : System} → Step s t → IsConsistent s → IsConsistent t
Step-IsConsistent {s} (enter pre post key now i e h r) c =
    rw r (enter-Consistent s.limiter key now pre post i h (on_threads s.limiter e c))
Step-IsConsistent {s} (refuse pre post key now e h r) c = rw r (
    away-Consistent _ pre post idle (turned_away key _) (λ i. (refl, refl)) (λ i. (refl, refl)) tt
      (on_threads _ e (Consistent-Frame (refuse-Frame s.limiter key now h c.valid) c)))
Step-IsConsistent {s} (depart pre post key wait e r) c = rw r (
    away-Consistent s.limiter pre post (turned_away key wait) idle (λ i. (refl, refl))
      (λ i. (refl, refl)) tt (on_threads s.limiter e c))
Step-IsConsistent {s} (acquire pre post key i e free r) c =
    rw r (acquire-Consistent s.limiter pre post key i free (on_threads s.limiter e c))
Step-IsConsistent {s} (check i now r) c =
    rw r (Consistent-Frame (check-Frame s.limiter now i c.valid) c)
Step-IsConsistent {s} (release pre post key i e r) c =
    rw r (release-Consistent s.limiter pre post key i (on_threads s.limiter e c))
Step-IsConsistent {s} (leave pre post key i e r) c =
    rw r (leave-Consistent s.limiter pre post key i (on_threads s.limiter e c))
Step-IsConsistent {s} (fail key now r) c =
    rw r (Consistent-Frame (record_failure-Frame s.limiter key now c.valid) c)
Step-IsConsistent {s} (reset key r) c =
    rw r (Consistent-Frame (clear-Frame s.limiter key c.valid) c)
Step-IsConsistent {s} (query key now r) c =
    rw r (Consistent-Frame (retry_after-Frame s.limiter key now c.valid) c)
