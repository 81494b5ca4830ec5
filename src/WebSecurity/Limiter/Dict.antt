-- ===== src/WebSecurity/Limiter/Dict.antt =====
-- The ordered dictionary of `LoginRateLimiter`: what lookups return after each change, and sizes.
use early_warning_system.Prelude.{
  ℕ, suc, ◌≤◌, ◌<◌, ◌≡◌, refl, ◌↔◌, true, none, some, [], ◌∷◌, arith, length, text_beq_iff,
  if◌then◌else◌, All,
}
use early_warning_system.WebSecurity.Limiter.{LimiterKey, key_beq, States, lookup, assign, pop}

pub key_beq_iff : (a b : LimiterKey) → (key_beq a b ≡ true) ↔ (a ≡ b)
key_beq_iff a b =
    ground (arith, text_beq_iff a.client_id b.client_id, text_beq_iff a.digest b.digest)

pub lookup-assign :
    (k j : LimiterKey) (i : ℕ) (m : States)
    → lookup j (assign k i m) ≡ (if key_beq k j then some i else lookup j m)
unfolding lookup assign
lookup-assign k j i [] = refl
lookup-assign k j i ((h, x) ∷ m) =
    ground (arith, key_beq_iff k j, key_beq_iff h k, key_beq_iff h j, lookup-assign k j i m)

pub lookup-pop :
    (k j : LimiterKey) (m : States)
    → lookup j (pop k m) ≡ (if key_beq k j then none else lookup j m)
unfolding lookup pop
lookup-pop k j [] = ground arith
lookup-pop k j ((h, x) ∷ m) =
    ground (arith, key_beq_iff k j, key_beq_iff h k, key_beq_iff h j, lookup-pop k j m)

pub length-assign : (k : LimiterKey) (i : ℕ) (m : States) → length (assign k i m) ≤ suc (length m)
unfolding assign
length-assign k i [] = omega arith
length-assign k i ((h, x) ∷ m) = ground (arith, length-assign k i m)

pub length-pop : (k : LimiterKey) (m : States) → length (pop k m) ≤ length m
unfolding pop
length-pop k [] = omega arith
length-pop k ((h, x) ∷ m) = ground (arith, length-pop k m)

abbrev pub IdsBelow : ℕ → States → Type 0
IdsBelow n m = All (λ e. e.1 < n) m

pub assign-IdsBelow :
    (k : LimiterKey) (i n : ℕ) (m : States) → i < n → IdsBelow n m → IdsBelow n (assign k i m)
unfolding assign
assign-IdsBelow k i n [] h b = (h, tt)
assign-IdsBelow k i n ((j, x) ∷ m) h b = ground (arith, assign-IdsBelow k i n m h b.1)

pub pop-IdsBelow : (k : LimiterKey) (n : ℕ) (m : States) → IdsBelow n m → IdsBelow n (pop k m)
unfolding pop
pop-IdsBelow k n [] b = tt
pop-IdsBelow k n ((j, x) ∷ m) b = ground (arith, pop-IdsBelow k n m b.1)

pub IdsBelow-mono : (n : ℕ) (m : States) → IdsBelow n m → IdsBelow (suc n) m
IdsBelow-mono n [] b = tt
IdsBelow-mono n ((j, x) ∷ m) b = (omega (arith, b.0), IdsBelow-mono n m b.1)

pub lookup-IdsBelow :
    (k : LimiterKey) (n : ℕ) (m : States) {i : ℕ} → IdsBelow n m → lookup k m ≡ some i → i < n
unfolding lookup
lookup-IdsBelow k n [] b e = absurd (ground arith)
lookup-IdsBelow k n ((j, x) ∷ m) {i} b e = ground (arith, lookup-IdsBelow k n m {i = i} b.1)
