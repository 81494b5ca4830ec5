-- ===== src/Settings/Sources/Names.antt =====
-- The names and the keys of the data sources, in lists that change.
use early_warning_system.Prelude.{
  ℕ, suc, ◌+◌, ◌≡◌, ◌≤◌, refl, Bool, false, not, Option, none, some, List, [], ◌∷◌, ◌++◌, Text, map,
  filter, count, count-append_cons, max, ◌&&◌, update_where, arith, ◌==◌, nat_eq, text_eq,
  text_beq_iff, option_eq, option_beq_iff, Bool-cases, Option-cases, inl, inr, if◌then◌else◌,
}
use early_warning_system.Models.{DateTime, SqlDataSource}
use early_warning_system.Database.{Db, above}
use early_warning_system.Outside.{Outside}
use early_warning_system.Settings.{Integer}
use early_warning_system.Settings.Sources.{SourceForm, source_named, updated_source, save, is_taken}

abbrev pub has_name : Text → SqlDataSource → Bool
has_name name s = s.name == name

abbrev pub has_key : ℕ → SqlDataSource → Bool
has_key id s = s.id == some id

-- Names and keys stand at most once.
pub record IsDistinct (sources : List SqlDataSource) : Type 0 where
  pub names : (name : Text) → count (has_name name) sources ≤ 1
  pub keys : (id : ℕ) → count (has_key id) sources ≤ 1

pub count_filtered :
    (p q : SqlDataSource → Bool) (sources : List SqlDataSource)
    → count p (filter q sources) ≤ count p sources
count_filtered p q [] = omega arith
count_filtered p q (s ∷ sources) = ground (arith, count_filtered p q sources)

none_named :
    (name : Text) (sources : List SqlDataSource)
    → source_named sources name ≡ none
    → count (has_name name) sources ≡ 0
unfolding source_named
none_named name [] h = refl
none_named name (s ∷ sources) h = ground (arith, none_named name sources)

-- a new key is above all
count-above :
    (id : ℕ) (sources : List SqlDataSource)
    → above (map (λ s. s.id) sources) ≤ id
    → count (has_key id) sources ≡ 0
unfolding above
count-above id [] h = refl
count-above id (s ∷ sources) h = elim (Option-cases s.id) [
  | inl unstored ↦ let k = rw unstored at h in rw unstored (count-above id sources k)
  | inr (n, stored) ↦
      let k : max (suc n) (above (map (λ s. s.id) sources)) ≤ id = rw stored at h in
      let rest = count-above id sources (omega arith) in rw stored (ground (arith, k, rest))
]

-- the rows of a name that have another key
abbrev elsewhere : ℕ → Text → SqlDataSource → Bool
elsewhere id name s = has_name name s && not (has_key id s)

count-elsewhere :
    (id : ℕ) (name : Text) (sources : List SqlDataSource)
    → count (elsewhere id name) sources ≤ count (has_name name) sources
count-elsewhere id name [] = omega arith
count-elsewhere id name (s ∷ sources) = ground (arith, count-elsewhere id name sources)

-- if the first row of a name is that of a key, and there is one at most, none is elsewhere
none_elsewhere :
    (id : ℕ) (name : Text) (sources : List SqlDataSource) (existing : SqlDataSource)
    → source_named sources name ≡ some existing
    → existing.id ≡ some id
    → count (has_name name) sources ≤ 1
    → count (elsewhere id name) sources ≡ 0
unfolding source_named
none_elsewhere id name [] existing found own once = cc
none_elsewhere id name (s ∷ sources) existing found own once = elim (Bool-cases (s.name == name)) [
  | inl here ↦
      let e : some s ≡ some existing = rw here at found in
      let k : suc (count (has_name name) sources) ≤ 1 = rw here at once in
      ground (arith, k, e, own, count-elsewhere id name sources, option_beq_iff s.id (some id))
  | inr other ↦
      let e = rw other at found in
      let k = rw other at once in rw other (none_elsewhere id name sources existing e own k)
]

module _ {W : Type 0} (out : Outside W) (parse_int : Text → Option Integer) (encrypt : Text → Text)
    (form : SourceForm) (port timeout : ℕ) (now : DateTime) (id : ℕ) where
  abbrev pub changed : List SqlDataSource → List SqlDataSource
  changed = update_where (has_key id) (updated_source out parse_int encrypt form port timeout now)

  count-changed :
      (name : Text) (sources : List SqlDataSource)
      → count (has_name name) (changed sources)
        ≡ count (elsewhere id name) sources
          + (if form.name == name then count (has_key id) sources else 0)
  unfolding updated_source
  count-changed name [] = ground arith
  count-changed name (s ∷ sources) = ground (arith, count-changed name sources)

  keys-changed :
      (k : ℕ) (sources : List SqlDataSource)
      → count (has_key k) (changed sources) ≡ count (has_key k) sources
  unfolding updated_source
  keys-changed k [] = refl
  keys-changed k (s ∷ sources) = ground (arith, keys-changed k sources)

  pub changed-IsDistinct :
      (sources : List SqlDataSource)
      → is_taken out parse_int encrypt (source_named sources form.name) (some id) ≡ false
      → IsDistinct sources
      → IsDistinct (changed sources)
  unfolding is_taken
  changed-IsDistinct sources free d = record {
    names = λ name. elim (Bool-cases (form.name == name)) [
      | inr other ↦
          rw (count-changed name sources, other)
            (omega (arith, d.names name, count-elsewhere id name sources))
      | inl same ↦
          let e = (text_beq_iff form.name name).0 same in
          let none_left : count (elsewhere id form.name) sources ≡ 0 =
            elim (Option-cases (source_named sources form.name)) [
              | inl nobody ↦
                  omega (
                    arith,
                    count-elsewhere id form.name sources,
                    none_named form.name sources nobody,
                  )
              | inr (existing, found) ↦
                  none_elsewhere id form.name sources existing found
                    ((option_beq_iff existing.id (some id)).0 (ground (arith, rw found at free)))
                    (d.names form.name)
            ] in
          rw (count-changed name sources, same) (omega (arith, rw e at none_left, d.keys id))
    ];
    keys = λ k. rw (keys-changed k sources) (d.keys k);
  }

module _ {W : Type 0} (out : Outside W) (parse_int : Text → Option Integer) (encrypt : Text → Text)
    (db : Db) where
  pub save-IsDistinct :
      (sources : List SqlDataSource) (w : W)
      → IsDistinct sources
      → IsDistinct db.data_sources
      → IsDistinct (save out parse_int encrypt sources db w).1.data_sources
  unfolding save
  save-IsDistinct sources w new old = elim (Bool-cases (out.commit w).0) [
    | inl committed ↦ rw (committed, save) new
    | inr failed ↦ rw (failed, save) old
  ]

  pub append-IsDistinct :
      (s : SqlDataSource)
      → s.id ≡ some (above (map (λ s. s.id) db.data_sources))
      → source_named db.data_sources s.name ≡ none
      → IsDistinct db.data_sources
      → IsDistinct (db.data_sources ++ s ∷ [])
  append-IsDistinct s key free d = record {
    names = λ name. ground (
      arith,
      d.names name,
      count-append_cons (has_name name) db.data_sources s [],
      none_named s.name db.data_sources free,
      text_beq_iff s.name name,
    );
    keys = λ k. ground (
      arith,
      d.keys k,
      key,
      count-append_cons (has_key k) db.data_sources s [],
      count-above k db.data_sources,
    );
  }
