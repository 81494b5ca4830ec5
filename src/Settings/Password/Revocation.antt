-- ===== src/Settings/Password/Revocation.antt =====
-- What a change of the password does to sessions.
use early_warning_system.Prelude.{
  ℕ, suc, ◌≡◌, ◌≢◌, refl, Bool, false, some, List, [], ◌∷◌, Text, is_empty, arith, ◌==◌, option_eq,
  option_beq_iff, ok, Bool-cases, Option-cases, inl, inr,
}
use early_warning_system.Models.{AdminUser}
use early_warning_system.Database.{Db}
use early_warning_system.Outside.{Outside}
use early_warning_system.WebSecurity.Session.{WebSession, int, cleared}
use early_warning_system.Auth.{get_user, validate_admin_session}
use early_warning_system.Auth.Sessions.{IsLive, validate-old_version}
use early_warning_system.Settings.Password.{
  PasswordForm, password_error, changed, with_password, store_user, set_password,
  change_admin_password,
}

-- What a change leaves: the admin's row has the new hash, the session of the request is live for it,
-- and another session of the old version is refused.
pub record IsRevoked (before : AdminUser) (id : ℕ) (password_hash : Text) (max_age idle now : ℕ)
    (other mine : WebSession) (users : List AdminUser) : Type 0 where
  pub user : AdminUser
  pub stored : get_user users id ≡ some user
  pub hashed : user.password_hash ≡ password_hash
  pub newer : user.session_version ≡ suc before.session_version
  pub mine_lives : IsLive user max_age idle now mine
  pub other_refused : validate_admin_session other user max_age idle now ≡ (false, cleared)

get_user-id :
    (users : List AdminUser) (id : ℕ) (user : AdminUser)
    → get_user users id ≡ some user
    → user.id ≡ some id
get_user-id [] id user h = cc
get_user-id (u ∷ users) id user h = elim (Bool-cases (u.id == some id)) [
  | inl own ↦ ground (arith, own, rw own at h, option_beq_iff u.id (some id))
  | inr other ↦ get_user-id users id user (rw other at h)
]

get_user-store_user :
    (users : List AdminUser) (id : ℕ) (user new : AdminUser)
    → get_user users id ≡ some user
    → new.id ≡ some id
    → get_user (store_user new users) id ≡ some new
unfolding store_user
get_user-store_user [] id user new h e = cc
get_user-store_user (u ∷ users) id user new h e = ground (
  arith,
  h,
  e,
  get_user-store_user users id user new,
  option_beq_iff u.id (some id),
  option_beq_iff u.id new.id,
  option_beq_iff new.id (some id),
)

module _ {W : Type 0} (out : Outside W) (verify : Text → Text → Bool) (hash : Text → Text) (id : ℕ)
    (form : PasswordForm) (db : Db) (mine : WebSession) (w : W) where
  -- If the change of a password is committed, and the session of the request was live for the admin's
  -- account, then that session is live for the changed account, which has the hash of the new password
  -- and the next session version, and another session of the version before is refused and cleared.
  pub change_admin_password-IsRevoked :
      (user : AdminUser) (other : WebSession) (max_age idle now : ℕ)
      → get_user db.admin_users id ≡ some user
      → IsLive user max_age idle now mine
      → other.admin_session_version ≡ some (int user.session_version)
      → (change_admin_password out verify hash id form db mine w).0 ≡ ok changed
      → IsRevoked user id
          (hash form.new_password)
          max_age
          idle
          now
          other
          (change_admin_password out verify hash id form db mine w).2
          (change_admin_password out verify hash id form db mine w).1.admin_users
  unfolding change_admin_password set_password with_password
  change_admin_password-IsRevoked user other max_age idle now found live old done =
      let new = with_password (hash form.new_password) user in
      elim (Bool-cases (is_empty (password_error verify user form))) [
        | inr wrong ↦ cc (rw (found, wrong, change_admin_password) at done)
        | inl right ↦ elim (Bool-cases (out.commit w).0) [
          | inr failed ↦ cc (rw (found, right, change_admin_password, failed) at done)
          | inl committed ↦
              rw (found, right, change_admin_password, committed)
                (record {
                  user = new;
                  stored =
                      get_user-store_user db.admin_users id user new found
                        (get_user-id db.admin_users id user found);
                  hashed = refl;
                  newer = refl;
                  mine_lives = record {
                    user_id = live.user_id;
                    since = live.since;
                    active = live.active;
                    is_user = live.is_user;
                    has_user = live.has_user;
                    has_since = live.has_since;
                    has_active = live.has_active;
                    has_version = refl;
                    ordered = live.ordered;
                    past = live.past;
                    young = live.young;
                    busy = live.busy;
                  };
                  other_refused =
                      validate-old_version other new max_age idle now user.session_version old
                        (λ e. omega (arith, e));
                })
        ]
      ]

  -- A change of a password that does not go through, by the form, a missing account or the commit,
  -- changes neither the database nor the session of the request.
  pub change_admin_password-unchanged :
      (change_admin_password out verify hash id form db mine w).0 ≢ ok changed
      → ((change_admin_password out verify hash id form db mine w).1 ≡ db)
        × ((change_admin_password out verify hash id form db mine w).2 ≡ mine)
  unfolding change_admin_password set_password
  change_admin_password-unchanged h = elim (Option-cases (get_user db.admin_users id)) [
    | inl absent ↦
        (rw (absent, change_admin_password) refl, rw (absent, change_admin_password) refl)
    | inr (user, found) ↦ elim (Bool-cases (is_empty (password_error verify user form))) [
      | inr wrong ↦ (
        rw (found, wrong, change_admin_password) refl,
        rw (found, wrong, change_admin_password) refl,
      )
      | inl right ↦ elim (Bool-cases (out.commit w).0) [
        | inr failed ↦ (
          rw (found, right, change_admin_password, failed) refl,
          rw (found, right, change_admin_password, failed) refl,
        )
        | inl committed ↦ absurd (h (rw (found, right, change_admin_password, committed) refl))
      ]
    ]
  ]
