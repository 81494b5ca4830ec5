-- ===== src/Settings/Password.antt =====
-- app/routes.py: `change_admin_password`, and app/admin_cli.py: `upsert_admin_user`. The password
-- check and the hash are parameters; `hash_password` is taken to return, so the errors that the
-- library of the hash may raise are left out.
pub mod Revocation
use early_warning_system.Prelude.{
  ℕ, suc, ◌+◌, Bool, true, false, not, ◌&&◌, ◌||◌, Option, none, some, List, [], ◌∷◌, ◌++◌, Text,
  codes, find, update_where, length, map, is_empty, ◌==◌, option_eq, text_eq, ltb, if◌then◌else◌,
  Result, ok, raise,
}
use early_warning_system.Models.{DateTime, AdminUser}
use early_warning_system.Errors.{Error}
use early_warning_system.Database.{Db, above}
use early_warning_system.Outside.{Outside}
use early_warning_system.ExecutionLock.{database_error}
use early_warning_system.WebSecurity.Session.{WebSession, int}
use early_warning_system.Auth.{get_user, find_user}

abbrev pub password_min_length : ℕ
password_min_length = 12

pub record PasswordForm : Type 0 where
  pub current_password : Text
  pub new_password : Text
  pub confirm_password : Text

-- the chain of checks; an empty text is no error
unfoldable pub password_error : (Text → Text → Bool) → AdminUser → PasswordForm → Text
password_error verify user form =
    if is_empty form.current_password
      || is_empty form.new_password
      || is_empty form.confirm_password
    then codes "请填写完整的密码信息"
    else if not (verify form.current_password user.password_hash)
    then codes "当前密码不正确"
    else if ltb (length form.new_password) password_min_length
    then codes "新密码长度至少 12 位"
    else if form.new_password == form.current_password
    then codes "新密码不能与当前密码相同"
    else if not (form.new_password == form.confirm_password)
    then codes "两次输入的新密码不一致"
    else []

-- the answers of the page
pub data PasswordReply : Type 0 where
  not_found : PasswordReply
  refused : Text → PasswordReply
  changed : PasswordReply

-- a user with another hash and the next session version
unfoldable pub with_password : Text → AdminUser → AdminUser
with_password password_hash user = record user {
  password_hash = password_hash;
  session_version = suc user.session_version;
}

-- storing a row of the table again, by its key
unfoldable pub store_user : AdminUser → List AdminUser → List AdminUser
store_user user = update_where (λ u. u.id == user.id) (λ u. user)

module _ {W : Type 0} (out : Outside W) (verify : Text → Text → Bool) (hash : Text → Text) where
  -- the end of `change_admin_password`, for a form without an error
  unfoldable pub set_password :
      AdminUser → Text → Db → WebSession → W → Result Error PasswordReply × Db × WebSession × W
  set_password user new_password db s w =
      let user' = with_password (hash new_password) user in
      let (committed, w') = out.commit w in
      if committed
      then (
        ok changed,
        record db { admin_users = store_user user' db.admin_users },
        record s { admin_session_version = some (int user'.session_version) },
        w',
      )
      else (raise database_error, db, s, w')

  -- `change_admin_password`, for the id of the admin of the request
  unfoldable pub change_admin_password :
      ℕ → PasswordForm → Db → WebSession → W → Result Error PasswordReply × Db × WebSession × W
  change_admin_password admin_id form db s w = elim (get_user db.admin_users admin_id) [
    | none ↦ (ok not_found, db, s, w)
    | some user ↦
        if not (is_empty (password_error verify user form))
        then (ok (refused (password_error verify user form)), db, s, w)
        else set_password user form.new_password db s w
  ]

  -- `upsert_admin_user`, with the time of a new row; it returns the stored user
  unfoldable pub upsert_admin_user :
      Text → Text → DateTime → Db → W → Result Error AdminUser × Db × W
  upsert_admin_user username password now db w =
      let (committed, w') = out.commit w in
      elim (find_user db.admin_users username) [
        | none ↦
            let user : AdminUser = record {
              id = some (above (map (λ u. u.id) db.admin_users));
              username = username;
              password_hash = hash password;
              session_version = 1;
              created_at = now;
            } in
            if committed
            then (ok user, record db { admin_users = db.admin_users ++ user ∷ [] }, w')
            else (raise database_error, db, w')
        | some user ↦
            let user' = with_password (hash password) user in
            if committed
            then (ok user', record db { admin_users = store_user user' db.admin_users }, w')
            else (raise database_error, db, w')
      ]
