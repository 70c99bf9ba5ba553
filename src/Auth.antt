-- ===== src/Auth.antt =====
-- internal/auth/service.go: the state that the service works on, its errors, and the libraries that
-- it calls, which are parameters (the tables of Db, bcrypt, jwt, uuid, crypto/rand and the clock).
-- The methods of the service are in the child modules Tokens, Accounts and Admin.
pub mod AdminRows
pub mod AdminSafety
pub mod AdminUpdates
pub mod Frames
pub mod Laws
pub mod Registration
pub mod Roles
pub mod Rotation
pub mod Sessions
pub mod Tokens
pub mod Accounts
pub mod Admin
use anti_river_ten_demo.Prelude.{ℕ, Bool, Option, List, [], ◌∷◌, ◌++◌, none, some}
use anti_river_ten_demo.Strings.{Bytes, text}
use anti_river_ten_demo.Exec.{Exec, catch, Result}
use anti_river_ten_demo.Db.{User, Role, RefreshToken, DbError, record_not_found, failed, Table}

-- The errors of the service: two sentinels, texts, and texts that wrap a cause (%w).
pub data Error : Type 0 where
  invalid_credentials : Error
  user_exists : Error
  message : Bytes → Error
  wrapped : Bytes → DbError → Error

abbrev pub db_error_text : DbError → Bytes
db_error_text record_not_found = text "record not found"
db_error_text (failed e) = e

-- err.Error()
unfoldable pub error_text : Error → Bytes
error_text invalid_credentials = text "invalid credentials"
error_text user_exists = text "user already exists"
error_text (message m) = m
error_text (wrapped m e) = m ++ text ": " ++ db_error_text e

pub record Claims : Type 0 where
  pub subject : Bytes
  pub expires_at : ℕ
  pub issued_at : ℕ
  pub role : Bytes

pub data SigningMethod : Type 0 where
  hmac : SigningMethod
  other_method : SigningMethod

-- `parse_with_claims` gets the key function of the caller; it returns the claims and `t.Valid`, or
-- none for an error. `sha256` is the digest as bytes.
pub record Backend : Type 1 where
  pub World : Type 0
  pub users : Table World User
  pub roles : Table World Role
  pub tokens : Table World RefreshToken
  pub now : World → ℕ × World
  pub new_uuid : World → Bytes × World
  pub rand_read : Exec World DbError Bytes
  pub generate_from_password : Bytes → Exec World DbError Bytes
  pub compare_hash_and_password : Bytes → Bytes → Bool
  pub sha256 : Bytes → Bytes
  pub sign_hs256 : Claims → Bytes → Result DbError Bytes
  pub parse_with_claims : (SigningMethod → Option Bytes) → Bytes → World → Option (Claims × Bool)

-- What a successful login or refresh returns.
pub record Session : Type 0 where
  pub user : User
  pub access : Bytes
  pub access_exp : ℕ
  pub refresh : Bytes
  pub refresh_exp : ℕ

abbrev pub not_found_as : Error → Bytes → DbError → Error
not_found_as e m record_not_found = e
not_found_as e m (failed t) = wrapped m (failed t)

module _ {W A : Type 0} where
  -- fmt.Errorf("...: %w", err)
  unfoldable pub wrap : Bytes → Exec W DbError A → Exec W Error A
  unfolding catch
  wrap m = catch (wrapped m)

  -- The same where gorm.ErrRecordNotFound has an error of its own.
  unfoldable pub wrap_first : Error → Bytes → Exec W DbError A → Exec W Error A
  unfolding catch
  wrap_first e m = catch (not_found_as e m)
