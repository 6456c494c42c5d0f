-- ===== src/Auth.antt =====
-- Authenticator of internal/auth/auth.go. `parse` stands for jwt.Parse, which asks its key
-- function for the key of the token's signing method, `to_int32` for Go's conversion of a float64,
-- `format_int` for fmt's `%d`, and `get` for a GET at Redis, `none` where it fails.
pub mod Sessions
use microservice_game_servic.Base.{
  ℕ, Bool, not, ◌≡◌, List, [], ◌∷◌, ◌++◌, Bytes, Option, none, some, ascii, ◌==◌, bytes_comparable,
  if◌then◌else◌, Result, ok, err,
}
use microservice_game_servic.Base.Int.{ℤ, int_comparable}

pub record AuthResult : Type 0 where
  pub user_id : ℤ
  pub role : Bytes

pub data AuthError : Type 0 where
  invalid_token invalid_session user_id_mismatch : AuthError

pub data SigningMethod : Type 0 where
  hmac other_method : SigningMethod

-- The claims that the code reads, each `none` where its type assertion fails. A float64 is its
-- bit pattern.
pub record MapClaims : Type 0 where
  pub user_id : Option ℕ
  pub role : Option Bytes

-- `claims` is `none` where they are no MapClaims.
pub record Token : Type 0 where
  pub valid : Bool
  pub claims : Option MapClaims

unfoldable pub key_func : Bytes → SigningMethod → Option Bytes
key_func jwt_secret hmac = some jwt_secret
key_func jwt_secret other_method = none

abbrev pub or_blank : Option Bytes → Bytes
or_blank none = []
or_blank (some s) = s

module _ (format_int : ℤ → Bytes) where
  unfoldable pub session_key : ℤ → Bytes
  session_key user_id = ascii "user:" ++ format_int user_id ++ ascii ":gameSession"

module _ (format_int : ℤ → Bytes) (get : Bytes → Option Bytes) where
  -- Verify from the check of the user id on.
  unfoldable pub verify_session : Bytes → ℤ → ℤ → Option Bytes → Result AuthError AuthResult
  verify_session game_session_id claimed_user_id user_id role =
      if not (user_id == claimed_user_id)
      then err user_id_mismatch
      else (elim (get (session_key format_int user_id)) [
        | none ↦ err invalid_session
        | some current_session ↦
            if not (current_session == game_session_id)
            then err invalid_session
            else ok (record { user_id = user_id; role = or_blank role })
      ])

module _ (parse : (SigningMethod → Option Bytes) → Bytes → Option Token) (to_int32 : ℕ → ℤ)
    (format_int : ℤ → Bytes) (get : Bytes → Option Bytes) where
  unfoldable pub verify : Bytes → Bytes → Bytes → ℤ → Result AuthError AuthResult
  verify jwt_secret token game_session_id claimed_user_id =
      elim (parse (key_func jwt_secret) token) [
        | none ↦ err invalid_token
        | some parsed ↦ if not parsed.valid then err invalid_token else (elim parsed.claims [
          | none ↦ err invalid_token
          | some claims ↦ elim claims.user_id [
            | none ↦ err invalid_token
            | some user_id_float ↦
                verify_session format_int get game_session_id claimed_user_id
                  (to_int32 user_id_float) claims.role
          ]
        ])
      ]
