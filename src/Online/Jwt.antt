-- ===== src/Online/Jwt.antt =====
-- The tokens of common/include/swift/jwt_helper.h as an interface. The clock readings of the two
-- functions, in milliseconds, are arguments.
use swift_chat_system.Common.{Bool}
use swift_chat_system.Common.Int.{ℤ}
use swift_chat_system.Common.Text.{Text}

pub record JwtPayload : Type 0 where
  pub user_id : Text
  pub issuer : Text
  pub iat : ℤ
  pub exp : ℤ
  pub valid : Bool

pub record Jwt : Type 0 where
  -- user_id, secret, expire_hours, and the time of creation
  pub create : Text → Text → ℤ → ℤ → Text
  -- token, secret, and the time of verification
  pub verify : Text → Text → ℤ → JwtPayload
