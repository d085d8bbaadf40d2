-- ===== src/Auth.antt =====
-- src/auth/guards.rs, src/auth/principal.rs and Role of src/domain/user.rs: who may do what.
pub mod Guards
use Prim.Native.String.{String}
use denia.Prelude.{ℕ, Bool, true, false, Option, none, some, leb, if◌then◌else◌, Outcome, ok, err}

pub data Role : Type 0 where
  viewer operator admin : Role

-- The discriminants, by which the derived order compares.
abbrev pub rank : Role → ℕ
rank viewer = 0
rank operator = 1
rank admin = 2

pub record Principal : Type 0 where
  pub user_id : Option ℕ
  pub is_super_admin : Bool

unfoldable pub super_admin : Principal
super_admin = record { user_id = none; is_super_admin = true }

unfoldable pub user : ℕ → Bool → Principal
user user_id is_super_admin = record { user_id = some user_id; is_super_admin = is_super_admin }

pub data AuthError : Type 0 where
  invalid_credentials invalid_token auth_forbidden : AuthError
  auth_state : String → AuthError

-- The errors of the API that the guards give.
pub data ApiError : Type 0 where
  state unauthorized forbidden not_found : String → ApiError

-- `ApiError::from`.
unfoldable pub from_auth : AuthError → ApiError
from_auth invalid_credentials = unauthorized "invalid credentials"
from_auth auth_forbidden = forbidden "forbidden"
from_auth invalid_token = unauthorized "invalid token"
from_auth (auth_state e) = state e

abbrev pub judge_role : Option Role → Role → Outcome (Unit {0}) AuthError
judge_role none required_min = err auth_forbidden
judge_role (some role) required_min =
    if leb (rank required_min) (rank role) then ok tt else err auth_forbidden

unfoldable pub require_project_role : Principal → Option Role → Role → Outcome (Unit {0}) AuthError
require_project_role principal project_role required_min =
    if principal.is_super_admin then ok tt else judge_role project_role required_min

abbrev pub map_auth : Outcome (Unit {0}) AuthError → Outcome (Unit {0}) ApiError
map_auth (ok u) = ok u
map_auth (err e) = err (from_auth e)

-- `role_for` of the user repository: the role of a user in a project, or an error.
module _ (role_for : ℕ → ℕ → Outcome (Option Role) String) where
  abbrev pub checked : Principal → Role → Outcome (Option Role) String → Outcome (Unit {0}) ApiError
  checked principal min (err e) = err (state e)
  checked principal min (ok role) = map_auth (require_project_role principal role min)

  abbrev pub as_user : Principal → ℕ → Role → Option ℕ → Outcome (Unit {0}) ApiError
  as_user principal project_id min none = err (forbidden "authenticated user required")
  as_user principal project_id min (some user_id) =
      checked principal min (role_for user_id project_id)

  unfoldable pub ensure_role : Principal → ℕ → Role → Outcome (Unit {0}) ApiError
  unfolding require_project_role from_auth
  ensure_role principal project_id min =
      if principal.is_super_admin then ok tt else as_user principal project_id min principal.user_id

  abbrev pub mask : String → Outcome (Unit {0}) ApiError → Outcome (Unit {0}) ApiError
  mask msg (err (forbidden _)) = err (not_found msg)
  mask msg o = o

  unfoldable pub ensure_role_or_not_found :
      Principal → ℕ → Role → String → Outcome (Unit {0}) ApiError
  unfolding ensure_role
  ensure_role_or_not_found principal project_id min msg =
      mask msg (ensure_role principal project_id min)

unfoldable pub ensure_super_admin : Principal → Outcome (Unit {0}) ApiError
ensure_super_admin principal =
    if principal.is_super_admin then ok tt else err (forbidden "super admin required")
