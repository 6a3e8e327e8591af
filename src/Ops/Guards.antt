-- ===== src/Ops/Guards.antt =====
-- main.py: `_require_admin_token`.
use loboguara.Common.{
  String, Bool, true, not, Option, none, some, ◌||◌, str_eq, http_exception, if◌then◌else◌,
}
use loboguara.World.{Env}
use loboguara.Action.{Action, pure, raise, on_option}

-- the test of the header against a token that is set
abbrev pub is_refused : String → Option String → Bool
is_refused token none = true
is_refused token (some header) = str_eq header "" || not (str_eq header token)

-- `_require_admin_token`; `hmac.compare_digest` is equality
unfoldable pub require_admin_token : Env → Option String → Action (Unit {0})
require_admin_token env header = on_option env.config.admin_token (pure tt) λ token.
    if str_eq token ""
    then pure tt
    else if is_refused token header
    then raise (http_exception 401 "Invalid admin token")
    else pure tt
