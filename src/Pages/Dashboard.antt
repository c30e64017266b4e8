-- ===== src/Pages/Dashboard.antt =====
-- web/src/app/dashboard/page.tsx: the login of an organizer. The wallet of the browser and the answer
-- of the auth route are arguments.
pub mod Access
use avax_build_games.Prelude.{ℕ, Option, none, some, ◌++◌}
use mathlib.Core.Option.{get_or}
use avax_build_games.Web.Text.{Text, codes, show}
use avax_build_games.Web.Http.{Attempt, returned, thrown, truthy_text}
use avax_build_games.Web.Login.{LoginBody}

unfoldable pub manage_message : ℕ → ℕ → Text
unfolding show
manage_message tid ts = codes "AMP-manage:" ++ show tid ++ codes ":" ++ show ts

unfoldable pub signed_login : Text → ℕ → Attempt Text → Attempt LoginBody
signed_login wallet ts (thrown e) = thrown e
signed_login wallet ts (returned sig) =
    returned (record { wallet = some wallet; sig = some sig; ts = some ts })

-- The body that the page sends, by signMessage and the time.
unfoldable pub manage_login : (Text → Attempt Text) → Text → ℕ → ℕ → Attempt LoginBody
unfolding manage_message signed_login
manage_login sign_message wallet tid ts =
    signed_login wallet ts (sign_message (manage_message tid ts))

-- The fields of the answer that the page reads.
pub record LoginReply : Type 0 where
  pub manage_token : Option Text
  pub error : Option Text

-- The token that is kept in sessionStorage.
unfoldable pub kept_token : LoginReply → Attempt Text
kept_token reply = elim (truthy_text reply.manage_token) [
  | none ↦ thrown (get_or (truthy_text reply.error) (codes "auth failed"))
  | some token ↦ returned token
]
