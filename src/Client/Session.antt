-- ===== src/Client/Session.antt =====
-- The session that amp.ts of web/src/lib keeps in the browser, and its test of the build.
use avax_build_games.Prelude.{Bool, false, not, ◌&&◌, ◌||◌, Option, none, some, []}
use mathlib.Core.Option.{get_or}
use avax_build_games.Web.Text.{Text, codes, ◌===◌, includes, ends_with}
use avax_build_games.Web.Http.{truthy_text, ◌>>=◌}

-- The keys amp_session_token and amp_session_wallet of localStorage.
pub record LocalStorage : Type 0 where
  pub session_token : Option Text
  pub session_wallet : Option Text

pub record Session : Type 0 where
  pub token : Text
  pub wallet : Text
  pub expires_at : Text

-- process.env.NEXT_PUBLIC_AMP_SERVER_URL || ...
unfoldable pub server_url : Option Text → Text
server_url env = get_or (truthy_text env) (codes "http://localhost:8080")

-- By window.location.hostname, `none` where there is no window.
unfoldable pub matchmaker_misconfigured : Option Text → Text → Bool
matchmaker_misconfigured none server = false
matchmaker_misconfigured (some site) server =
    not
      (site === codes "localhost" || site === codes "127.0.0.1" || ends_with (codes ".local") site)
    && (includes (codes "://localhost") server || includes (codes "://127.0.0.1") server)

unfoldable pub stored_session : LocalStorage → Option Session
stored_session storage = do
  t ← truthy_text storage.session_token
  w ← truthy_text storage.session_wallet
  some (record { token = t; wallet = w; expires_at = [] })

unfoldable pub clear_session : LocalStorage → LocalStorage
clear_session storage = record { session_token = none; session_wallet = none }
