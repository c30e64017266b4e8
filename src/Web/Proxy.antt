-- ===== src/Web/Proxy.antt =====
-- proxy.ts of web/src: the tiers of the rate limit. The limiter of Upstash is an argument: by tier and
-- client, whether the request is let in and how many are left.
use avax_build_games.Prelude.{
  ℕ, Bool, true, false, not, ◌||◌, Option, none, some, [], ◌∷◌, ◌==◌, if◌then◌else◌,
}
use avax_build_games.Web.Text.{Text, codes, starts_with, includes, ends_with, trim}
use avax_build_games.Web.Http.{truthy_text}

pub data Tier : Type 0 where
  strict report default : Tier

-- UPSTASH_REDIS_REST_URL and UPSTASH_REDIS_REST_TOKEN
pub record UpstashEnv : Type 0 where
  pub url : Option Text
  pub token : Option Text

-- What `init` tests before it makes the limiters.
unfoldable pub limiters_made : UpstashEnv → Bool
limiters_made env = elim (truthy_text env.url) [
  | none ↦ false
  | some u ↦ elim (truthy_text env.token) [ none ↦ false | some t ↦ true ]
]

-- The requests that a tier lets in each minute.
abbrev pub limit_of : Tier → ℕ
limit_of strict = 5
limit_of report = 30
limit_of default = 60

-- s.split(",")[0]
before_comma : Text → Text
before_comma [] = []
before_comma (c ∷ s) = let rest = before_comma s in if c == b',' then [] else c ∷ rest

unfoldable pub client_ip : Option Text → Text
unfolding before_comma trim
client_ip none = codes "unknown"
client_ip (some forwarded) = trim (before_comma forwarded)

unfoldable pub tier_of : Text → Tier
tier_of path =
    if includes (codes "/paypal/") path
      || ends_with (codes "/finalize") path
      || ends_with (codes "/init") path
    then strict
    else if ends_with (codes "/report") path
    then report
    else default

-- `passed` has the header X-RateLimit-Remaining where the limiter was asked; `too_many` is status 429.
pub data ProxyReply : Type 0 where
  passed : Option ℕ → ProxyReply
  too_many : ProxyReply

pub record ProxyRequest : Type 0 where
  pub pathname : Text
  pub x_forwarded_for : Option Text

limited : Bool × ℕ → ProxyReply
limited answer = if not answer.0 then too_many else passed (some answer.1)

unfoldable pub proxy : UpstashEnv → (Tier → Text → Bool × ℕ) → ProxyRequest → ProxyReply
unfolding limiters_made client_ip tier_of limited
proxy env limit req =
    if not (starts_with (codes "/api/") req.pathname)
    then passed none
    else if not (limiters_made env)
    then passed none
    else limited (limit (tier_of req.pathname) (client_ip req.x_forwarded_for))
