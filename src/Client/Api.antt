-- ===== src/Client/Api.antt =====
-- The calls of amp.ts in web/src/lib to the matchmaker, but for the WebSocket. What `fetch` gives is an
-- argument: `unreachable` where it throws, `success` with the JSON of a status in the 200s, and
-- `failure` with the fields of the JSON that are read.
use avax_build_games.Prelude.{
  ℕ, ◌+◌, ◌/◌, ◌%◌, Bool, true, false, Option, none, some, List, [], ◌∷◌, ◌++◌, concat_map, ltb,
  if◌then◌else◌,
}
use mathlib.Core.Option.{get_or}
use avax_build_games.Web.Text.{Text, codes, lower, show}
use avax_build_games.Web.Http.{Attempt, returned, thrown, truthy_text}
use avax_build_games.Web.Token.{hex_bytes}
use avax_build_games.Client.Session.{LocalStorage, Session, stored_session}

-- The fields of a JSON object whose values are strings.
abbrev pub Fields : Type 0
Fields = List (Text × Text)

-- The arguments of `api`.
pub record ApiCall : Type 0 where
  pub path : Text
  pub method : Option Text
  pub body : Option Fields
  pub auth : Option Bool

pub record FetchRequest : Type 0 where
  pub url : Text
  pub method : Text
  pub authorization : Option Text
  pub body : Option Fields

pub data FetchReply {ℓ} (A : Type ℓ) : Type ℓ where
  unreachable : FetchReply A
  success : A → FetchReply A
  failure : ℕ → Text → Option Text → Option Text → FetchReply A

pub record ApiError : Type 0 where
  pub code : Text
  pub message : Text
  pub status : ℕ

-- A function that may throw an ApiError, or another Error with a message.
pub data Sdk {ℓ} (A : Type ℓ) : Type ℓ where
  done : A → Sdk A
  api_failed : ApiError → Sdk A
  failed : Text → Sdk A

infixl 5 ◌>>=◌
abbrev pub ◌>>=◌ {ℓ κ} : {A : Type ℓ} {B : Type κ} → Sdk A → (A → Sdk B) → Sdk B
done x >>= f = f x
api_failed e >>= f = api_failed e
failed m >>= f = failed m

-- The header of a session, unless `opts.auth` is false.
unfoldable pub authorization_of : Option Bool → Option Session → Option Text
authorization_of (some false) session = none
authorization_of (some true) none = none
authorization_of (some true) (some s) = some (codes "Bearer " ++ s.token)
authorization_of none none = none
authorization_of none (some s) = some (codes "Bearer " ++ s.token)

unfoldable pub fetch_request : Text → LocalStorage → ApiCall → FetchRequest
unfolding authorization_of stored_session
fetch_request server storage call = record {
  url = server ++ call.path;
  method = get_or (truthy_text call.method) (codes "GET");
  authorization = authorization_of call.auth (stored_session storage);
  body = call.body;
}

unfoldable pub read_reply {ℓ} : {A : Type ℓ} → FetchReply A → Sdk A
read_reply unreachable = api_failed (record {
  code = codes "network";
  message = codes "Matchmaking is temporarily unavailable. Please try again shortly.";
  status = 0;
})
read_reply (success json) = done json
read_reply (failure status status_text error message) = api_failed (record {
  code = get_or (truthy_text error) (codes "unknown");
  message = get_or (truthy_text message) status_text;
  status = status;
})

unfoldable pub api {ℓ} :
    {A : Type ℓ} → (FetchRequest → FetchReply A) → Text → LocalStorage → ApiCall → Sdk A
unfolding fetch_request read_reply
api fetch server storage call = read_reply (fetch (fetch_request server storage call))

abbrev get : Text → ApiCall
get path = record { path = path; method = none; body = none; auth = none }

abbrev post : Text → Option Fields → ApiCall
post path body = record { path = path; method = some (codes "POST"); body = body; auth = none }

unfoldable pub games_call : ApiCall
games_call = record (get (codes "/v1/games")) { auth = some false }

unfoldable pub me_call : ApiCall
me_call = get (codes "/v1/me")

unfoldable pub join_queue_call : Text → Text → ApiCall
join_queue_call game_id ruleset_id =
    post (codes "/v1/queue/join")
      (some ((codes "gameId", game_id) ∷ (codes "rulesetId", ruleset_id) ∷ []))

unfoldable pub leave_queue_call : ApiCall
leave_queue_call = post (codes "/v1/queue/leave") none

unfoldable pub match_call : Text → ApiCall
match_call match_id = get (codes "/v1/matches/" ++ match_id)

unfoldable pub history_call : Option ℕ → ApiCall
unfolding show
history_call limit = get (codes "/v1/matches/history?limit=" ++ show (get_or limit 20))

-- The bytes of a code point in UTF-8.
unfoldable pub utf8 : ℕ → List ℕ
utf8 c =
    if ltb c 128
    then c ∷ []
    else if ltb c 2048
    then (192 + c / 64) ∷ (128 + c % 64) ∷ []
    else if ltb c 65536
    then (224 + c / 4096) ∷ (128 + c / 64 % 64) ∷ (128 + c % 64) ∷ []
    else (240 + c / 262144) ∷ (128 + c / 4096 % 64) ∷ (128 + c / 64 % 64) ∷ (128 + c % 64) ∷ []

unfoldable pub to_utf8_hex : Text → Text
unfolding utf8 hex_bytes
to_utf8_hex s = codes "0x" ++ hex_bytes (concat_map utf8 s)

-- The wallet in the browser: the first of the accounts that eth_requestAccounts gives, of which there
-- is one, and personal_sign.
pub record Ethereum : Type 0 where
  pub request_accounts : Attempt Text
  pub personal_sign : Text → Text → Attempt Text

abbrev attempt {ℓ} : {A : Type ℓ} → Attempt A → Sdk A
attempt (returned x) = done x
attempt (thrown m) = failed m

pub record Verified : Type 0 where
  pub token : Text
  pub expires_at : Text

unfoldable pub challenge_call : Text → ApiCall
challenge_call wallet =
    record (post (codes "/v1/auth/challenge") (some ((codes "wallet", wallet) ∷ []))) {
      auth = some false;
    }

unfoldable pub verify_call : Text → Text → Text → ApiCall
verify_call wallet signature challenge =
    record (post (codes "/v1/auth/verify") (
      some (
        (codes "wallet", wallet)
        ∷ (codes "signature", signature)
        ∷ (codes "challenge", challenge)
        ∷ []))) { auth = some false }

module _ (server : Text) (fetch_challenge : FetchRequest → FetchReply Text)
    (fetch_verify : FetchRequest → FetchReply Verified) where
  -- The session, with what localStorage then holds.
  unfoldable pub login_ethereum : Ethereum → LocalStorage → Sdk (Session × LocalStorage)
  unfolding api challenge_call verify_call to_utf8_hex lower
  login_ethereum eth storage = do
    wallet ← attempt eth.request_accounts
    challenge ← api fetch_challenge server storage (challenge_call wallet)
    signature ← attempt (eth.personal_sign (to_utf8_hex challenge) wallet)
    verified ← api fetch_verify server storage (verify_call wallet signature challenge)
    done (
      record { token = verified.token; wallet = wallet; expires_at = verified.expires_at },
      record { session_token = some verified.token; session_wallet = some (lower wallet) },
    )

  unfoldable pub login_with_wallet : Option Ethereum → LocalStorage → Sdk (Session × LocalStorage)
  unfolding login_ethereum
  login_with_wallet none storage =
      failed (codes "No wallet found — install MetaMask or use a wallet browser")
  login_with_wallet (some eth) storage = login_ethereum eth storage
