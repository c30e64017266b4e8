-- ===== src/Web/Login.antt =====
-- POST of web/src/app/api/tournament/[id]/auth/route.ts: a manage token for the wallet of the
-- organizer. The time, ethers.verifyMessage and the random bytes are arguments.
pub mod Owner
use avax_build_games.Prelude.{
  ℕ, Bool, false, not, ◌||◌, Option, none, some, List, ◌++◌, if◌then◌else◌,
}
use avax_build_games.Web.Text.{Text, codes, ◌===◌, lower, show}
use avax_build_games.Web.Http.{
  Response, json_error, json, ◌>>=◌, truthy_text, truthy_number, expired,
}
use avax_build_games.Web.Store.{Db, TournamentRecord, get_tournament, save_tournament}
use avax_build_games.Web.Token.{generate_manage_token}

pub record LoginBody : Type 0 where
  pub wallet : Option Text
  pub sig : Option Text
  pub ts : Option ℕ

-- A body with all its fields.
pub record Login : Type 0 where
  pub wallet : Text
  pub sig : Text
  pub ts : ℕ

unfoldable pub read_login : LoginBody → Option Login
read_login body = do
  w ← truthy_text body.wallet
  s ← truthy_text body.sig
  t ← truthy_number body.ts
  some (record { wallet = w; sig = s; ts = t })

unfoldable pub login_message : ℕ → Login → Text
unfolding show
login_message tid r = codes "AMP-manage:" ++ show tid ++ codes ":" ++ show r.ts

is_wallet : Option Text → Text → Bool
unfolding lower
is_wallet none wallet = false
is_wallet (some w) wallet = lower w === lower wallet

unfoldable pub is_organizer : TournamentRecord → Text → Bool
unfolding is_wallet
is_organizer rec wallet =
    is_wallet rec.organizer_wallet wallet || is_wallet (some rec.sponsor) wallet

-- Issue (or reuse) a manage token.
unfoldable pub issue_token : List ℕ → TournamentRecord → Db → Response Text × Db
issue_token buf rec db = elim (truthy_text rec.manage_token) [
  | some token ↦ (json token, db)
  | none ↦
      let token = generate_manage_token buf in
      (json token, save_tournament (record rec { manage_token = some token }) db)
]

-- From the look-up of the tournament on.
unfoldable pub login_wallet : List ℕ → ℕ → Login → Db → Response Text × Db
unfolding issue_token
login_wallet buf tid r db = elim (get_tournament tid db) [
  | none ↦ (json_error 404 "tournament not found", db)
  | some rec ↦
      if not (is_organizer rec r.wallet)
      then (json_error 403 "not the organizer", db)
      else issue_token buf rec db
]

module _ (now : ℕ) (recover : Text → Text → Option Text) (buf : List ℕ) where
  unfoldable pub login_read : ℕ → Login → Db → Response Text × Db
  unfolding login_wallet
  login_read tid r db =
      if expired 300 now r.ts
      then (json_error 400 "timestamp expired (5 min window)", db)
      else elim (recover (login_message tid r) r.sig) [
        | none ↦ (json_error 401 "invalid signature", db)
        | some recovered ↦
            if not (lower recovered === lower r.wallet)
            then (json_error 401 "signature mismatch", db)
            else login_wallet buf tid r db
      ]

  unfoldable pub login : Option ℕ → LoginBody → Db → Response Text × Db
  unfolding read_login login_read
  login none body db = (json_error 400 "bad id", db)
  login (some tid) body db = elim (read_login body) [
    | none ↦ (json_error 400 "wallet, sig, ts required", db)
    | some r ↦ login_read tid r db
  ]
