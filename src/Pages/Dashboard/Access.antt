-- ===== src/Pages/Dashboard/Access.antt =====
-- The login of the dashboard and the route that takes it.
use avax_build_games.Prelude.{
  ℕ, ◌+◌, ◌≤◌, ◌<◌, ◌≡◌, refl, ◌∙◌, sym, ap, subst, true, false, Option, some, List, ◌==◌,
  Option-cases, inl, inr,
}
use avax_build_games.Web.Text.{Text, ===_refl, is_empty_text, lower}
use avax_build_games.Web.Http.{Attempt, returned, returned-injective, expired, json, truthy_text}
use avax_build_games.Web.Token.{generate_manage_token}
use avax_build_games.Web.Store.{Db, TournamentRecord, get_tournament}
use avax_build_games.Web.Login.{
  LoginBody, Login, read_login, login_message, is_organizer, issue_token, login_wallet, login_read,
  login,
}
use avax_build_games.Pages.Play.Signed.{expired-within, zero_test}
use avax_build_games.Pages.Dashboard.{manage_message, manage_login, signed_login}

issue_token-json :
    (buf : List ℕ) (rec : TournamentRecord) (db : Db)
    → (token : Text) × ((issue_token buf rec db).0 ≡ json token)
unfolding issue_token
issue_token-json buf rec db = elim (Option-cases (truthy_text rec.manage_token)) [
  | inl e ↦ (generate_manage_token buf, rw (e, issue_token) refl)
  | inr (token, e) ↦ (token, rw (e, issue_token) refl)
]

-- What the page sends when the wallet signs.
abbrev sent_login : Login → LoginBody
sent_login r = record { wallet = some r.wallet; sig = some r.sig; ts = some r.ts }

manage_login-sent :
    (sign_message : Text → Attempt Text) (tid : ℕ) (r : Login)
    → sign_message (manage_message tid r.ts) ≡ returned r.sig
    → manage_login sign_message r.wallet tid r.ts ≡ returned (sent_login r)
unfolding manage_login signed_login
manage_login-sent sign_message tid r h = rw h refl

manage_message-login : (tid : ℕ) (r : Login) → manage_message tid r.ts ≡ login_message tid r
unfolding manage_message login_message
manage_message-login tid r = refl

login-login_read :
    (now : ℕ) (recover : Text → Text → Option Text) (buf : List ℕ) (tid : ℕ) (r : Login) (db : Db)
    → is_empty_text r.wallet ≡ false
    → is_empty_text r.sig ≡ false
    → (r.ts == 0) ≡ false
    → login now recover buf (some tid) (sent_login r) db ≡ login_read now recover buf tid r db
unfolding login read_login
login-login_read now recover buf tid r db w s t = rw (w, s, t, login) refl

login_read-login_wallet :
    (now : ℕ) (recover : Text → Text → Option Text) (buf : List ℕ) (tid : ℕ) (r : Login) (db : Db)
    (signer : Text)
    → expired 300 now r.ts ≡ false
    → recover (login_message tid r) r.sig ≡ some signer
    → lower signer ≡ lower r.wallet
    → login_read now recover buf tid r db ≡ login_wallet buf tid r db
unfolding login_read
login_read-login_wallet now recover buf tid r db signer e e' same =
    rw (e, e', same, ===_refl (lower r.wallet)) refl

login_wallet-issue_token :
    (buf : List ℕ) (tid : ℕ) (r : Login) (db : Db) (rec : TournamentRecord)
    → get_tournament tid db ≡ some rec
    → is_organizer rec r.wallet ≡ true
    → login_wallet buf tid r db ≡ issue_token buf rec db
unfolding login_wallet
login_wallet-issue_token buf tid r db rec stored organizer =
    rw (stored, organizer, login_wallet) refl

login-token :
    (now : ℕ) (recover : Text → Text → Option Text) (buf : List ℕ) (tid : ℕ) (r : Login) (db : Db)
    (rec : TournamentRecord) (signer : Text)
    → is_empty_text r.wallet ≡ false
    → is_empty_text r.sig ≡ false
    → (r.ts == 0) ≡ false
    → expired 300 now r.ts ≡ false
    → recover (login_message tid r) r.sig ≡ some signer
    → lower signer ≡ lower r.wallet
    → get_tournament tid db ≡ some rec
    → is_organizer rec r.wallet ≡ true
    → (token : Text) × ((login now recover buf (some tid) (sent_login r) db).0 ≡ json token)
login-token now recover buf tid r db rec signer w s t e e' same stored organizer =
    let issued = issue_token-json buf rec db in
    let reads =
      login-login_read now recover buf tid r db w s t
      ∙ login_read-login_wallet now recover buf tid r db signer e e' same
      ∙ login_wallet-issue_token buf tid r db rec stored organizer in
    (issued.0, ap (λ x. x.0) reads ∙ issued.1)

-- An organizer of a stored tournament gets a token from the auth route: when the wallet signs, the
-- signature recovers to its address, neither is empty and the request arrives within 300 seconds.
pub manage_login-login :
    (now : ℕ) (recover : Text → Text → Option Text) (buf : List ℕ)
    (sign_message : Text → Attempt Text) (wallet : Text) (tid ts : ℕ) (sig signer : Text)
    (rec : TournamentRecord) (body : LoginBody) (db : Db)
    → sign_message (manage_message tid ts) ≡ returned sig
    → recover (manage_message tid ts) sig ≡ some signer
    → lower signer ≡ lower wallet
    → manage_login sign_message wallet tid ts ≡ returned body
    → is_empty_text wallet ≡ false
    → is_empty_text sig ≡ false
    → 0 < ts
    → ts ≤ now + 300
    → now ≤ ts + 300
    → get_tournament tid db ≡ some rec
    → is_organizer rec wallet ≡ true
    → (token : Text) × ((login now recover buf (some tid) body db).0 ≡ json token)
manage_login-login now recover buf sign_message wallet tid ts sig signer rec body db signed
      recovered same sent w s t lo hi stored organizer =
    let r : Login = record { wallet = wallet; sig = sig; ts = ts } in
    let is_body : sent_login r ≡ body =
      returned-injective (sent_login r) body
        (sym (manage_login-sent sign_message tid r signed) ∙ sent) in
    subst (λ b. (token : Text) × ((login now recover buf (some tid) b db).0 ≡ json token)) is_body
      (login-token now recover buf tid r db rec signer w s (zero_test ts t)
        (expired-within 300 now ts lo hi)
        (sym (ap (λ m. recover m sig) (manage_message-login tid r)) ∙ recovered) same stored
        organizer)
