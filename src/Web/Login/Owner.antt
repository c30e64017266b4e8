-- ===== src/Web/Login/Owner.antt =====
-- To whom the login route gives a manage token.
use avax_build_games.Prelude.{
  ℕ, ◌≡◌, refl, ◌∙◌, true, false, Option, none, some, List, [], ◌∷◌, ◌⊎◌, Bool-cases, Option-cases,
  inl, inr, arith, ==_iff,
}
use avax_build_games.Web.Text.{Text, ◌===◌, ===→eq, lower}
use avax_build_games.Web.Http.{Response, accepted, expired, truthy_text}
use avax_build_games.Web.Accepted.{OnAccepted, refused, granted, on_accepted}
use avax_build_games.Web.Token.{generate_manage_token}
use avax_build_games.Web.Store.{Db, TournamentRecord, get_tournament}
use avax_build_games.Web.Store.Upserts.{get_tournament-save_tournament, saved_row, saved_row-token}
use avax_build_games.Web.Login.{
  is_wallet, LoginBody, Login, read_login, login_message, is_organizer, issue_token, login_wallet,
  login_read, login,
}

-- The wallet is the organizer's or the sponsor's, whatever the case of its letters.
abbrev Owns : TournamentRecord → Text → Type 0
Owns rec wallet =
    ((w : Text) × (rec.organizer_wallet ≡ some w) × (lower w ≡ lower wallet))
    ⊎ (lower rec.sponsor ≡ lower wallet)

-- What a successful login has checked and done.
pub record LoggedIn (now : ℕ) (recover : Text → Text → Option Text) (tid : ℕ) (body : LoginBody)
    (db : Db) (answer : Response Text × Db) : Type 0 where
  pub request : Login
  pub read : read_login body ≡ some request
  pub in_time : expired 300 now request.ts ≡ false
  pub signer : Text
  pub signed : recover (login_message tid request) request.sig ≡ some signer
  pub same : lower signer ≡ lower request.wallet
  pub rec : TournamentRecord
  pub stored : get_tournament tid db ≡ some rec
  pub owner : Owns rec request.wallet
  pub token : Text
  pub given : answer.0 ≡ Response.json token
  pub rec_after : TournamentRecord
  pub stored_after : get_tournament tid answer.1 ≡ some rec_after
  pub token_after : rec_after.manage_token ≡ some token

-- What the token is after the answer.
Issued : ℕ → Response Text × Db → Type 0
Issued tid answer =
    (token : Text) × (answer.0 ≡ Response.json token)
    × (rec : TournamentRecord) × (get_tournament tid answer.1 ≡ some rec)
    × (rec.manage_token ≡ some token)

truthy_text-some : (s : Option Text) (t : Text) → truthy_text s ≡ some t → s ≡ some t
truthy_text-some none t h = cc
truthy_text-some (some []) t h = cc
truthy_text-some (some (c ∷ s)) t h = h

issue_token-Issued :
    (buf : List ℕ) (tid : ℕ) (rec : TournamentRecord) (db : Db)
    → get_tournament tid db ≡ some rec
    → rec.tournament_id ≡ tid
    → Issued tid (issue_token buf rec db)
unfolding Issued issue_token
issue_token-Issued buf tid rec db stored key =
    let old = rec.manage_token in
    elim (Option-cases (truthy_text old)) [
      | inr (token, e) ↦
          rw (e, issue_token) (token, refl, rec, stored, truthy_text-some old token e)
      | inl e ↦
          let token = generate_manage_token buf in
          let new = record rec { manage_token = some token } in
          let row = saved_row (get_tournament rec.tournament_id db) new in
          rw (e, issue_token)
            (
              token,
              refl,
              row,
              get_tournament-save_tournament tid new db
                  ∙ rw ((==_iff rec.tournament_id tid).1 key) refl,
              saved_row-token (get_tournament rec.tournament_id db) new token refl,
            )
    ]

is_organizer-Owns :
    (rec : TournamentRecord) (wallet : Text) → is_organizer rec wallet ≡ true → Owns rec wallet
unfolding is_organizer is_wallet
is_organizer-Owns rec wallet h = elim (Bool-cases (lower rec.sponsor === lower wallet)) [
  | inl e ↦ inr (===→eq (lower rec.sponsor) (lower wallet) e)
  | inr e ↦ inl (by_wallet rec.organizer_wallet (ground (arith, e)))
]
  where
    by_wallet :
        (stored : Option Text)
        → is_wallet stored wallet ≡ true
        → (w : Text) × (stored ≡ some w) × (lower w ≡ lower wallet)
    by_wallet none h' = cc
    by_wallet (some w) h' = (w, refl, ===→eq (lower w) (lower wallet) h')

-- What the login has found before it looks for the tournament.
record IsSigned (now : ℕ) (recover : Text → Text → Option Text) (tid : ℕ) (body : LoginBody)
    (r : Login) : Type 0 where
  read : read_login body ≡ some r
  in_time : expired 300 now r.ts ≡ false
  signer : Text
  signed : recover (login_message tid r) r.sig ≡ some signer
  same : lower signer ≡ lower r.wallet

module _ (now : ℕ) (recover : Text → Text → Option Text) (buf : List ℕ) (tid : ℕ) (body : LoginBody)
    (db : Db)
    (key : (rec : TournamentRecord)
      → get_tournament tid db ≡ some rec
      → rec.tournament_id ≡ tid) where
  abbrev Grants : Response Text × Db → Type 0
  Grants = LoggedIn now recover tid body db

  login_wallet-Grants :
      (r : Login) → IsSigned now recover tid body r → OnAccepted Grants (login_wallet buf tid r db)
  unfolding login_wallet Issued
  login_wallet-Grants r s = elim (Option-cases (get_tournament tid db)) [
    | inl e ↦ rw (e, login_wallet) (refused Grants _ refl)
    | inr (rec, stored) ↦ elim (Bool-cases (is_organizer rec r.wallet)) [
      | inr e ↦ rw (stored, e, login_wallet) (refused Grants _ refl)
      | inl owner ↦
          let issued = issue_token-Issued buf tid rec db stored (key rec stored) in
          rw (stored, owner, login_wallet)
            (granted Grants (issue_token buf rec db) λ h. record {
              request = r;
              read = s.read;
              in_time = s.in_time;
              signer = s.signer;
              signed = s.signed;
              same = s.same;
              rec = rec;
              stored = stored;
              owner = is_organizer-Owns rec r.wallet owner;
              token = issued.0;
              given = issued.1;
              rec_after = issued.2;
              stored_after = issued.3;
              token_after = issued.4;
            })
    ]
  ]

  login_read-Grants :
      (r : Login)
      → read_login body ≡ some r
      → OnAccepted Grants (login_read now recover buf tid r db)
  unfolding login_read
  login_read-Grants r e = elim (Bool-cases (expired 300 now r.ts)) [
    | inl late ↦ rw (late, login_read) (refused Grants _ refl)
    | inr in_time ↦ elim (Option-cases (recover (login_message tid r) r.sig)) [
      | inl bad ↦ rw (in_time, bad, login_read) (refused Grants _ refl)
      | inr (signer, signed) ↦ elim (Bool-cases (lower signer === lower r.wallet)) [
        | inr bad ↦ rw (in_time, signed, bad, login_read) (refused Grants _ refl)
        | inl same ↦
            rw (in_time, signed, same, login_read)
              (login_wallet-Grants r (record {
                read = e;
                in_time = in_time;
                signer = signer;
                signed = signed;
                same = ===→eq (lower signer) (lower r.wallet) same;
              }))
      ]
    ]
  ]

  login-Grants : OnAccepted Grants (login now recover buf (some tid) body db)
  unfolding login
  login-Grants = elim (Option-cases (read_login body)) [
    | inl e ↦ rw (e, login) (refused Grants _ refl)
    | inr (r, e) ↦ rw (e, login) (login_read-Grants r e)
  ]

-- When the login route answers with status 200: the body is complete, its timestamp is at most 300
-- seconds from now, the signature recovers to its wallet, this is the organizer's or the sponsor's
-- wallet of the stored tournament, and the answer is a token that the tournament then has. The
-- tournament's row must have the number that it is stored under.
pub login-LoggedIn :
    (now : ℕ) (recover : Text → Text → Option Text) (buf : List ℕ) (tid : ℕ) (body : LoginBody)
    (db : Db)
    → ((rec : TournamentRecord) → get_tournament tid db ≡ some rec → rec.tournament_id ≡ tid)
    → accepted (login now recover buf (some tid) body db).0 ≡ true
    → LoggedIn now recover tid body db (login now recover buf (some tid) body db)
login-LoggedIn now recover buf tid body db key =
    on_accepted (LoggedIn now recover tid body db) (login now recover buf (some tid) body db)
      (login-Grants now recover buf tid body db key)
