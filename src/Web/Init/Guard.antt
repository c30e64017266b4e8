-- ===== src/Web/Init/Guard.antt =====
-- When the init route registers a tournament, and what its token is good for.
use mathlib.Core.Option.{some-injective}
use avax_build_games.Prelude.{
  ℕ, ◌*◌, ◌≤◌, ◌<◌, ◌≡◌, refl, sym, ap, ◌∙◌, subst, true, Option, none, some, List, length, All,
  ltb, ◌==◌, ◌⊎◌, inl, inr, Bool-cases, Option-cases, arith, ==_iff,
}
use avax_build_games.Web.Text.{Text}
use avax_build_games.Web.Http.{Response, accepted, RouteRequest, body_too_large}
use avax_build_games.Web.Token.{generate_manage_token}
use avax_build_games.Web.Token.Hex.{length-hex_bytes, hex_bytes-plain}
use avax_build_games.Web.Store.{
  Db, TournamentRecord, get_tournament, save_tournament, upsert_bracket,
}
use avax_build_games.Web.Store.Upserts.{
  get_tournament-save_tournament, saved_row, saved_row-token, get_tournament-upsert_bracket,
}
use avax_build_games.Web.Accepted.{OnAccepted, refused, granted, on_accepted}
use avax_build_games.Web.Auth.{require_organizer}
use avax_build_games.Web.Auth.Bearer.{Plain, Plain-CodeUnits, bearer, bearer_token-bearer}
use avax_build_games.Web.Auth.Compare.{CodeUnits}
use avax_build_games.Web.Auth.Organizer.{require_organizer_iff}
use avax_build_games.Web.Init.{
  InitBody, InitFields, read_init, sum, init_record, init_bracket, init_fields, init_body, init_tid,
  init,
}

-- What the registration of a tournament has checked and done.
pub record Initialized (now : ℕ) (buf : List ℕ) (authorization : Option Text) (tid : ℕ)
    (body : InitBody) (db db' : Db) : Type 0 where
  pub fields : InitFields
  pub read : read_init body ≡ some fields
  pub whole : sum fields.payout_bps ≡ 10000
  pub placements : length fields.payout_bps ≤ 16
  pub players : length fields.players ≤ 1024
  pub free_or_owned :
      (get_tournament tid db ≡ none)
      ⊎ ((rec : TournamentRecord) × (require_organizer authorization tid db ≡ some rec))
  pub result :
      db'
      ≡ upsert_bracket tid
          (init_bracket body fields)
          (save_tournament (init_record now tid buf body fields) db)

module _ (now : ℕ) (buf : List ℕ) (tid : ℕ) (authorization : Option Text) (body : InitBody)
    (db : Db) where
  abbrev Ends : Response Text × Db → Type 0
  Ends done =
      (done.0 ≡ Response.json (generate_manage_token buf))
      × Initialized now buf authorization tid body db done.1

  abbrev Accepted : Response Text × Db → Type 0
  Accepted = OnAccepted Ends

  abbrev FreeOrOwned : Type 0
  FreeOrOwned =
      (get_tournament tid db ≡ none)
      ⊎ ((rec : TournamentRecord) × (require_organizer authorization tid db ≡ some rec))

  init_fields-Accepted :
      (fields : InitFields)
      → FreeOrOwned
      → read_init body ≡ some fields
      → Accepted (init_fields now buf tid body fields db)
  unfolding init_fields
  init_fields-Accepted fields free e = elim (Bool-cases (sum fields.payout_bps == 10000)) [
    | inr bad ↦ rw bad (refused Ends _ refl)
    | inl whole ↦ elim (Bool-cases (ltb 16 (length fields.payout_bps))) [
      | inl bad ↦ rw (whole, bad) (refused Ends _ refl)
      | inr few ↦ elim (Bool-cases (ltb 1024 (length fields.players))) [
        | inl bad ↦ rw (whole, few, bad) (refused Ends _ refl)
        | inr fit ↦
            rw (whole, few, fit)
              (granted Ends _ λ h. (
                refl,
                record {
                  fields = fields;
                  read = e;
                  whole = ground (arith, whole);
                  placements = ground (arith, few);
                  players = ground (arith, fit);
                  free_or_owned = free;
                  result = refl;
                },
              ))
      ]
    ]
  ]

  init_body-Accepted : FreeOrOwned → Accepted (init_body now buf tid body db)
  unfolding init_body
  init_body-Accepted free = elim (Option-cases (read_init body)) [
    | inl e ↦ rw (e, init_body) (refused Ends _ refl)
    | inr (fields, e) ↦ rw (e, init_body) (init_fields-Accepted fields free e)
  ]

  init_tid-Accepted : Accepted (init_tid now buf tid authorization body db)
  unfolding init_tid
  init_tid-Accepted = elim (Option-cases (get_tournament tid db)) [
    | inl e ↦ rw (e, init_tid) (init_body-Accepted (inl e))
    | inr (existing, e) ↦ elim (Option-cases (require_organizer authorization tid db)) [
      | inl e' ↦ rw (e, e', init_tid) (refused Ends _ refl)
      | inr (rec, e') ↦ rw (e, e', init_tid) (init_body-Accepted (inr (rec, e')))
    ]
  ]

-- When the init route answers with status 200: the basis points sum to 10000, there are at most 16
-- placements and 1024 players, the tournament was not there or the header is its organizer's, the
-- answer is the manage token, and the database changes by the record and a bracket without results.
pub init-Initialized :
    (now : ℕ) (buf : List ℕ) (req : RouteRequest) (tid : ℕ) (body : InitBody) (db : Db)
    → req.tid ≡ some tid
    → accepted (init now buf req body db).0 ≡ true
    → ((init now buf req body db).0 ≡ Response.json (generate_manage_token buf))
      × Initialized now buf req.authorization tid body db (init now buf req body db).1
unfolding init
init-Initialized now buf req tid body db e h =
    on_accepted (Ends now buf tid req.authorization body db) (init now buf req body db) whole h
  where
    whole : Accepted now buf tid req.authorization body db (init now buf req body db)
    whole = elim (Bool-cases (body_too_large req.content_length)) [
      | inl large ↦ rw large (refused (Ends now buf tid req.authorization body db) _ refl)
      | inr small ↦ rw (small, e) (init_tid-Accepted now buf tid req.authorization body db)
    ]

manage_token-Plain : (buf : List ℕ) → All (λ b. b < 256) buf → Plain (generate_manage_token buf)
unfolding generate_manage_token
manage_token-Plain buf h = hex_bytes-plain buf h

pub length-manage_token :
    (buf : List ℕ) → All (λ b. b < 256) buf → length (generate_manage_token buf) ≡ 2 * length buf
unfolding generate_manage_token
length-manage_token buf h = length-hex_bytes buf h

-- Whoever holds the token of a tournament is let in.
pub manage_token-organizer :
    (buf : List ℕ) (tid : ℕ) (db : Db) (rec : TournamentRecord)
    → length buf ≡ 32
    → All (λ b. b < 256) buf
    → get_tournament tid db ≡ some rec
    → rec.manage_token ≡ some (generate_manage_token buf)
    → require_organizer (bearer (generate_manage_token buf)) tid db ≡ some rec
manage_token-organizer buf tid db rec len bytes stored token =
    let t = generate_manage_token buf in
    let plain = manage_token-Plain buf bytes in
    let read = bearer_token-bearer t plain in
    let long = length-manage_token buf bytes in
    (require_organizer_iff (bearer t) tid db rec (rw read (Plain-CodeUnits t plain)) (λ r b e h.
        let same = some-injective rec r (sym stored ∙ e) in
        let found = sym token ∙ ap (λ (k : TournamentRecord). k.manage_token) same ∙ h in
        subst CodeUnits (some-injective t b found) (Plain-CodeUnits t plain))).1
      (record { stored = stored; token = rw read token; long = rw read (omega arith) })

-- After the init route has answered with status 200 and with 32 random bytes, the token of the answer,
-- as a bearer token, is let in as the organizer's of the tournament that is then stored.
pub init-organizer :
    (now : ℕ) (buf : List ℕ) (req : RouteRequest) (tid : ℕ) (body : InitBody) (db : Db)
    → req.tid ≡ some tid
    → length buf ≡ 32
    → All (λ b. b < 256) buf
    → accepted (init now buf req body db).0 ≡ true
    → let db' = (init now buf req body db).1 in
      (rec : TournamentRecord) × (get_tournament tid db' ≡ some rec)
      × (require_organizer (bearer (generate_manage_token buf)) tid db' ≡ some rec)
unfolding init_record
init-organizer now buf req tid body db e len bytes h =
    let i = (init-Initialized now buf req tid body db e h).1 in
    let db' = (init now buf req body db).1 in
    let new = init_record now tid buf body i.fields in
    let row = saved_row (get_tournament tid db) new in
    let stored : get_tournament tid db' ≡ some row =
      ap (get_tournament tid) i.result
      ∙ get_tournament-upsert_bracket tid tid (init_bracket body i.fields) (save_tournament new db)
      ∙ get_tournament-save_tournament tid new db
      ∙ rw ((==_iff tid tid).1 refl) refl in
    (
      row,
      stored,
      manage_token-organizer buf tid db' row len bytes stored
          (saved_row-token (get_tournament tid db) new (generate_manage_token buf) refl),
    )
