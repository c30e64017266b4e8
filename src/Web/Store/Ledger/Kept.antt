-- ===== src/Web/Store/Ledger/Kept.antt =====
-- What the calls of store.ts leave in the tables, whatever they are.
use avax_build_games.Prelude.{
  ℕ, ◌≡◌, refl, sym, ap, subst, ◌∙◌, Bool, true, false, none, some, is_some, List, [], ◌∷◌, any,
  All, ◌==◌, if◌then◌else◌, Bool-cases, Option-cases, inl, inr, arith,
}
use avax_build_games.Web.Store.{
  Db, TournamentRecord, BracketState, Nonce, same_nonce, get_bracket, get_tournament, save_bracket,
  upsert_bracket, save_tournament, enqueue_job, update_funding_intent,
}
use avax_build_games.Web.Store.Upserts.{
  get_bracket-upsert_bracket, get_tournament-save_tournament, get_tournament-upsert_bracket,
}
use avax_build_games.Web.Store.Ledger.{
  Call, save_tournament_call, get_tournament_call, list_tournaments_call, save_bracket_call,
  get_bracket_call, enqueue_job_call, get_job_call, use_nonce_call, claim_call, update_call,
  perform, perform_all, saved_answer,
}
use avax_build_games.Web.Store.Ledger.Tables.{
  use_nonce-used, save_tournament-rows, use_nonce-rows, claim-rows,
}

abbrev IsUsed : Nonce → Db → Type 0
IsUsed n db = any (same_nonce n) db.report_nonces ≡ true

saved_nonces :
    (tid : ℕ) (b : BracketState) (db : Db)
    → (saved_answer (save_bracket tid b db) db).1.report_nonces ≡ db.report_nonces
unfolding save_bracket upsert_bracket
saved_nonces tid b db = elim (Option-cases (get_tournament tid db)) [
  | inl e ↦ rw (e, save_bracket) refl
  | inr (rec, e) ↦ rw (e, save_bracket) refl
]

perform-IsUsed : (n : Nonce) (c : Call) (db : Db) → IsUsed n db → IsUsed n (perform c db).1
unfolding perform enqueue_job update_funding_intent
perform-IsUsed n (save_tournament_call new) db h =
    ap (λ d. any (same_nonce n) d.report_nonces) (save_tournament-rows new db).1 ∙ h
perform-IsUsed n (get_tournament_call tid) db h = h
perform-IsUsed n (list_tournaments_call limit) db h = h
perform-IsUsed n (save_bracket_call tid b) db h =
    ap (λ ns. any (same_nonce n) ns) (saved_nonces tid b db) ∙ h
perform-IsUsed n (get_bracket_call tid) db h = h
perform-IsUsed n (enqueue_job_call payload) db h = h
perform-IsUsed n (get_job_call id) db h = h
perform-IsUsed n (use_nonce_call m) db h = use_nonce-used n m db ∙ rw h (ground arith)
perform-IsUsed n (claim_call order_id amount) db h =
    ap (λ d. any (same_nonce n) d.report_nonces) (claim-rows order_id amount db).1 ∙ h
perform-IsUsed n (update_call order_id job tournament) db h = h

-- A nonce once used stays used.
pub perform_all-used :
    (n : Nonce) (cs : List Call) (db : Db)
    → any (same_nonce n) db.report_nonces ≡ true
    → any (same_nonce n) (perform_all cs db).report_nonces ≡ true
unfolding perform_all
perform_all-used n [] db h = h
perform_all-used n (c ∷ cs) db h = perform_all-used n cs (perform c db).1 (perform-IsUsed n c db h)

-- Whether a call saves the bracket of the tournament.
unfoldable pub saves_bracket_of : ℕ → Call → Bool
saves_bracket_of tid (save_tournament_call new) = false
saves_bracket_of tid (get_tournament_call id) = false
saves_bracket_of tid (list_tournaments_call limit) = false
saves_bracket_of tid (save_bracket_call id b) = id == tid
saves_bracket_of tid (get_bracket_call id) = false
saves_bracket_of tid (enqueue_job_call payload) = false
saves_bracket_of tid (get_job_call id) = false
saves_bracket_of tid (use_nonce_call n) = false
saves_bracket_of tid (claim_call order_id amount) = false
saves_bracket_of tid (update_call order_id job tournament) = false

saved_bracket_other :
    (tid id : ℕ) (b : BracketState) (db : Db)
    → (id == tid) ≡ false
    → get_bracket tid (saved_answer (save_bracket id b db) db).1 ≡ get_bracket tid db
unfolding save_bracket
saved_bracket_other tid id b db h = elim (Option-cases (get_tournament id db)) [
  | inl e ↦ rw (e, save_bracket) refl
  | inr (rec, e) ↦
      rw (e, save_bracket)
        (get_bracket-upsert_bracket id tid b db
          ∙ ap (λ c. if c then some b else get_bracket tid db) h)
]

perform-get_bracket :
    (tid : ℕ) (c : Call) (db : Db)
    → saves_bracket_of tid c ≡ false
    → get_bracket tid (perform c db).1 ≡ get_bracket tid db
unfolding perform saves_bracket_of get_bracket enqueue_job update_funding_intent
perform-get_bracket tid (save_tournament_call new) db h =
    ap (λ d. get_bracket tid d) (save_tournament-rows new db).1
perform-get_bracket tid (get_tournament_call id) db h = refl
perform-get_bracket tid (list_tournaments_call limit) db h = refl
perform-get_bracket tid (save_bracket_call id b) db h = saved_bracket_other tid id b db h
perform-get_bracket tid (get_bracket_call id) db h = refl
perform-get_bracket tid (enqueue_job_call payload) db h = refl
perform-get_bracket tid (get_job_call id) db h = refl
perform-get_bracket tid (use_nonce_call n) db h =
    ap (λ d. get_bracket tid d) (use_nonce-rows n db).1
perform-get_bracket tid (claim_call order_id amount) db h =
    ap (λ d. get_bracket tid d) (claim-rows order_id amount db).1
perform-get_bracket tid (update_call order_id job tournament) db h = refl

-- A bracket stays as it is until it is saved_answer again.
pub perform_all-get_bracket :
    (tid : ℕ) (cs : List Call) (db : Db)
    → All (λ c. saves_bracket_of tid c ≡ false) cs
    → get_bracket tid (perform_all cs db) ≡ get_bracket tid db
unfolding perform_all
perform_all-get_bracket tid [] db h = refl
perform_all-get_bracket tid (c ∷ cs) db h =
    perform_all-get_bracket tid cs (perform c db).1 h.1 ∙ perform-get_bracket tid c db h.0

-- Every bracket belongs to a tournament that is stored.
abbrev pub IsKeyed : Db → Type 0
IsKeyed db =
    (tid : ℕ) → is_some (get_bracket tid db) ≡ true → is_some (get_tournament tid db) ≡ true

-- Where the tournament is stored, saveBracket does not throw.
pub save_bracket-upsert_bracket :
    (tid : ℕ) (b : BracketState) (db : Db)
    → is_some (get_tournament tid db) ≡ true
    → save_bracket tid b db ≡ some (upsert_bracket tid b db)
unfolding save_bracket
save_bracket-upsert_bracket tid b db h = elim (Option-cases (get_tournament tid db)) [
  | inl e ↦ cc (rw e at h)
  | inr (rec, e) ↦ rw (e, save_bracket) refl
]

pub upsert_bracket-IsKeyed :
    (tid : ℕ) (b : BracketState) (db : Db)
    → is_some (get_tournament tid db) ≡ true
    → IsKeyed db
    → IsKeyed (upsert_bracket tid b db)
upsert_bracket-IsKeyed tid b db stored h id found =
    ap is_some (get_tournament-upsert_bracket tid id b db) ∙ (elim (Bool-cases (tid == id)) [
      | inl e ↦ subst (λ k. is_some (get_tournament k db) ≡ true) (ground (arith, e)) stored
      | inr e ↦ h id (
          ap is_some (
            sym (
              get_bracket-upsert_bracket tid id b db
              ∙ ap (λ c. if c then some b else get_bracket id db) e))
          ∙ found)
    ])

save_bracket-none :
    (tid : ℕ) (b : BracketState) (db : Db)
    → get_tournament tid db ≡ none
    → save_bracket tid b db ≡ none
unfolding save_bracket
save_bracket-none tid b db e = rw (e, save_bracket) refl

saved_answer-IsKeyed :
    (tid : ℕ) (b : BracketState) (db : Db)
    → IsKeyed db
    → IsKeyed (saved_answer (save_bracket tid b db) db).1
saved_answer-IsKeyed tid b db h = elim (Option-cases (get_tournament tid db)) [
  | inl e ↦ subst (λ s. IsKeyed (saved_answer s db).1) (sym (save_bracket-none tid b db e)) h
  | inr (rec, e) ↦
      let stored = ap is_some e in
      subst (λ s. IsKeyed (saved_answer s db).1) (sym (save_bracket-upsert_bracket tid b db stored))
        (upsert_bracket-IsKeyed tid b db stored h)
]

same_bracket :
    (new : TournamentRecord) (db : Db) (id : ℕ)
    → is_some (get_bracket id (save_tournament new db)) ≡ true
    → is_some (get_bracket id db) ≡ true
unfolding get_bracket
same_bracket new db id found =
    sym (ap (λ d. is_some (get_bracket id d)) (save_tournament-rows new db).1) ∙ found

pub save_tournament-IsKeyed :
    (new : TournamentRecord) (db : Db) → IsKeyed db → IsKeyed (save_tournament new db)
save_tournament-IsKeyed new db h id found =
    let before = h id (same_bracket new db id found) in
    ap is_some (get_tournament-save_tournament id new db)
    ∙ (elim (Bool-cases (new.tournament_id == id)) [ inl e ↦ rw e refl | inr e ↦ rw e before ])

perform-IsKeyed : (c : Call) (db : Db) → IsKeyed db → IsKeyed (perform c db).1
unfolding perform enqueue_job update_funding_intent get_bracket get_tournament
perform-IsKeyed (save_tournament_call new) db h = save_tournament-IsKeyed new db h
perform-IsKeyed (get_tournament_call id) db h = h
perform-IsKeyed (list_tournaments_call limit) db h = h
perform-IsKeyed (save_bracket_call id b) db h = saved_answer-IsKeyed id b db h
perform-IsKeyed (get_bracket_call id) db h = h
perform-IsKeyed (enqueue_job_call payload) db h = h
perform-IsKeyed (get_job_call id) db h = h
perform-IsKeyed (use_nonce_call n) db h = subst IsKeyed (sym (use_nonce-rows n db).1) h
perform-IsKeyed (claim_call order_id amount) db h =
    subst IsKeyed (sym (claim-rows order_id amount db).1) h
perform-IsKeyed (update_call order_id job tournament) db h = h

-- From tables in which every bracket belongs to a tournament, any calls of the store's methods
-- lead to such tables.
pub perform_all-IsKeyed : (cs : List Call) (db : Db) → IsKeyed db → IsKeyed (perform_all cs db)
unfolding perform_all
perform_all-IsKeyed [] db h = h
perform_all-IsKeyed (c ∷ cs) db h = perform_all-IsKeyed cs (perform c db).1 (perform-IsKeyed c db h)
