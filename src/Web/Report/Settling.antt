-- ===== src/Web/Report/Settling.antt =====
-- What a report does to the results of the bracket.
use mathlib.Core.Option.{get_or}
use avax_build_games.Prelude.{
  ℕ, ◌≡◌, ◌≢◌, refl, subst, ◌∙◌, ◌⊎◌, inl, inr, Bool, true, false, not, Option, some, List, [], ◌∷◌,
  ◌++◌, find, filter, contains, contains-append, arith, Bool-cases, Option-cases,
}
use avax_build_games.Web.Text.{◌===◌}
use avax_build_games.Web.Http.{Response}
use avax_build_games.Web.Store.{
  Db, BracketState, MatchReport, ReportSide, MatchResult, upsert_bracket,
}
use avax_build_games.Web.Report.{
  Report, ReportStatus, confirmed, disputed, same_side, other_side, is_report_of, settle, submit,
}

-- The report of the other side, if there is one.
abbrev pub other_report : Report → ReportSide → BracketState → Option MatchReport
other_report r side b = find (is_report_of r.match_id (other_side side)) (get_or b.reports [])

-- The reports with this one, which replaces an earlier one of the side.
abbrev pub with_report : Report → ReportSide → BracketState → List MatchReport
with_report r side b =
    filter (λ x. not (is_report_of r.match_id side x)) (get_or b.reports [])
    ++ record { match_id = r.match_id; side = side; wallet = r.wallet; outcome = r.outcome } ∷ []

-- What the report does to the results: nothing, or it adds the result that both sides have reported.
abbrev pub Settles : Report → ReportSide → BracketState → List MatchResult → ReportStatus → Type 0
Settles r side b results status =
    ((results ≡ b.results) × (status ≢ confirmed))
    ⊎ ((other : MatchReport) × (other_report r side b ≡ some other)
        × ((other.outcome === r.outcome) ≡ true)
        × (results ≡ b.results ++ record { match_id = r.match_id; outcome = r.outcome } ∷ [])
        × (status ≡ confirmed))

find-filter :
    (p q : MatchReport → Bool) (xs : List MatchReport)
    → ((x : MatchReport) → p x ≡ true → q x ≡ true)
    → find p (filter q xs) ≡ find p xs
find-filter p q [] h = refl
find-filter p q (x ∷ xs) h = elim (Bool-cases (p x)) [
  | inl e ↦ let kept = h x e in rw (kept, e) refl
  | inr e ↦ elim (Bool-cases (q x)) [
    | inl kept ↦ rw (kept, e) (find-filter p q xs h)
    | inr gone ↦ rw (gone, e) (find-filter p q xs h)
  ]
]

find-append :
    (p : MatchReport → Bool) (xs : List MatchReport) (x : MatchReport)
    → p x ≡ false
    → find p (xs ++ x ∷ []) ≡ find p xs
find-append p [] x e = rw e refl
find-append p (y ∷ xs) x e = elim (Bool-cases (p y)) [
  | inl f ↦ rw f refl
  | inr f ↦ rw f (find-append p xs x e)
]

same_side-other_side :
    (s side : ReportSide) → same_side s (other_side side) ≡ true → same_side s side ≡ false
unfolding same_side other_side
same_side-other_side ReportSide.a ReportSide.a h = cc
same_side-other_side ReportSide.a ReportSide.b h = refl
same_side-other_side ReportSide.b ReportSide.a h = refl
same_side-other_side ReportSide.b ReportSide.b h = cc

other_side-apart :
    (match_id : ℕ) (side : ReportSide) (x : MatchReport)
    → is_report_of match_id (other_side side) x ≡ true
    → not (is_report_of match_id side x) ≡ true
unfolding is_report_of
other_side-apart match_id side x h = ground (arith, h, same_side-other_side x.side side)

settle-Settles :
    (r : Report) (side : ReportSide) (b : BracketState) (disputes : List ℕ)
    → let settled = settle r (other_report r side b) b disputes in
      Settles r side b settled.0 settled.2
unfolding settle
settle-Settles r side b disputes = elim (Option-cases (other_report r side b)) [
  | inl e ↦ rw (e, settle) (inl (refl, λ h. cc))
  | inr (other, e) ↦ elim (Bool-cases (other.outcome === r.outcome)) [
    | inl same ↦ rw (e, same, settle) (inr (other, refl, same, refl, refl))
    | inr differ ↦ elim (Bool-cases (contains r.match_id disputes)) [
      | inl known ↦ rw (e, differ, known, settle) (inl (refl, λ h. cc))
      | inr new ↦ rw (e, differ, new, settle) (inl (refl, λ h. cc))
    ]
  ]
]

not_other_side :
    (match_id : ℕ) (new : MatchReport) → is_report_of match_id (other_side new.side) new ≡ false
unfolding is_report_of
not_other_side match_id new = ground (arith, not_opposite new.side)
  where
    not_opposite : (side : ReportSide) → same_side side (other_side side) ≡ false
    not_opposite ReportSide.a = unfold same_side other_side in refl
    not_opposite ReportSide.b = unfold same_side other_side in refl

settle-contested :
    (r : Report) (side : ReportSide) (b : BracketState) (disputes : List ℕ)
    → let settled = settle r (other_report r side b) b disputes in
      settled.2 ≡ disputed → contains r.match_id settled.1 ≡ true
unfolding settle
settle-contested r side b disputes = elim (Option-cases (other_report r side b)) [
  | inl e ↦ rw (e, settle) (λ h. cc)
  | inr (other, e) ↦ elim (Bool-cases (other.outcome === r.outcome)) [
    | inl same ↦ rw (e, same, settle) (λ h. cc)
    | inr differ ↦ elim (Bool-cases (contains r.match_id disputes)) [
      | inl known ↦ rw (e, differ, known, settle) (λ h. known)
      | inr new ↦
          rw (e, differ, new, settle)
            (λ h. ground (arith, contains-append r.match_id disputes (r.match_id ∷ [])))
    ]
  ]
]

other_report-kept :
    (r : Report) (side : ReportSide) (b : BracketState) (new : MatchReport)
    → new.side ≡ side
    → find
        (is_report_of r.match_id (other_side side))
        (filter (λ x. not (is_report_of r.match_id side x)) (get_or b.reports []) ++ new ∷ [])
      ≡ other_report r side b
other_report-kept r side b new mine =
    find-append (is_report_of r.match_id (other_side side))
      (filter (λ x. not (is_report_of r.match_id side x)) (get_or b.reports [])) new
      (subst (λ s. is_report_of r.match_id (other_side s) new ≡ false) mine
        (not_other_side r.match_id new))
    ∙ find-filter (is_report_of r.match_id (other_side side))
        (λ x. not (is_report_of r.match_id side x)) (get_or b.reports [])
        (other_side-apart r.match_id side)

-- The answer of `submit` with what it stores.
pub record Submitted (tid : ℕ) (r : Report) (side : ReportSide) (b : BracketState) (db : Db)
    : Type 0 where
  pub status : ReportStatus
  pub results : List MatchResult
  pub reports : Option (List MatchReport)
  pub disputes : Option (List ℕ)
  pub settles : Settles r side b results status
  pub noted : reports ≡ some (with_report r side b)
  pub contested : status ≡ disputed → contains r.match_id (get_or disputes []) ≡ true
  pub result : submit tid r side b db ≡ (
    Response.json status,
    upsert_bracket tid (record b { results = results; reports = reports; disputes = disputes }) db,
  )

pub submit-Submitted :
    (tid : ℕ) (r : Report) (side : ReportSide) (b : BracketState) (db : Db)
    → Submitted tid r side b db
unfolding submit
submit-Submitted tid r side b db =
    let disputes = get_or b.disputes [] in
    let new : MatchReport = record {
      match_id = r.match_id;
      side = side;
      wallet = r.wallet;
      outcome = r.outcome;
    } in
    let settled = settle r (other_report r side b) b disputes in
    let same = other_report-kept r side b new refl in
    record {
      status = settled.2;
      results = settled.0;
      reports = some (with_report r side b);
      disputes = some settled.1;
      settles = settle-Settles r side b disputes;
      noted = refl;
      contested = settle-contested r side b disputes;
      result = rw same refl;
    }
