-- ===== src/Web/Store/Ledger/Listed.antt =====
-- The order in which listTournaments gives the rows.
use avax_build_games.Prelude.{
  ℕ, ◌≡◌, refl, sym, ap, ◌∙◌, Bool, false, some, List, [], ◌∷◌, map, sort, insert_sorted, leb, All,
  lookup, insert, ◌==◌, Bool-cases, inl, inr, arith,
}
use mathlib.Core.Option.{some-injective}
use avax_build_games.Web.Store.{TournamentRecord}
use avax_build_games.Web.Store.Ledger.{place}

abbrev later_first : TournamentRecord → TournamentRecord → Bool
later_first x y = leb y.tournament_id x.tournament_id

-- The rows, in the order of the query.
abbrev pub in_order : List (ℕ × TournamentRecord) → List TournamentRecord
in_order rows = sort later_first (map (λ (row : ℕ × TournamentRecord). row.1) rows)

-- A row is stored under its id.
abbrev pub AreKeyed : List (ℕ × TournamentRecord) → Type 0
AreKeyed rows = All (λ (row : ℕ × TournamentRecord). row.1.tournament_id ≡ row.0) rows

place-same :
    (v x : TournamentRecord) (zs : List TournamentRecord)
    → x.tournament_id ≡ v.tournament_id
    → place v (insert_sorted later_first x zs) ≡ insert_sorted later_first v zs
place-same v x [] e = ground (arith, e)
place-same v x (z ∷ zs) e = ground (arith, e, place-same v x zs e)

place-other :
    (v x : TournamentRecord) (zs : List TournamentRecord)
    → (x.tournament_id == v.tournament_id) ≡ false
    → place v (insert_sorted later_first x zs) ≡ insert_sorted later_first x (place v zs)
place-other v x [] e = ground (arith, e)
place-other v x (z ∷ zs) e = ground (arith, e, place-other v x zs e)

pub in_order-insert :
    (v : TournamentRecord) (rows : List (ℕ × TournamentRecord))
    → AreKeyed rows
    → in_order (insert v.tournament_id v rows) ≡ place v (in_order rows)
in_order-insert v [] h = refl
in_order-insert v ((k, x) ∷ rows) h = elim (Bool-cases (k == v.tournament_id)) [
  | inl e ↦ rw e (sym (place-same v x (in_order rows) (h.0 ∙ ground (arith, e))))
  | inr e ↦
      let other : (x.tournament_id == v.tournament_id) ≡ false = rw h.0 e in
      rw e (
        ap (insert_sorted later_first x) (in_order-insert v rows h.1)
        ∙ sym (place-other v x (in_order rows) other))
]

pub AreKeyed-insert :
    (v : TournamentRecord) (rows : List (ℕ × TournamentRecord))
    → AreKeyed rows
    → AreKeyed (insert v.tournament_id v rows)
AreKeyed-insert v [] h = (refl, tt)
AreKeyed-insert v ((k, x) ∷ rows) h = elim (Bool-cases (k == v.tournament_id)) [
  | inl e ↦ rw e (ground (arith, e), h.1)
  | inr e ↦ rw e (h.0, AreKeyed-insert v rows h.1)
]

pub AreKeyed-lookup :
    (k : ℕ) (v : TournamentRecord) (rows : List (ℕ × TournamentRecord))
    → AreKeyed rows
    → lookup k rows ≡ some v
    → v.tournament_id ≡ k
AreKeyed-lookup k v [] h e = cc e
AreKeyed-lookup k v ((i, x) ∷ rows) h e = elim (Bool-cases (i == k)) [
  | inl same ↦
      ap (λ (r : TournamentRecord). r.tournament_id) (sym (some-injective x v (rw same at e)))
      ∙ h.0
      ∙ ground (arith, same)
  | inr other ↦ AreKeyed-lookup k v rows h.1 (rw other at e)
]
