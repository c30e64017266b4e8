-- ===== src/Engine/Tournament/Unique.antt =====
-- What idsUnique says of the ids.
use avax_build_games.Prelude.{
  ℕ, ◌≡◌, refl, sym, ap, ◌∙◌, true, false, List, [], ◌∷◌, contains, Distinct, arith, ◌==◌, ==_iff,
  Bool-cases, inl, inr,
}
use avax_build_games.Engine.Types.{Entrant, entrant_ids}
use avax_build_games.Engine.Tournament.{ids_unique, ids_unique_from}

pub seen-absent :
    (x : ℕ) (seen : List ℕ) (es : List Entrant)
    → ids_unique_from seen es ≡ true
    → contains x seen ≡ true
    → contains x (entrant_ids es) ≡ false
unfolding ids_unique_from
seen-absent x seen [] unique known = refl
seen-absent x seen (e ∷ es) unique known = elim (Bool-cases (contains e.id seen)) [
  | inl old ↦ cc (rw old at unique)
  | inr new ↦
      let rest = seen-absent x (e.id ∷ seen) es (rw new at unique) (ground (arith, known)) in
      elim (Bool-cases (x == e.id)) [
        | inl same ↦ cc (sym known ∙ ap (λ t. contains t seen) ((==_iff x e.id).0 same) ∙ new)
        | inr other ↦ rw other rest
      ]
]

ids_unique_from-Distinct :
    (seen : List ℕ) (es : List Entrant) → ids_unique_from seen es ≡ true → Distinct (entrant_ids es)
unfolding ids_unique_from
ids_unique_from-Distinct seen [] unique = tt
ids_unique_from-Distinct seen (e ∷ es) unique = elim (Bool-cases (contains e.id seen)) [
  | inl old ↦ cc (rw old at unique)
  | inr new ↦
      let rest = rw new at unique in
      (
        seen-absent e.id (e.id ∷ seen) es rest (ground arith),
        ids_unique_from-Distinct (e.id ∷ seen) es rest,
      )
]

pub ids_unique-Distinct : (es : List Entrant) → ids_unique es ≡ true → Distinct (entrant_ids es)
unfolding ids_unique
ids_unique-Distinct es unique = ids_unique_from-Distinct [] es unique
