-- ===== src/Engine/Ranking/Totality.antt =====
-- Who is in the standings, and when they are defined.
use mathlib.Core.List.{Perm}
use mathlib.Core.List.Perm
use avax_build_games.Prelude.{
  ℕ, ◌≡◌, refl, sym, subst, ap, ◌∙◌, inl, inr, true, Option, some, List, [], ◌∷◌, map, sort,
  sort-perm, contains, All, arith, ◌==◌, Bool-cases, Option-cases,
}
use avax_build_games.Engine.Types.{
  Outcome, draw, void, Entrant, BracketMatch, Standing, entrant_ids,
}
use avax_build_games.Engine.MatchMap.Sides.{OfSide, OfSides}
use avax_build_games.Engine.Tournament.{Tournament}
use avax_build_games.Engine.Ranking.{
  ◌>>=◌, no_results, bump, win, lose, tie, count_outcome, count_match, count_matches, ranks_before,
  standings,
}

-- The id is one of the list.
abbrev pub Known : List ℕ → Entrant → Type 0
Known known e = contains e.id known ≡ true

abbrev standing_ids : List Standing → List ℕ
standing_ids st = map (λ (s : Standing). s.id) st

-- A count succeeds and keeps the ids.
record Counts (st : List Standing) (counted : Option (List Standing)) : Type 0 where
  after : List Standing
  is_some : counted ≡ some after
  same_ids : standing_ids after ≡ standing_ids st

bump-Counts :
    (id : ℕ) (f : Standing → Standing) (st : List Standing)
    → ((s : Standing) → (f s).id ≡ s.id)
    → contains id (standing_ids st) ≡ true
    → Counts st (bump id f st)
unfolding bump
bump-Counts id f [] keep known = cc
bump-Counts id f (s ∷ st) keep known = elim (Bool-cases (s.id == id)) [
  | inl e ↦ record {
    after = f s ∷ st;
    is_some = rw e refl;
    same_ids = ap (λ i. i ∷ standing_ids st) (keep s);
  }
  | inr e ↦
      let rest = bump-Counts id f st keep (ground (arith, known, e)) in
      record {
        after = s ∷ rest.after;
        is_some = rw (e, rest.is_some) refl;
        same_ids = ap (λ is. s.id ∷ is) rest.same_ids;
      }
]

-- Two counts in a row.
twice-Counts :
    (x y : ℕ) (f g : Standing → Standing) (st : List Standing)
    → ((s : Standing) → (f s).id ≡ s.id)
    → ((s : Standing) → (g s).id ≡ s.id)
    → contains x (standing_ids st) ≡ true
    → contains y (standing_ids st) ≡ true
    → Counts st (do first ← bump x f st; bump y g first)
twice-Counts x y f g st keep keep' x_in y_in =
    let one = bump-Counts x f st keep x_in in
    let two = bump-Counts y g one.after keep' (ap (λ is. contains y is) one.same_ids ∙ y_in) in
    record {
      after = two.after;
      is_some = rw one.is_some two.is_some;
      same_ids = two.same_ids ∙ one.same_ids;
    }

nothing-Counts : (st : List Standing) → Counts st (some st)
nothing-Counts st = record { after = st; is_some = refl; same_ids = refl }

count_outcome-Counts :
    (o : Outcome) (x y : ℕ) (st : List Standing)
    → contains x (standing_ids st) ≡ true
    → contains y (standing_ids st) ≡ true
    → Counts st (count_outcome o x y st)
unfolding count_outcome
count_outcome-Counts Outcome.a x y st hx hy =
    twice-Counts x y win lose st (λ s. refl) (λ s. refl) hx hy
count_outcome-Counts Outcome.b x y st hx hy =
    twice-Counts y x win lose st (λ s. refl) (λ s. refl) hy hx
count_outcome-Counts draw x y st hx hy = twice-Counts x y tie tie st (λ s. refl) (λ s. refl) hx hy
count_outcome-Counts void x y st hx hy = nothing-Counts st

count_match-Counts :
    (m : BracketMatch) (st : List Standing)
    → OfSides (Known (standing_ids st)) m
    → Counts st (count_match m st)
unfolding count_match
count_match-Counts m st h = elim (Option-cases m.outcome) [
  | inl e ↦ rw (e, count_match) (nothing-Counts st)
  | inr (o, e) ↦ elim (Option-cases m.a) [
    | inl f ↦ rw (e, f, count_match) (nothing-Counts st)
    | inr (x, f) ↦ elim (Option-cases m.b) [
      | inl g ↦ rw (e, f, g, count_match) (nothing-Counts st)
      | inr (y, g) ↦
          rw (e, f, g, count_match)
            (count_outcome-Counts o x.id y.id st (subst (OfSide (Known (standing_ids st))) f h.a)
              (subst (OfSide (Known (standing_ids st))) g h.b))
    ]
  ]
]

count_matches-Counts :
    (ms : List BracketMatch) (st : List Standing)
    → All (OfSides (Known (standing_ids st))) ms
    → Counts st (count_matches ms st)
unfolding count_matches
count_matches-Counts [] st h = nothing-Counts st
count_matches-Counts (m ∷ ms) st h =
    let one = count_match-Counts m st h.0 in
    let rest =
      count_matches-Counts ms one.after
        (subst (λ is. All (OfSides (Known is)) ms) (sym one.same_ids) h.1) in
    record {
      after = rest.after;
      is_some = rw one.is_some rest.is_some;
      same_ids = rest.same_ids ∙ one.same_ids;
    }

standing_ids-no_results : (es : List Entrant) → standing_ids (map no_results es) ≡ entrant_ids es
standing_ids-no_results [] = refl
standing_ids-no_results (e ∷ es) = ap (λ is. e.id ∷ is) (standing_ids-no_results es)

-- The standings exist, and list every entrant once.
pub standings-perm :
    (t : Tournament)
    → All (OfSides (Known (entrant_ids t.entrants))) t.match_map
    → (st : List Standing) × (standings t ≡ some st)
      × Perm (standing_ids st) (entrant_ids t.entrants)
unfolding standings
standings-perm t h =
    let start = map no_results t.entrants in
    let ids = standing_ids-no_results t.entrants in
    let counted =
      count_matches-Counts t.match_map start
        (subst (λ is. All (OfSides (Known is)) t.match_map) (sym ids) h) in
    (
      sort ranks_before counted.after,
      rw counted.is_some refl,
      subst (λ is. Perm (standing_ids (sort ranks_before counted.after)) is)
          (counted.same_ids ∙ ids) (Perm.map (λ s. s.id) (sort-perm ranks_before counted.after)),
    )
