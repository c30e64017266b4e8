-- ===== src/Engine/Ranking/Elimination.antt =====
-- Who is in the order of a single elimination.
use mathlib.Core.List.{Perm}
use mathlib.Core.List.Perm
use avax_build_games.Prelude.{
  ℕ, ◌≡◌, refl, sym, subst, ap, ◌∙◌, inl, inr, true, false, not, Option, none, some, List, [], ◌∷◌,
  ◌++◌, map, filter, sort-perm, contains, contains-append, Distinct, All, All-sort, All-find,
  insert, find, leb, arith, ◌==◌, ==_iff, Bool-cases, Option-cases,
}
use mathlib.Core.List.{append-nil, append_assoc}
use mathlib.Core.Option.{some-injective}
use avax_build_games.Engine.Types.{
  Entrant, BracketMatch, match_winner, match_winner-match_side, entrant_ids,
}
use avax_build_games.Engine.MatchMap.{by_id}
use avax_build_games.Engine.MatchMap.Sides.{OfSides, match_side-OfSide}
use avax_build_games.Engine.Tournament.{
  Tournament, ids_unique, ids_unique_from, is_decided_final, matches, champion,
}
use avax_build_games.Engine.Tournament.Unique.{ids_unique-Distinct}
use avax_build_games.Engine.Ranking.{
  match_loser, loser_side_of, elim_rounds, initial_rounds, seeds_of, eliminated_later, is_champion,
  first, single_elim_order,
}
use avax_build_games.Engine.Ranking.Totality.{Known}

abbrev keys : List (ℕ × Option ℕ) → List ℕ
keys er = map (λ (p : ℕ × Option ℕ). p.0) er

keys-insert_old :
    (k : ℕ) (v : Option ℕ) (er : List (ℕ × Option ℕ))
    → contains k (keys er) ≡ true
    → keys (insert k v er) ≡ keys er
keys-insert_old k v [] h = cc
keys-insert_old k v ((i, w) ∷ er) h = elim (Bool-cases (i == k)) [
  | inl e ↦ rw e refl
  | inr e ↦ rw e (ap (λ ks. i ∷ ks) (keys-insert_old k v er (ground (arith, h, e))))
]

keys-insert_new :
    (k : ℕ) (v : Option ℕ) (er : List (ℕ × Option ℕ))
    → contains k (keys er) ≡ false
    → keys (insert k v er) ≡ keys er ++ k ∷ []
keys-insert_new k v [] h = refl
keys-insert_new k v ((i, w) ∷ er) h =
    let other : (i == k) ≡ false = ground (arith, h) in
    rw other (ap (λ ks. i ∷ ks) (keys-insert_new k v er (ground (arith, h))))

keys-initial_rounds :
    (seen : List ℕ) (es : List Entrant) (er : List (ℕ × Option ℕ))
    → ((k : ℕ) → contains k seen ≡ contains k (keys er))
    → ids_unique_from seen es ≡ true
    → keys (initial_rounds es er) ≡ keys er ++ entrant_ids es
unfolding ids_unique_from
keys-initial_rounds seen [] er same unique = sym (append-nil (keys er))
keys-initial_rounds seen (e ∷ es) er same unique = elim (Bool-cases (contains e.id seen)) [
  | inl old ↦ cc (rw old at unique)
  | inr new ↦
      let grown = keys-insert_new e.id none er (sym (same e.id) ∙ new) in
      keys-initial_rounds (e.id ∷ seen) es (insert e.id none er)
        (λ k. known k (keys (insert e.id none er)) grown) (rw new at unique)
      ∙ ap (λ ks. ks ++ entrant_ids es) grown
      ∙ append_assoc (keys er) (e.id ∷ []) (entrant_ids es)
]
  where
    known :
        (k : ℕ) (ks : List ℕ) → ks ≡ keys er ++ e.id ∷ [] → contains k (e.id ∷ seen) ≡ contains k ks
    known k ks grown =
        let both = contains-append k (keys er) (e.id ∷ []) in
        rw (grown, both) (ground (arith, same k))

match_loser-Known :
    (known : List ℕ) (m : BracketMatch) (e : Entrant)
    → OfSides (Known known) m
    → match_loser m ≡ some e
    → Known known e
unfolding match_loser
match_loser-Known known m e h found = elim (Option-cases m.outcome) [
  | inl o ↦ cc (rw (o, match_loser) at found)
  | inr (o, decided) ↦ elim (Option-cases (loser_side_of o)) [
    | inl nobody ↦ cc (rw (decided, nobody, match_loser) at found)
    | inr (s, side) ↦
        match_side-OfSide (Known known) m s e h (rw (decided, side, match_loser) at found)
  ]
]

keys-elim_rounds :
    (ms : List BracketMatch) (er : List (ℕ × Option ℕ))
    → All (OfSides (Known (keys er))) ms
    → keys (elim_rounds ms er) ≡ keys er
unfolding elim_rounds
keys-elim_rounds [] er h = refl
keys-elim_rounds (m ∷ ms) er h = elim (Option-cases (match_loser m)) [
  | inl e ↦ rw (e, elim_rounds) (keys-elim_rounds ms er h.1)
  | inr (loser, e) ↦
      let there = match_loser-Known (keys er) m loser h.0 e in
      let kept = keys-insert_old loser.id (some m.round) er there in
      rw (e, elim_rounds)
        (keys-elim_rounds ms (insert loser.id (some m.round) er)
            (subst (λ is. All (OfSides (Known is)) ms) (sym kept) h.1)
          ∙ kept)
]

champion-Known :
    (known : List ℕ) (t : Tournament) (c : ℕ)
    → All (OfSides (Known known)) t.match_map
    → champion t ≡ some c
    → contains c known ≡ true
unfolding champion matches by_id
champion-Known known t c h found = elim (Option-cases (find is_decided_final (matches t))) [
  | inl e ↦ cc (rw (e, champion) at found)
  | inr (m, e) ↦ elim (Option-cases (match_winner m)) [
    | inl nobody ↦ cc (rw (e, nobody, champion) at found)
    | inr (w, winner) ↦
        let side = match_winner-match_side m w winner in
        let sorted = All-sort (λ x y. leb x.id y.id) (OfSides (Known known)) t.match_map h in
        let of_final = All-find (OfSides (Known known)) is_decided_final (matches t) m sorted e in
        let same = some-injective w.id c (rw (e, winner, champion) at found) in
        subst (λ i. contains i known ≡ true) same
          (match_side-OfSide (Known known) m side.0 w of_final side.1)
  ]
]

filter_gone : (c : ℕ) (ks : List ℕ) → contains c ks ≡ false → filter (λ k. not (c == k)) ks ≡ ks
filter_gone c [] h = refl
filter_gone c (k ∷ ks) h = ground (arith, filter_gone c ks, h)

-- A number that stands once, in front of the others.
to_front-perm :
    (c : ℕ) (ks : List ℕ)
    → Distinct ks
    → contains c ks ≡ true
    → Perm (c ∷ filter (λ k. not (c == k)) ks) ks
to_front-perm c [] d h = cc
to_front-perm c (k ∷ ks) d h = elim (Bool-cases (c == k)) [
  | inl e ↦
      let same = (==_iff c k).0 e in
      let gone = filter_gone c ks (ap (λ i. contains i ks) same ∙ d.0) in
      rw (e, gone) (subst (λ i. Perm (c ∷ ks) (i ∷ ks)) same Perm.rfl)
  | inr e ↦ rw e (
      Perm.trans (Perm.swap k c (filter (λ j. not (c == j)) ks))
        (Perm.cons k (to_front-perm c ks d.1 (ground (arith, h, e)))))
]

filter-no_champion : (ks : List ℕ) → filter (λ id. not (is_champion none id)) ks ≡ ks
filter-no_champion [] = refl
filter-no_champion (k ∷ ks) = ap (λ is. k ∷ is) (filter-no_champion ks)

champion_first-perm :
    (c : Option ℕ) (ks : List ℕ)
    → Distinct ks
    → ((id : ℕ) → c ≡ some id → contains id ks ≡ true)
    → Perm (first c ++ filter (λ id. not (is_champion c id)) ks) ks
champion_first-perm none ks d h = subst (λ is. Perm is ks) (sym (filter-no_champion ks)) Perm.rfl
champion_first-perm (some c) ks d h = to_front-perm c ks d (h c refl)

keys-single_elim :
    (t : Tournament)
    → ids_unique t.entrants ≡ true
    → All (OfSides (Known (entrant_ids t.entrants))) t.match_map
    → keys (elim_rounds t.match_map (initial_rounds t.entrants [])) ≡ entrant_ids t.entrants
unfolding ids_unique
keys-single_elim t unique h =
    let start = keys-initial_rounds [] t.entrants [] (λ k. refl) unique in
    keys-elim_rounds t.match_map (initial_rounds t.entrants [])
      (subst (λ is. All (OfSides (Known is)) t.match_map) (sym start) h)
    ∙ start

-- The order has every entrant once.
pub single_elim_order-perm :
    (t : Tournament)
    → ids_unique t.entrants ≡ true
    → All (OfSides (Known (entrant_ids t.entrants))) t.match_map
    → Perm (single_elim_order t) (entrant_ids t.entrants)
unfolding single_elim_order
single_elim_order-perm t unique h =
    let er = elim_rounds t.match_map (initial_rounds t.entrants []) in
    let rest = filter (λ id. not (is_champion (champion t) id)) (keys er) in
    let ids = keys-single_elim t unique h in
    Perm.trans
      (Perm.append_left (first (champion t))
        (sort-perm (eliminated_later er (seeds_of t.entrants [])) rest))
      (subst
        (λ ks.
          Perm (first (champion t) ++ filter (λ id. not (is_champion (champion t) id)) ks)
            (entrant_ids t.entrants))
        (sym ids)
        (champion_first-perm (champion t) (entrant_ids t.entrants)
          (ids_unique-Distinct t.entrants unique)
          (λ c e. champion-Known (entrant_ids t.entrants) t c h e)))
