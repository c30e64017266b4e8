-- ===== src/Engine/MatchMap/Keeps.antt =====
-- What advancing winners leaves alone: the shape of the bracket and the outcomes that stand.
use avax_build_games.Prelude.{
  ℕ, zero, suc, ◌≡◌, refl, ap, sym, All, Option, none, Option-cases, subst, ◌∙◌, inl, inr, true,
  false, some, is_some, List, [], ◌∷◌, map, length, arith, Bool-cases, ◌==◌,
}
use mathlib.Core.Option.{some-injective}
use avax_build_games.Engine.Types.{
  MatchId, Side, Outcome, Entrant, WinnerTo, BracketMatch, outcome_winner, match_side,
}
use avax_build_games.Engine.SingleElim.Links.{Numbered}
use avax_build_games.Engine.MatchMap.{
  get_match, update_match, free_target, winner_update, bye_outcome, complete_bye, Update,
  collect_updates, set_side, apply_updates, advance_pass, advance_loop, advance_single_elim,
}

-- `n` is `m` later: the same match, no outcome changed, and no entrant moved from its side.
pub record Keeps (m n : BracketMatch) : Type 0 where
  pub id : n.id ≡ m.id
  pub round : n.round ≡ m.round
  pub slot : n.slot ≡ m.slot
  pub winner_to : n.winner_to ≡ m.winner_to
  pub outcome : (o : Outcome) → m.outcome ≡ some o → n.outcome ≡ some o
  pub a : (e : Entrant) → m.a ≡ some e → n.a ≡ some e
  pub b : (e : Entrant) → m.b ≡ some e → n.b ≡ some e

abbrev pub AllKeep : List BracketMatch → List BracketMatch → Type 0
AllKeep [] [] = Unit
AllKeep [] (n ∷ ns) = ⊥
AllKeep (m ∷ ms) [] = ⊥
AllKeep (m ∷ ms) (n ∷ ns) = Keeps m n × AllKeep ms ns

pub Keeps-refl : (m : BracketMatch) → Keeps m m
Keeps-refl m = record {
  id = refl;
  round = refl;
  slot = refl;
  winner_to = refl;
  outcome = λ o h. h;
  a = λ e h. h;
  b = λ e h. h;
}

pub Keeps-trans : {l m n : BracketMatch} → Keeps l m → Keeps m n → Keeps l n
Keeps-trans p q = record {
  id = q.id ∙ p.id;
  round = q.round ∙ p.round;
  slot = q.slot ∙ p.slot;
  winner_to = q.winner_to ∙ p.winner_to;
  outcome = λ o h. q.outcome o (p.outcome o h);
  a = λ e h. q.a e (p.a e h);
  b = λ e h. q.b e (p.b e h);
}

pub AllKeep-refl : (ms : List BracketMatch) → AllKeep ms ms
AllKeep-refl [] = tt
AllKeep-refl (m ∷ ms) = (Keeps-refl m, AllKeep-refl ms)

pub AllKeep-trans : (ks ms ns : List BracketMatch) → AllKeep ks ms → AllKeep ms ns → AllKeep ks ns
AllKeep-trans [] [] [] p q = tt
AllKeep-trans [] [] (n ∷ ns) p q = absurd q
AllKeep-trans [] (m ∷ ms) ns p q = absurd p
AllKeep-trans (k ∷ ks) [] ns p q = absurd p
AllKeep-trans (k ∷ ks) (m ∷ ms) [] p q = absurd q
AllKeep-trans (k ∷ ks) (m ∷ ms) (n ∷ ns) p q = (Keeps-trans p.0 q.0, AllKeep-trans ks ms ns p.1 q.1)

complete_bye-Keeps : (m : BracketMatch) → Keeps m (complete_bye m)
unfolding complete_bye bye_outcome
complete_bye-Keeps m = record {
  id = ground arith;
  round = ground arith;
  slot = ground arith;
  winner_to = ground arith;
  outcome = λ o h. ground arith;
  a = λ e h. ground arith;
  b = λ e h. ground arith;
}

map-complete_bye-AllKeep : (ms : List BracketMatch) → AllKeep ms (map complete_bye ms)
map-complete_bye-AllKeep [] = tt
map-complete_bye-AllKeep (m ∷ ms) = (complete_bye-Keeps m, map-complete_bye-AllKeep ms)

-- A write to a side that was free at first, in `m`, and that the match `n` may have got meanwhile.
set_side-Keeps :
    (s : Side) (e : Entrant) (m n : BracketMatch)
    → match_side m s ≡ none
    → Keeps m n
    → Keeps m (set_side s e n)
unfolding set_side match_side
set_side-Keeps Side.a e m n free k = record {
  id = k.id;
  round = k.round;
  slot = k.slot;
  winner_to = k.winner_to;
  outcome = k.outcome;
  a = λ x h. cc (free, h);
  b = k.b;
}
set_side-Keeps Side.b e m n free k = record {
  id = k.id;
  round = k.round;
  slot = k.slot;
  winner_to = k.winner_to;
  outcome = k.outcome;
  a = k.a;
  b = λ x h. cc (free, h);
}

pub update_match-AllKeep :
    (id : MatchId) (f : BracketMatch → BracketMatch) (ms : List BracketMatch)
    → ((m : BracketMatch) → get_match id ms ≡ some m → Keeps m (f m))
    → AllKeep ms (update_match id f ms)
unfolding update_match
update_match-AllKeep id f [] h = tt
update_match-AllKeep id f (m ∷ ms) h = elim (Bool-cases (m.id == id)) [
  | inl e ↦ rw (e, update_match) (h m (rw e), AllKeep-refl ms)
  | inr e ↦
      rw (e, update_match)
        (Keeps-refl m, update_match-AllKeep id f ms (λ n found. h n (rw e found)))
]

-- The side that the update writes is free in `ms`.
abbrev IsFree : List BracketMatch → Update → Type 0
IsFree ms u = (m : BracketMatch) → get_match u.tgt ms ≡ some m → match_side m u.side ≡ none

abbrev OfUpdate : List BracketMatch → Option Update → Type 0
OfUpdate ms none = Unit
OfUpdate ms (some u) = IsFree ms u

not_some : (x : Option Entrant) → is_some x ≡ false → x ≡ none
not_some none h = refl
not_some (some e) h = cc

free_target-some :
    (ms : List BracketMatch) (w : WinnerTo) (e : Entrant) (target : BracketMatch)
    → get_match w.match_id ms ≡ some target
    → is_some (match_side target w.side) ≡ false
    → free_target ms w e ≡ some (record { tgt = w.match_id; side = w.side; winner = e })
unfolding free_target
free_target-some ms w e target found free = rw (found, free, free_target) refl

free_target-OfUpdate :
    (ms : List BracketMatch) (w : WinnerTo) (e : Entrant) → OfUpdate ms (free_target ms w e)
unfolding free_target
free_target-OfUpdate ms w e = elim (Option-cases (get_match w.match_id ms)) [
  | inl missing ↦ rw (missing, free_target) tt
  | inr (target, found) ↦ elim (Bool-cases (is_some (match_side target w.side))) [
    | inl taken ↦ rw (found, taken, free_target) tt
    | inr free ↦ subst (OfUpdate ms) (sym (free_target-some ms w e target found free)) λ m found'.
        ap (λ t. match_side t w.side) (some-injective m target (sym found' ∙ found))
        ∙ not_some (match_side target w.side) free
  ]
]

winner_update-OfUpdate :
    (ms : List BracketMatch) (m : BracketMatch) → OfUpdate ms (winner_update ms m)
unfolding winner_update
winner_update-OfUpdate ms m = elim (Option-cases m.outcome) [
  | inl e ↦ rw (e, winner_update) tt
  | inr (o, e) ↦ elim (Option-cases m.winner_to) [
    | inl e' ↦ rw (e, e', winner_update) tt
    | inr (w, e') ↦ elim (Option-cases (outcome_winner o)) [
      | inl e'' ↦ rw (e, e', e'', winner_update) tt
      | inr (s, e'') ↦ elim (Option-cases (match_side m s)) [
        | inl f ↦ rw (e, e', e'', f, winner_update) tt
        | inr (winner, f) ↦ rw (e, e', e'', f, winner_update) (free_target-OfUpdate ms w winner)
      ]
    ]
  ]
]

collect_updates-IsFree : (ms rest : List BracketMatch) → All (IsFree ms) (collect_updates ms rest)
unfolding collect_updates
collect_updates-IsFree ms [] = tt
collect_updates-IsFree ms (m ∷ rest) =
    let first = winner_update-OfUpdate ms m in
    elim (Option-cases (winner_update ms m)) [
      | inl e ↦ rw (e, collect_updates) (collect_updates-IsFree ms rest)
      | inr (u, e) ↦ rw (e, collect_updates) (rw e at first, collect_updates-IsFree ms rest)
    ]

update_later-AllKeep :
    (id : MatchId) (f : BracketMatch → BracketMatch) (ms ns : List BracketMatch)
    → AllKeep ms ns
    → ((m n : BracketMatch) → get_match id ms ≡ some m → Keeps m n → Keeps m (f n))
    → AllKeep ms (update_match id f ns)
unfolding update_match
update_later-AllKeep id f [] [] k h = tt
update_later-AllKeep id f [] (n ∷ ns) k h = absurd k
update_later-AllKeep id f (m ∷ ms) [] k h = absurd k
update_later-AllKeep id f (m ∷ ms) (n ∷ ns) k h = elim (Bool-cases (m.id == id)) [
  | inl e ↦
      let e' : (n.id == id) ≡ true = rw k.0.id e in
      rw (e', update_match) (h m n (rw e refl) k.0, k.1)
  | inr e ↦
      let e' : (n.id == id) ≡ false = rw k.0.id e in
      rw (e', update_match)
        (k.0, update_later-AllKeep id f ms ns k.1 (λ m' n' found. h m' n' (rw e found)))
]

apply_updates-AllKeep :
    (us : List Update) (ms ns : List BracketMatch)
    → All (IsFree ms) us
    → AllKeep ms ns
    → AllKeep ms (apply_updates us ns)
unfolding apply_updates
apply_updates-AllKeep [] ms ns free k = k
apply_updates-AllKeep (u ∷ us) ms ns free k =
    apply_updates-AllKeep us ms (update_match u.tgt (set_side u.side u.winner) ns) free.1 (
      update_later-AllKeep u.tgt (set_side u.side u.winner) ms ns k
        (λ m n found kept. set_side-Keeps u.side u.winner m n (free.0 m found) kept))

advance_pass-AllKeep : (ms : List BracketMatch) → AllKeep ms (advance_pass ms).0
unfolding advance_pass
advance_pass-AllKeep ms =
    let done = map complete_bye ms in
    AllKeep-trans ms done _ (map-complete_bye-AllKeep ms) (
      apply_updates-AllKeep (collect_updates done done) done done (collect_updates-IsFree done done)
        (AllKeep-refl done))

advance_loop-AllKeep : (fuel : ℕ) (ms : List BracketMatch) → AllKeep ms (advance_loop fuel ms)
unfolding advance_loop
advance_loop-AllKeep zero ms = AllKeep-refl ms
advance_loop-AllKeep (suc fuel) ms = elim (Bool-cases (advance_pass ms).1) [
  | inl more ↦
      rw (more, advance_loop)
        (AllKeep-trans ms (advance_pass ms).0 _ (advance_pass-AllKeep ms)
          (advance_loop-AllKeep fuel (advance_pass ms).0))
  | inr done ↦ rw (done, advance_loop) (advance_pass-AllKeep ms)
]

-- Advancing keeps every match in its place with its id, round, slot and target; an outcome once set
-- stays what it is, and a side once taken keeps its entrant.
pub advance_single_elim-AllKeep : (ms : List BracketMatch) → AllKeep ms (advance_single_elim ms)
unfolding advance_single_elim
advance_single_elim-AllKeep ms = advance_loop-AllKeep _ ms

pub AllKeep-Numbered :
    (s : ℕ) (ms ns : List BracketMatch) → AllKeep ms ns → Numbered s ms → Numbered s ns
AllKeep-Numbered s [] [] k h = tt
AllKeep-Numbered s [] (n ∷ ns) k h = absurd k
AllKeep-Numbered s (m ∷ ms) [] k h = absurd k
AllKeep-Numbered s (m ∷ ms) (n ∷ ns) k h = (k.0.id ∙ h.0, AllKeep-Numbered (suc s) ms ns k.1 h.1)

pub AllKeep-length : (ms ns : List BracketMatch) → AllKeep ms ns → length ns ≡ length ms
AllKeep-length [] [] k = refl
AllKeep-length [] (n ∷ ns) k = absurd k
AllKeep-length (m ∷ ms) [] k = absurd k
AllKeep-length (m ∷ ms) (n ∷ ns) k = ap suc (AllKeep-length ms ns k.1)

-- The match that an id finds is found later too.
pub AllKeep-get_match :
    (id : MatchId) (ms ns : List BracketMatch) (m : BracketMatch)
    → AllKeep ms ns
    → get_match id ms ≡ some m
    → (n : BracketMatch) × (get_match id ns ≡ some n) × Keeps m n
AllKeep-get_match id [] ns m k h = cc
AllKeep-get_match id (x ∷ ms) [] m k h = absurd k
AllKeep-get_match id (x ∷ ms) (y ∷ ns) m k h = elim (Bool-cases (x.id == id)) [
  | inl e ↦
      let same : x ≡ m = ground arith in
      let e' : (y.id == id) ≡ true = rw k.0.id e in (y, rw e', subst (λ z. Keeps z y) same k.0)
  | inr e ↦
      let e' : (y.id == id) ≡ false = rw k.0.id e in
      let (n, found, kept) = AllKeep-get_match id ms ns m k.1 (rw e at h) in (n, rw e' found, kept)
]
