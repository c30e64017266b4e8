-- ===== src/Pages/Play/Signed.antt =====
-- The report of the player's page and the route that takes it.
use avax_build_games.Prelude.{
  ℕ, ◌+◌, ◌≤◌, ◌<◌, ◌≡◌, refl, ◌∙◌, sym, ap, subst, false, Option, some, arith, ◌==◌,
}
use avax_build_games.Web.Text.{Text, ===_refl, is_empty_text, lower}
use avax_build_games.Web.Http.{Attempt, returned, returned-injective, expired, body_too_large}
use avax_build_games.Web.Store.{Db, ReportSide}
use avax_build_games.Web.Report.{
  Report, ReportBody, read_report, report_message, report_fresh, report_read, report,
}
use avax_build_games.Web.Report.Nonces.{report_at}
use avax_build_games.Pages.Play.{
  Pressed, pressed_text, reported_outcome, play_message, play_report, signed_body,
}

-- The outcome that is sent is the one of the button, whichever side the player is on.
pub reported_outcome-pressed :
    (pressed : Pressed) (side : ReportSide) → reported_outcome pressed side ≡ pressed_text pressed
unfolding reported_outcome
reported_outcome-pressed Pressed.a ReportSide.a = refl
reported_outcome-pressed Pressed.a ReportSide.b = refl
reported_outcome-pressed Pressed.b ReportSide.a = refl
reported_outcome-pressed Pressed.b ReportSide.b = refl
reported_outcome-pressed Pressed.draw ReportSide.a = refl
reported_outcome-pressed Pressed.draw ReportSide.b = refl

-- The report that the route reads.
abbrev pub sent_report : Text → ℕ → Text → Text → ℕ → Text → Report
sent_report wallet match_id outcome nonce ts sig = record {
  wallet = wallet;
  match_id = match_id;
  outcome = outcome;
  nonce = nonce;
  ts = ts;
  sig = sig;
}

-- What the page sends when the wallet signs.
abbrev sent_body : Report → ReportBody
sent_body r = record {
  wallet = some r.wallet;
  match_id = some r.match_id;
  outcome = some r.outcome;
  nonce = some r.nonce;
  ts = some r.ts;
  sig = some r.sig;
}

pressed_text-nonempty : (pressed : Pressed) → is_empty_text (pressed_text pressed) ≡ false
pressed_text-nonempty Pressed.a = refl
pressed_text-nonempty Pressed.b = refl
pressed_text-nonempty Pressed.draw = refl

read_report-sent :
    (r : Report)
    → is_empty_text r.wallet ≡ false
    → is_empty_text r.outcome ≡ false
    → is_empty_text r.nonce ≡ false
    → (r.ts == 0) ≡ false
    → is_empty_text r.sig ≡ false
    → read_report (sent_body r) ≡ some r
unfolding read_report
read_report-sent r w o n t s = rw (w, o, n, t, s) refl

pub expired-within :
    (window now ts : ℕ) → ts ≤ now + window → now ≤ ts + window → expired window now ts ≡ false
unfolding expired
expired-within window now ts lo hi = ground (arith, lo, hi)

body_too_large-small : (n : ℕ) → n ≤ 65536 → body_too_large n ≡ false
unfolding body_too_large
body_too_large-small n h = ground (arith, h)

pub zero_test : (n : ℕ) → 0 < n → (n == 0) ≡ false
zero_test n h = ground (arith, h)

play_message-report :
    (tid : ℕ) (r : Report)
    → play_message tid r.match_id r.outcome r.nonce r.ts ≡ report_message tid r
unfolding play_message report_message
play_message-report tid r = refl

play_report-sent :
    (sign_message : Text → Attempt Text) (tid : ℕ) (r : Report)
    → sign_message (play_message tid r.match_id r.outcome r.nonce r.ts) ≡ returned r.sig
    → play_report sign_message r.wallet tid r.match_id r.outcome r.nonce r.ts
      ≡ returned (sent_body r)
unfolding play_report signed_body
play_report-sent sign_message tid r h = rw h refl

report_read-signed :
    (now : ℕ) (recover : Text → Text → Option Text) (tid : ℕ) (r : Report) (db : Db) (signer : Text)
    → expired 60 now r.ts ≡ false
    → recover (report_message tid r) r.sig ≡ some signer
    → lower signer ≡ lower r.wallet
    → report_read now recover tid r db ≡ report_fresh tid r db
unfolding report_read
report_read-signed now recover tid r db signer e e' same =
    rw (e, e', same, ===_refl (lower r.wallet)) refl

-- The page signs the message that the route recovers the signer of. So when the wallet signs, the
-- signature recovers to the wallet's address, the fields are not empty and the request arrives within
-- 60 seconds, then the route gets as far as the nonce: it answers as `report_fresh` does.
pub play_report-report :
    (now : ℕ) (recover : Text → Text → Option Text) (sign_message : Text → Attempt Text)
    (wallet : Text) (tid match_id : ℕ) (pressed : Pressed) (side : ReportSide) (nonce : Text)
    (ts : ℕ) (sig signer : Text) (content_length : ℕ) (body : ReportBody) (db : Db)
    → let outcome = reported_outcome pressed side in
      sign_message (play_message tid match_id outcome nonce ts) ≡ returned sig
      → recover (play_message tid match_id outcome nonce ts) sig ≡ some signer
      → lower signer ≡ lower wallet
      → play_report sign_message wallet tid match_id outcome nonce ts ≡ returned body
      → is_empty_text wallet ≡ false
      → is_empty_text nonce ≡ false
      → is_empty_text sig ≡ false
      → 0 < ts
      → ts ≤ now + 60
      → now ≤ ts + 60
      → content_length ≤ 65536
      → report now recover
          (record { content_length = content_length; tid = some tid; body = body })
          db
        ≡ report_fresh tid (sent_report wallet match_id (pressed_text pressed) nonce ts sig) db
play_report-report now recover sign_message wallet tid match_id pressed side nonce ts sig signer
      content_length body db signed recovered same sent w n s t lo hi small =
    let outcome = reported_outcome-pressed pressed side in
    let r = sent_report wallet match_id (pressed_text pressed) nonce ts sig in
    let signed' : sign_message (play_message tid match_id (pressed_text pressed) nonce ts)
        ≡ returned sig =
      rw outcome at signed in
    let recovered' : recover (play_message tid match_id (pressed_text pressed) nonce ts) sig
        ≡ some signer =
      rw outcome at recovered in
    let sent' : play_report sign_message wallet tid match_id (pressed_text pressed) nonce ts
        ≡ returned body =
      rw outcome at sent in
    let is_body : sent_body r ≡ body =
      returned-injective (sent_body r) body
        (sym (play_report-sent sign_message tid r signed') ∙ sent') in
    subst
      (λ b.
        report now recover (record { content_length = content_length; tid = some tid; body = b }) db
        ≡ report_fresh tid r db)
      is_body
      (report_at now recover
          (record { content_length = content_length; tid = some tid; body = sent_body r }) db tid r
          (body_too_large-small content_length small) refl
          (read_report-sent r w (pressed_text-nonempty pressed) n (zero_test ts t) s)
        ∙ report_read-signed now recover tid r db signer (expired-within 60 now ts lo hi)
            (sym (ap (λ m. recover m sig) (play_message-report tid r)) ∙ recovered') same)
