-- ===== src/Lib.antt =====
-- AMP tournaments: the TypeScript program under web/src that builds brackets, records the results of
-- matches, advances a tournament, ranks its entrants and stores what the organizer and the players
-- submit.
--
-- The parts and their files
--   Engine/Types         web/src/lib/engine/types.ts: entrants, matches, outcomes, standings
--   Engine/Seeding       web/src/lib/engine/seeding.ts: bitReverse, seedSlots, nextPow2
--   Engine/SingleElim    web/src/lib/engine/singleElim.ts: buildSingleElim
--   Engine/RoundRobin    web/src/lib/engine/roundRobin.ts: buildRoundRobin
--   Engine/Swiss         web/src/lib/engine/swiss.ts: SwissEntry, pairSwissRound
--   Engine/MatchMap      web/src/lib/engine/tournament.ts: the map of matches, advanceSingleElim
--   Engine/SwissResults  web/src/lib/engine/tournament.ts: applySwissResults
--   Engine/Tournament    web/src/lib/engine/tournament.ts: the class, with new, record and advance
--   Engine/Ranking       web/src/lib/engine/tournament.ts: standings and winners
--   Web/Attempt          calls that may throw
--   Web/Text, Web/Http   strings and their white space; responses and what the routes share
--   Web/Decimal          the numbers of the payments
--   Web/Store            web/src/lib/store.ts: the tables and the queries of PostgresStore
--   Web/Store/Ledger     what the queries promise, as maps, a set and a counter
--   Web/Keys             the foreign key of the brackets, and the routes that save them
--   Web/Auth, Web/Token  web/src/lib/auth.ts: requireOrganizer, generateManageToken
--   Web/Replay           web/src/app/api/tournament/[id]/report/route.ts: formatOf, reconstruct
--   Web/Report           web/src/app/api/tournament/[id]/report/route.ts: POST
--   Web/Finalize         web/src/app/api/tournament/[id]/finalize/route.ts: POST
--   Web/Init             web/src/app/api/tournament/[id]/init/route.ts: POST
--   Web/Login            web/src/app/api/tournament/[id]/auth/route.ts: POST
--   Web/Bracket          web/src/app/api/tournament/[id]/bracket/route.ts: PUT
--   Web/Reads            web/src/app/api/tournament/[id]/route.ts, web/src/app/api/tournaments/route.ts
--                        and web/src/app/api/job/[id]/route.ts: GET
--   Web/Paypal           web/src/lib/paypal.ts: the access token and the check of an order
--   Web/Capture          web/src/app/api/paypal/capture/route.ts: POST
--   Web/Webhook          web/src/app/api/webhooks/paypal/route.ts: POST
--   Web/CreateOrder      web/src/app/api/paypal/create-order/route.ts: POST
--   Web/Payments         the capture route and the webhook in any order
--   Web/Proxy            web/src/proxy.ts: the tiers of the rate limit
--   Client/Session       web/src/lib/amp.ts: the session in localStorage
--   Client/Api           web/src/lib/amp.ts: the calls to the matchmaker and the login
--   Client/Outcome       web/src/lib/amp.ts: reportOutcome
--   Client/Socket        web/src/lib/amp.ts: connectWs
--   Client/Cup           web/src/lib/ampCup.ts: the prize pool's contract and connectWallet
--   Client/Wallet        web/src/lib/wallet.ts: generateWallets, parseAddressList
--   Pages/Play           web/src/app/play/[id]/page.tsx: the player's match and the signed report
--   Pages/Setup          web/src/app/setup/page.tsx: the players and the wait for the tournament; its
--                        steps and controls in Steps, launchAvax and capturePaypal in Launch
--   Pages/Arena          web/src/app/arena/page.tsx: the phases of the matchmaker's page
--   Pages/Dashboard      web/src/app/dashboard/page.tsx: the organizer's login
--   Pages/Manage         web/src/app/manage/[id]/page.tsx: the organizer's bracket and its winners
--   Pages/Cup            web/src/app/cup/[id]/page.tsx: what the public page polls and shows
--   Pages/Claim          web/src/app/claim/page.tsx: the claim of a prize
--   Prelude              tests on numbers, lists, sorting, ranges and association lists
--   Examples             runs on concrete inputs and instances of the theorems
-- The child modules of a part hold its lemmas and are named for what they prove.
--
-- How the parts interact: `new` checks the entrants, has buildSingleElim or buildRoundRobin make the
-- matches or pairs the first Swiss round, and stores the matches in the map by id. `record` sets the
-- outcome of a ready match and calls `advance`, which moves winners along the links of a single
-- elimination, or closes a Swiss round and pairs the next one. `standings` and `winners` read the map.
-- The report route takes a nonce, replays the stored results on a new tournament to find the match,
-- and stores the report; two reports that agree become a result. The finalize route replays the
-- results of a complete tournament, stores the wallets of its winners and enqueues a job. The routes of
-- an organizer ask requireOrganizer; the init route and the login route give the token that it wants.
-- The capture route and the webhook share the funding intents, by which an order is claimed once.
-- The setup page funds a tournament and posts its payouts and players to the init or the capture route.
--
-- How the code is modelled
--   A method that changes the tournament takes the record `Tournament` and returns the new one;
--   `record_outcome` is the method `record`. A thrown TournamentError is a `Result`; in Engine/Ranking
--   the TypeError of a `!` on undefined is `none`. Ids, seeds and counts are natural numbers. A Map is
--   the list of its entries in insertion order, the order in which the code iterates. `sort` is a
--   stable insertion sort by the code's comparison. The score of a Swiss entry is kept doubled, for its
--   halves. The 32-bit integers of `<<` and `>>` are unsigned numbers below 2 ^ 32 with the wrap-around
--   and the sign bit written out.
--   A route takes the request, the database and what it reads from outside, and returns its response
--   and the new database: the time, random bytes, the signer that ethers.verifyMessage recovers and the
--   answers of PayPal are arguments. The numbers in a path and in a body are natural numbers, amounts are
--   exact decimals. A bracket is of the declared type: the route that stores a body's lists as they are
--   takes entries that are null too, which the model has not. saveBracket throws for a tournament that
--   is not stored, which `save_bracket` has; the routes, which save a bracket only for one that is, call
--   its query `upsert_bracket`. A callback of the browser is a step on the state of its closure, and the
--   steps come in any order; a handler of the arena page waits at each call while others run.
--
-- Bounds and fuel
--   nextPow2 runs on 32 rounds: after 32 shifts the number is 0 and stays 0. The loop of log2 runs on
--   as many rounds as the size, more than its logarithm. The loop of advanceSingleElim runs on
--   3 n + 1 passes for n matches: each pass but the last gives an outcome or one of two sides to a
--   match that had none.
--
-- Not modelled: the connection pool of the store; the rendering and the event wiring of the pages;
-- texts are not normalized, and lower case is that of ASCII; and the parts in other languages: the
-- server and match core, the relayer, the contracts.
pub mod Prelude
pub mod Engine
pub mod Web
pub mod Client
pub mod Pages
pub mod Examples
