-- ===== src/Examples/Client.antt =====
-- Runs of the modules of the browser, and instances of their theorems.
use avax_build_games.Prelude.{◌≡◌, refl, true, false, Bool, none, some, [], ◌∷◌, arith}
use avax_build_games.Web.Text.{Text, codes, trim}
use avax_build_games.Web.Http.{returned}
use avax_build_games.Client.Session.{LocalStorage, stored_session}
use avax_build_games.Client.Socket.{Socket, start, connect_ws, open_socket, on_close}
use avax_build_games.Client.Socket.Steps.{
  Steps, stays, goes, closes, IsSingle, connect_ws-IsSingle, IsAlive, HasSession,
  connect_ws-IsAlive,
}
use avax_build_games.Client.Cup.{CupEnv, Injected, switched, connect_wallet}
use avax_build_games.Client.Wallet.{parse_address_list, split_separators, is_separator}
use avax_build_games.Client.Wallet.Parse.{IsEntry}

abbrev storage : LocalStorage
storage = record { session_token = some (codes "t"); session_wallet = some (codes "0xab") }

storage-HasSession : HasSession storage
unfolding stored_session
storage-HasSession = refl

abbrev opened : Socket
opened = record { closed = false; attempt = 0; sockets = 1; timers = [] }

connect-opened : connect_ws storage ≡ opened
unfolding connect_ws open_socket start stored_session
connect-opened = refl

-- The first socket closes.
one_closed : Steps HasSession (connect_ws storage) (on_close (connect_ws storage))
one_closed =
    goes (closes (connect_ws storage) (rw connect-opened (omega arith)))
      (stays (on_close (connect_ws storage)))

connect_ws-IsSingle_example : IsSingle (on_close (connect_ws storage))
connect_ws-IsSingle_example =
    connect_ws-IsSingle HasSession storage (on_close (connect_ws storage)) one_closed

connect_ws-IsAlive_example : IsAlive (on_close (connect_ws storage))
connect_ws-IsAlive_example =
    connect_ws-IsAlive storage (on_close (connect_ws storage)) storage-HasSession one_closed

abbrev pub cup_env : CupEnv
cup_env = record { cup_address = none; chain_id = none; rpc_url = none; explorer_url = none }

abbrev pub injected : Injected
injected = record {
  request_accounts = returned (codes "0xab");
  chain_before = 1;
  switch_chain = λ chain. switched;
  add_chain = λ params. returned [];
  chain_after = 43113;
}

pub injected-connected : connect_wallet cup_env (some injected) ≡ returned 43113
unfolding connect_wallet
injected-connected = refl

abbrev is_prefixed : Text → Bool
is_prefixed [] = false
is_prefixed (c ∷ s) = true

comma-separates : is_separator b',' ≡ true
unfolding is_separator
comma-separates = refl

wallet-IsEntry : IsEntry is_prefixed (codes "0xab")
unfolding is_separator
wallet-IsEntry = record { solid = ground arith; filled = refl; address = refl }

parsed_list :
    parse_address_list is_prefixed (codes " 0xab, 0xcd") ≡ codes "0xab" ∷ codes "0xcd" ∷ []
unfolding parse_address_list split_separators trim
parsed_list = refl
