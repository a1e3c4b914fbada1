-- ===== src/Tests/Connect.antt =====
-- Connections of client/nastapi.c that are made, refused, and closed.
use nastd.Prelude.{◌≡◌, refl, [], ◌∷◌, none, some, true, false}
use nastd.Prelude.Outcome.{returns, fault}
use nastd.Client.Connect.{
  Handle, Calls, opened, free_responses, nast_sphincter_close, close_and_fail, nast_sphincter_new,
}
use nastd.Tests.Answers.{waiting}

abbrev good : Calls
good = record { heap = []; mutex_made = true; socket_made = true; connects = true }

abbrev connected : Handle
connected = record { nthreads = 0; responses = none; lock = true; socket = opened }

connects : nast_sphincter_new good ≡ returns (some connected)
unfolding nast_sphincter_new
connects = refl

refused : nast_sphincter_new (record good { connects = false }) ≡ returns none
unfolding nast_sphincter_new close_and_fail nast_sphincter_close free_responses
refused = refl

-- a descriptor that was never written is closed
no_lock : nast_sphincter_new (record good { heap = true ∷ false ∷ [] }) ≡ fault
unfolding nast_sphincter_new close_and_fail nast_sphincter_close
no_lock = refl

-- the responses are left behind
closes :
    nast_sphincter_close (record connected { nthreads = 2; responses = some waiting })
    ≡ returns waiting
unfolding nast_sphincter_close free_responses
closes = refl
