-- ===== src/Server/Options/Keeping.antt =====
-- A request for the options is kept, and answered.
use nastd.Prelude.{ℕ, ◌+◌, ◌≤◌, ◌≡◌, arith, [], ◌∷◌, ◌++◌, length}
use nastd.Prelude.Bytes.{Bytes}
use nastd.Prelude.Fields.{join}
use nastd.Prelude.Outcome.{returns}
use nastd.Thread.{rw_mutex_new, rw_mutex_read_lock, rw_mutex_write_lock, rw_mutex_unlock}
use nastd.Array.{array_new, va_array_add, string_new}
use nastd.Ipc.{NastOptions, nastok}
use nastd.Server.{Server, ClientOpts, ◌>>=◌}
use nastd.Server as Srv
use nastd.Server.Respond.{send_response}
use nastd.Server.Respond.Sent.{response, arr_send_response_fits}
use nastd.Server.Options.{opt_bytes, do_opt_set, do_opt_get, with_lock, release_lock, store_options}
use nastd.Server.Options.Kept.{set_options-opt_bytes}

-- a server that has kept options and sent bytes
abbrev pub keeping : NastOptions → Bytes → Server → Server
keeping o bytes s = record s {
  cops = record { sock = s.cops.sock; opts = o; opt_lk = rw_mutex_new };
  heap = [];
  net = [];
  sent = s.sent ++ bytes;
}

-- a response of at most one item, where there is memory and the socket takes what it is given
send_response_none :
    (reqid : ℕ) (s : Server)
    → s.heap ≡ []
    → s.net ≡ []
    → send_response reqid nastok [] s
      ≡ returns
          (Srv.ok, record s { heap = []; net = []; sent = s.sent ++ response reqid nastok [] })
unfolding send_response array_new va_array_add join
send_response_none reqid s memory whole =
    rw (memory, send_response)
      (arr_send_response_fits reqid nastok [] (record s { heap = [] }) (omega arith) whole)

send_response_one :
    (reqid : ℕ) (x : Bytes) (s : Server)
    → s.heap ≡ []
    → s.net ≡ []
    → 5 + length x ≤ 1024
    → send_response reqid nastok (x ∷ []) s
      ≡ returns (
        Srv.ok,
        record s { heap = []; net = []; sent = s.sent ++ response reqid nastok (x ∷ []) },
      )
unfolding send_response array_new va_array_add string_new join
send_response_one reqid x s memory whole fits =
    rw (memory, send_response)
      (arr_send_response_fits reqid nastok (x ∷ []) (record s { heap = [] }) (omega (arith, fits))
        whole)

pub do_opt_set-keeping :
    (reqid : ℕ) (o : NastOptions) (s : Server)
    → s.cops.opt_lk ≡ rw_mutex_new
    → s.heap ≡ []
    → s.net ≡ []
    → do_opt_set reqid 0 (opt_bytes o) s ≡ returns (Srv.ok, keeping o (response reqid nastok []) s)
unfolding do_opt_set with_lock release_lock store_options join rw_mutex_write_lock rw_mutex_unlock
do_opt_set-keeping reqid o s free memory whole =
    rw (free, with_lock)
      (rw (set_options-opt_bytes 0 o s.cops.opts) (send_response_none reqid _ memory whole))

pub do_opt_get-keeping :
    (reqid : ℕ) (s : Server)
    → s.cops.opt_lk ≡ rw_mutex_new
    → s.heap ≡ []
    → s.net ≡ []
    → do_opt_get reqid s
      ≡ returns (Srv.ok, keeping s.cops.opts (response reqid nastok (opt_bytes s.cops.opts ∷ [])) s)
unfolding do_opt_get with_lock release_lock opt_bytes join rw_mutex_read_lock rw_mutex_unlock
do_opt_get-keeping reqid s free memory whole =
    rw (free, with_lock)
      (send_response_one reqid (opt_bytes s.cops.opts) _ memory whole (omega arith))
