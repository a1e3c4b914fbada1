-- ===== src/Server/Command/One.antt =====
-- One whole request in one read.
use mathlib.Core.Path.{subst}
use mathlib.Core.List.{append-nil}
use nastd.Prelude.{ℕ, ◌≡◌, refl, ◌∙◌, [], ◌∷◌, ◌++◌, some, length}
use nastd.Prelude.Bytes.{Bytes}
use nastd.Prelude.Outcome.{returns}
use nastd.Server.{Server, ok, ◌>>=◌}
use nastd.Server.Stats.{Report}
use nastd.Server.Command.{process_cmd}
use nastd.Server.Command.Frames.{
  Call, Fits, encode, encode_all, serve, serve_all, process_cmd-serve_all,
}

module _ (md5_calc : Bytes → Bytes) (now timeout uptime : ℕ) (report : Report) where
  -- one request that is served, where the handler returns 0
  pub process_cmd-serve :
      (call : Call) (stale : Bytes) (s t : Server)
      → Fits call
      → serve md5_calc now timeout uptime report call s ≡ returns (ok, t)
      → process_cmd md5_calc now timeout uptime report 2
          (encode call ++ stale)
          (length (encode call))
          s
        ≡ returns (some ok, t)
  unfolding serve_all
  process_cmd-serve call stale s t f e =
      let one : encode_all (call ∷ []) ≡ encode call = append-nil (encode call) in
      subst
        (λ b.
          process_cmd md5_calc now timeout uptime report 2 (b ++ stale) (length b) s
          ≡ serve_all md5_calc now timeout uptime report (call ∷ []) s)
        one (process_cmd-serve_all md5_calc now timeout uptime report call [] stale s (f, tt))
      ∙ rw (e, ◌>>=◌) refl
