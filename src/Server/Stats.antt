-- ===== src/Server/Stats.antt =====
-- server/nastdio.c: `do_stats`, with the three `_stats` functions that it calls. The lines that
-- `snprintf` formats are the parameter `Report`.
pub mod Texts
pub mod Sent
use nastd.Prelude.{ℕ, ◌+◌, ◌-◌, ◌*◌, ◌/◌, ◌<◌, ◌≡◌, arith, List, [], ◌∷◌, none, some}
use nastd.Prelude.Bytes.{Bytes}
use nastd.Prelude.Outcome.{fault}
use nastd.Array.{Array, array_new, va_array_add}
use nastd.Cdb.Load.{codes}
use nastd.Ipc.{nastok}
use nastd.Server.{Rc, Act, ◌>>=◌, alloc}
use nastd.Server.Respond.{arr_send_response}
use nastd.Server.Lookup.{failed}

-- the lines of the three databases, the uptime's from its four numbers, and the version's
pub record Report : Type 0 where
  pub mysqldb : Bytes
  pub cdb : List Bytes
  pub memdb : List Bytes
  pub uptime : ℕ → ℕ → ℕ → ℕ → Bytes
  pub version : Bytes

pub record Uptime : Type 0 where
  pub up_day : ℕ
  pub up_hour : ℕ
  pub up_min : ℕ
  pub up_sec : ℕ

unfoldable pub split_uptime : ℕ → Uptime
split_uptime uptime =
    let day = uptime / 86400 in
    let r₁ = uptime - day * 86400 in
    let hour = r₁ / 3600 in
    let r₂ = r₁ - hour * 3600 in
    let min = r₂ / 60 in
    record { up_day = day; up_hour = hour; up_min = min; up_sec = r₂ - min * 60 }

-- one step of the report: the lines, and the message where they cannot be added
unfoldable pub add_lines : ℕ → List Bytes → Bytes → (Array → Act Rc) → Array → Act Rc
add_lines reqid lines message next aa = alloc (va_array_add aa lines) >>= λ more. elim more [
  | none ↦ failed reqid message
  | some aa' ↦ next aa'
]

-- The `array_add` of one line at a time does what one `va_array_add` of them all does. The test for
-- NULL of `array_new` is missing.
unfoldable pub do_stats : Report → ℕ → ℕ → Act Rc
do_stats r uptime reqid =
    let up = split_uptime uptime in
    alloc array_new >>= λ block. elim block [
      | none ↦ λ s. fault
      | some aa ↦
          add_lines reqid (r.mysqldb ∷ []) (codes "Couldn't get stats from MySQL")
            (add_lines reqid r.cdb (codes "Couldn't get stats from cdb") (
              add_lines reqid r.memdb (codes "Couldn't get stats from memdb") (
                add_lines reqid (r.uptime up.up_day up.up_hour up.up_min up.up_sec ∷ [])
                  (codes "Couldn't return uptime")
                  (add_lines reqid (r.version ∷ []) (codes "Couldn't return version")
                    (arr_send_response reqid nastok)))))
            aa
    ]

-- The four numbers of the uptime make up the uptime, and the three below the days are in the range
-- of a clock's.
pub split_uptime_lem :
    (uptime : ℕ)
    → ((split_uptime uptime).up_day * 86400
          + (split_uptime uptime).up_hour * 3600
          + (split_uptime uptime).up_min * 60
          + (split_uptime uptime).up_sec
        ≡ uptime)
      × ((split_uptime uptime).up_hour < 24)
      × ((split_uptime uptime).up_min < 60)
      × ((split_uptime uptime).up_sec < 60)
unfolding split_uptime
split_uptime_lem uptime = (omega arith, omega arith, omega arith, omega arith)
