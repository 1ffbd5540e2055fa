-- ===== src/Server/Watchdog.antt =====
-- The main thread of the worker (crates/pg_resp/src/lib.rs): its settings, and the watchdog that
-- probes the server thread over TCP. Settings and the latch are Postgres's and come as arguments.

pub mod Strikes
use pg_resp.Prelude.{
  bytes_eq, ◌==◌, ℕ, zero, suc, ◌+◌, ◌*◌, ◌%◌, ◌||◌, ◌&&◌, Bool, true, false, not, Option, none,
  some, List, [], ◌∷◌, ◌++◌, Bytes, codes, leb, nat_beq, if◌then◌else◌,
}
use pg_resp.Prelude.Int.{ℤ, pos, negsuc, u64_mod}
use pg_resp.Decimal.{to_string}
use pg_resp.Client.{
  Client, new_client, with_timeout, disconnect, World, Texts, Outcome, ok, err, nonempty_password,
}
use pg_resp.Client.Commands.{probe, Call}

-- in nanoseconds
abbrev pub watchdog_interval : ℕ
watchdog_interval = 3000000000

abbrev pub watchdog_strikes : ℕ
watchdog_strikes = 3

-- `pg_resp.max_memory`, in megabytes, and `pg_resp.eviction`.
abbrev pub megabytes : ℤ → Option ℕ
megabytes (pos zero) = none
megabytes (pos (suc mb)) = some ((suc mb * 1024 * 1024) % u64_mod)
megabytes (negsuc mb) = none

unfoldable pub max_memory_bytes : ℤ → Bytes → Option ℕ
max_memory_bytes mb eviction = if eviction == codes "noeviction" then none else megabytes mb

unfoldable pub loopback_host : Bytes → Bytes
loopback_host bind =
    if bind == codes "0.0.0.0" || bind == []
    then codes "127.0.0.1"
    else if bind == codes "::" || bind == codes "[::]" || bind == codes "::0"
    then codes "::1"
    else bind

abbrev pub contains : ℕ → Bytes → Bool
contains b [] = false
contains b (c ∷ s) = nat_beq c b || contains b s

abbrev pub starts_with : ℕ → Bytes → Bool
starts_with b [] = false
starts_with b (c ∷ s) = nat_beq c b

abbrev pub socket_address : Bytes → ℤ → Bytes
socket_address host port =
    if contains b':' host && not (starts_with b'[' host)
    then codes "[" ++ (host ++ (codes "]:" ++ to_string port))
    else host ++ (codes ":" ++ to_string port)

-- Where a backend connects, and with what password.
unfoldable pub loopback_target : Bytes → ℤ → Option Bytes → Bytes × Option Bytes
loopback_target bind port password =
    (socket_address (loopback_host bind) port, nonempty_password password)

-- The probe's client and the count of failed probes.
pub record Watch : Type 0 where
  pub probe : Client
  pub strikes : ℕ

abbrev pub first_watch : Bytes × Option Bytes → Watch
first_watch (addr, password) = record {
  probe = with_timeout watchdog_interval (new_client addr password);
  strikes = 0;
}

-- `restarting` is `fatal_restart`, with its message.
pub data Watched : Type 0 where
  watching : Watch → World → Watched
  restarting : Bytes → Watched

abbrev pub struck : Client → ℕ → World → Watched
struck cl strikes w =
    if leb watchdog_strikes strikes
    then restarting (codes "pg_resp RESP service stopped answering")
    else watching (record { probe = disconnect cl; strikes = strikes }) w

abbrev pub probed : ℕ → Call Unit → Watched
probed strikes (cl, w, ok u) = watching (record { probe = cl; strikes = 0 }) w
probed strikes (cl, w, err e) = struck cl (suc strikes) w

-- One turn of the loop; the Boolean is `server_died`.
unfoldable pub watch_once : Texts → Bool → Watch → World → Watched
watch_once x server_died v w =
    if server_died
    then restarting (codes "pg_resp server thread exited unexpectedly")
    else probed v.strikes (probe x v.probe w)

abbrev pub go_on : (Watch → World → Watched) → Watched → Watched
go_on next (watching v w) = next v w
go_on next (restarting reason) = restarting reason

-- The loop. `server_died` is a value for each wakeup, and the list ends at the shutdown latch.
unfoldable pub watch : Texts → List Bool → Watch → World → Watched
watch x [] v w = watching v w
watch x (server_died ∷ later) v w = go_on (watch x later) (watch_once x server_died v w)
