-- ===== src/Tests/Samples.antt =====
-- A server with two keys, one with a deadline, and what it runs in.
use pg_resp.Prelude.{bytes_eq, bytes_beq, refl, true, false, none, some, [], ◌∷◌, Bytes, codes}
use mathlib.Core.List.Permᴰ
use pg_resp.Prelude.Int.{pos}
use pg_resp.HashMap.{HashOrder, lookup}
use pg_resp.Store.Types.{Entry, Store, RandomState}
use pg_resp.Store.Account.{empty_registry}
use pg_resp.Store.Account.Valid.{IsValid}
use pg_resp.Dispatch.Runtime.{Runtime, Context, ConnState}

abbrev pub same_order : {A : Type 0} → HashOrder A
same_order = record { order = λ l. l; order_perm = λ l. Permᴰ.refl l }

abbrev pub seeds : RandomState
seeds = record { entries = same_order; cursors = same_order }

abbrev pub runtime : Runtime
runtime = record {
  hash = seeds;
  to_uppercase = λ s. s;
  from_utf8_lossy = λ s. s;
  pkg_version = codes "0.1.0";
}

abbrev pub hits : Bytes
hits = codes "hits"

abbrev pub name : Bytes
name = codes "name"

-- 7 until 5 s
abbrev pub hits_entry : Entry
hits_entry = record { value = codes "7"; expires_at = some 5000000000; clock_bit = true }

abbrev pub name_entry : Entry
name_entry = record { value = codes "antique"; expires_at = none; clock_bit = false }

-- 101 and 107 bytes under a budget of 250
abbrev pub two_keys : Store
two_keys = record {
  map = (hits, hits_entry) ∷ (name, name_entry) ∷ [];
  used_bytes = 208;
  max_memory_bytes = some 250;
  scan_registry = empty_registry;
  hits = 3;
  misses = 1;
  evictions = 0;
}

pub two_keys-IsValid : IsValid two_keys
unfolding bytes_beq lookup
two_keys-IsValid = record { distinct = (refl, (refl, tt)); accounted = refl }

-- both keys have expired after 9 s
abbrev pub two_expired : Store
two_expired = record two_keys {
  map = (hits, hits_entry) ∷ (name, record name_entry { expires_at = some 6000000000 }) ∷ [];
}

pub two_expired-IsValid : IsValid two_expired
unfolding bytes_beq lookup
two_expired-IsValid = record { distinct = (refl, (refl, tt)); accounted = refl }

-- a server with a password, one second after it started
abbrev pub locked : Context
locked = record {
  sys_now = pos 1700000000000000000;
  mono_now = 1000000000;
  required_password = some (codes "s3cret");
  invalidations_lost = 0;
}

abbrev pub stranger : ConnState
stranger = record { authenticated = false }

abbrev pub known : ConnState
known = record { authenticated = true }
