-- ===== src/Identity/Cache.antt =====
-- The security cache (apps/api/src/modules/identity/identity-security-cache.service.ts) over Redis:
-- an entry is there until its time to live is over, `SET … NX` writes only where no entry is, and
-- `GET` and `DEL` are two commands. Times are milliseconds.
use asset_hub.Prelude.{
  ℕ, ⊤, ◌+◌, ◌*◌, Option, none, some, Bool, true, false, not, ◌&&◌, List, ◌∷◌, ltb, given,
  if◌then◌else◌,
}
use asset_hub.Prelude.Text.{Text, text_eq, codes}
use asset_hub.Prelude.Collection.{find_one, find_all}
use asset_hub.Prelude.Action.{Action, pure, gets, modify, ◌>>=◌, ◌>>◌}
use asset_hub.Auth.Store.{Entry, Store}

abbrev pub live : ℕ → Text → Entry → Bool
live now key e = text_eq e.key key && ltb now e.expires_at

-- `GET`
abbrev pub redis_get : ℕ → Text → Store → Option Text
redis_get now key s = elim (find_one (live now key) s.cache) [ none ↦ none | some e ↦ some e.value ]

abbrev pub without_key : Text → List Entry → List Entry
without_key key es = find_all (λ e. not (text_eq e.key key)) es

-- `SET key value EX ttl`
unfoldable pub redis_set : Text → Text → ℕ → ℕ → Action Store ⊤
redis_set key value ttl_seconds now = modify λ s. record s {
  cache =
      record { key = key; value = value; expires_at = now + ttl_seconds * 1000 }
      ∷ without_key key s.cache;
}

-- `DEL`
unfoldable pub redis_del : Text → Action Store ⊤
redis_del key = modify λ s. record s { cache = without_key key s.cache }

-- `SET key '1' EX ttl NX` returned `OK`.
unfoldable pub set_once : Text → ℕ → ℕ → Action Store Bool
set_once key ttl_seconds now = do
  old ← gets (redis_get now key)
  if given old then pure false else (redis_set key (codes "1") ttl_seconds now >>= λ _. pure true)

unfoldable pub store_value : Text → Text → ℕ → ℕ → Action Store ⊤
store_value key value ttl_seconds now = redis_set key value ttl_seconds now

-- The second command of `takeValue`, sent when the first found a value.
unfoldable pub forget_taken : Text → Option Text → Action Store ⊤
forget_taken key none = pure tt
forget_taken key (some v) = redis_del key

unfoldable pub take_value : Text → ℕ → Action Store (Option Text)
take_value key now = do value ← gets (redis_get now key); forget_taken key value; pure value
