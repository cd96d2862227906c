-- ===== src/Identity/CacheMap.antt =====
-- The operations of the security cache, and the map from keys to values that they are to be like
-- (identity-security-cache.service.ts).
use asset_hub.Prelude.{
  ℕ, ◌+◌, ◌*◌, ◌≡◌, Option, none, some, Bool, false, not, List, [], ◌∷◌, ltb, given, if◌then◌else◌,
}
use asset_hub.Prelude.Text.{Text, text_eq, codes}
use asset_hub.Prelude.Collection.{All, find_one}
use asset_hub.Prelude.Action.{Action, pure, ◌>>=◌}
use asset_hub.Auth.Store.{Entry, Store}
use asset_hub.Identity.Cache.{set_once, store_value, take_value}

-- The operations of the service, each with the time at which it runs.
pub data Command : Type 0 where
  store : Text → Text → ℕ → ℕ → Command
  once : Text → ℕ → ℕ → Command
  take : Text → ℕ → Command

pub data Reply : Type 0 where
  stored : Reply
  claimed : Bool → Reply
  value : Option Text → Reply

unfoldable pub run : Command → Action Store Reply
run (store key v ttl now) = store_value key v ttl now >>= λ _. pure stored
run (once key ttl now) = set_once key ttl now >>= λ b. pure (claimed b)
run (take key now) = take_value key now >>= λ v. pure (value v)

unfoldable pub run_all : List Command → Action Store (List Reply)
unfolding run
run_all [] = pure []
run_all (c ∷ cs) = do r ← run c; rs ← run_all cs; pure (r ∷ rs)

-- The map: for each key, the value with the time at which it expires.
abbrev pub View : Type 0
View = Text → Option (Text × ℕ)

abbrev pub put : Text → Option (Text × ℕ) → View → View
put key entry view q = if text_eq key q then entry else view q

-- What a reader sees at a time.
abbrev pub fresh : ℕ → Option (Text × ℕ) → Option Text
fresh now none = none
fresh now (some (v, until)) = if ltb now until then some v else none

abbrev pub after_seen : Option Text → View → View → View
after_seen none old new = old
after_seen (some v) old new = new

unfoldable pub spec : Command → View → Reply × View
spec (store key v ttl now) view = (stored, put key (some (v, now + ttl * 1000)) view)
spec (once key ttl now) view = (
  claimed (not (given (fresh now (view key)))),
  after_seen (fresh now (view key)) (put key (some (codes "1", now + ttl * 1000)) view) view,
)
spec (take key now) view =
    (value (fresh now (view key)), after_seen (fresh now (view key)) view (put key none view))

unfoldable pub spec_all : List Command → View → List Reply × View
unfolding spec
spec_all [] view = ([], view)
spec_all (c ∷ cs) view =
    let (r, next) = spec c view in let (rs, last) = spec_all cs next in (r ∷ rs, last)

abbrev seen_entry : Option Entry → Option (Text × ℕ)
seen_entry none = none
seen_entry (some e) = some (e.value, e.expires_at)

-- The map that the entries stand for.
abbrev pub view_of : List Entry → View
view_of es q = seen_entry (find_one (λ e. text_eq e.key q) es)

-- No two entries have the same key.
abbrev pub OneEach : List Entry → Type 0
OneEach [] = Unit
OneEach (e ∷ es) = All (λ x. text_eq x.key e.key ≡ false) es × OneEach es
