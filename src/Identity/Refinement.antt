-- ===== src/Identity/Refinement.antt =====
-- The security cache against a map (identity-security-cache.service.ts): a sequence of its operations
-- gives the answers that a map from keys to a value with a time of expiry gives.
use asset_hub.Prelude.{
  ℕ, ◌+◌, ◌*◌, ◌≡◌, refl, sym, ◌∙◌, none, some, true, false, List, [], ◌∷◌, arith, Bool-cases,
  Option-cases, inl, inr,
}
use mathlib.Core.Path.{subst, fun_ext}
use asset_hub.Prelude.Text.{Text, text_eq, text_eq_iff, codes}
use asset_hub.Prelude.Collection.{All, find_one}
use asset_hub.Prelude.Action.{ok, ◌>>=◌}
use asset_hub.Auth.Store.{Entry, Store}
use asset_hub.Identity.Cache.{
  live, redis_get, without_key, redis_set, redis_del, set_once, store_value, take_value,
  forget_taken,
}
use asset_hub.Identity.CacheMap.{
  Command, store, once, take, run, run_all, put, fresh, spec, spec_all, view_of, OneEach,
}

kept_apart :
    (P : Entry → Type 0) (key : Text) (es : List Entry) → All P es → All P (without_key key es)
kept_apart P key [] a = tt
kept_apart P key (e ∷ es) a = elim (Bool-cases (text_eq e.key key)) [
  | inl t ↦ rw t (kept_apart P key es a.1)
  | inr f ↦ rw f (a.0, kept_apart P key es a.1)
]

without_key-OneEach : (key : Text) (es : List Entry) → OneEach es → OneEach (without_key key es)
without_key-OneEach key [] u = tt
without_key-OneEach key (e ∷ es) u = elim (Bool-cases (text_eq e.key key)) [
  | inl t ↦ rw t (without_key-OneEach key es u.1)
  | inr f ↦
      rw f
        (kept_apart (λ x. text_eq x.key e.key ≡ false) key es u.0, without_key-OneEach key es u.1)
]

apart : (key : Text) (es : List Entry) → All (λ x. text_eq x.key key ≡ false) (without_key key es)
apart key [] = tt
apart key (e ∷ es) = elim (Bool-cases (text_eq e.key key)) [
  | inl t ↦ rw t (apart key es)
  | inr f ↦ rw f (f, apart key es)
]

same_key : (a b q : Text) → text_eq a b ≡ true → text_eq a q ≡ text_eq b q
same_key a b q h = rw ((text_eq_iff a b).0 h) refl

nothing_live :
    (now : ℕ) (key : Text) (es : List Entry)
    → All (λ x. text_eq x.key key ≡ false) es
    → find_one (live now key) es ≡ none
nothing_live now key [] a = refl
nothing_live now key (e ∷ es) a = ground (arith, nothing_live now key es a.1, a.0)

-- `GET` reads what the map has.
get-fresh :
    (now : ℕ) (key : Text) (s : Store)
    → OneEach s.cache
    → redis_get now key s ≡ fresh now (view_of s.cache key)
get-fresh now key s u = go s.cache u
  where
    go :
        (es : List Entry)
        → OneEach es
        → redis_get now key (record s { cache = es }) ≡ fresh now (view_of es key)
    go [] u = refl
    go (e ∷ es) u = elim (Bool-cases (text_eq e.key key)) [
      | inl t ↦
          let others : All (λ x. text_eq x.key key ≡ false) es =
            subst (λ k. All (λ x. text_eq x.key k ≡ false) es) ((text_eq_iff e.key key).0 t) u.0 in
          rw t (ground (arith, nothing_live now key es others))
      | inr f ↦ ground (arith, go es u.1)
    ]

view_without :
    (key q : Text) (es : List Entry) → view_of (without_key key es) q ≡ put key none (view_of es) q
view_without key q [] = ground arith
view_without key q (e ∷ es) = elim (Bool-cases (text_eq e.key key)) [
  | inl t ↦ let same = same_key e.key key q t in rw t (ground (arith, view_without key q es, same))
  | inr f ↦ elim (Bool-cases (text_eq key q)) [
    | inl g ↦
        let other : text_eq e.key q ≡ false = rw (sym ((text_eq_iff key q).0 g)) f in
        ground (arith, view_without key q es)
    | inr g ↦ ground (arith, view_without key q es)
  ]
]

view_put :
    (e : Entry) (es : List Entry)
    → view_of (e ∷ without_key e.key es) ≡ put e.key (some (e.value, e.expires_at)) (view_of es)
view_put e es = fun_ext λ q. ground (arith, view_without e.key q es)

-- One operation: it answers as the map does, and leaves the entries that stand for the map after it.
abbrev Simulates : Command → Store → Type 0
Simulates c s =
    ((run c s).0 ≡ ok (spec c (view_of s.cache)).0)
    × (view_of (run c s).1.cache ≡ (spec c (view_of s.cache)).1)
    × OneEach (run c s).1.cache

run-Simulates : (c : Command) (s : Store) → OneEach s.cache → Simulates c s
unfolding run spec store_value redis_set set_once take_value forget_taken redis_del ◌>>=◌
run-Simulates (store key v ttl now) s u = (
  refl,
  view_put (record { key = key; value = v; expires_at = now + ttl * 1000 }) s.cache,
  (apart key s.cache, without_key-OneEach key s.cache u),
)
run-Simulates (once key ttl now) s u = elim (Option-cases (redis_get now key s)) [
  | inl e ↦
      let seen : fresh now (view_of s.cache key) ≡ none = sym (get-fresh now key s u) ∙ e in
      let new : Entry = record { key = key; value = codes "1"; expires_at = now + ttl * 1000 } in
      rw (e, seen)
        (refl, view_put new s.cache, (apart key s.cache, without_key-OneEach key s.cache u))
  | inr (v, e) ↦
      let seen : fresh now (view_of s.cache key) ≡ some v = sym (get-fresh now key s u) ∙ e in
      rw (e, seen) (refl, refl, u)
]
run-Simulates (take key now) s u = elim (Option-cases (redis_get now key s)) [
  | inl e ↦
      let seen : fresh now (view_of s.cache key) ≡ none = sym (get-fresh now key s u) ∙ e in
      rw (e, seen) (refl, refl, u)
  | inr (v, e) ↦
      let seen : fresh now (view_of s.cache key) ≡ some v = sym (get-fresh now key s u) ∙ e in
      rw (e, seen)
        (refl, fun_ext (λ q. view_without key q s.cache), without_key-OneEach key s.cache u)
]

-- From any cache that holds no key twice, a sequence of the service's operations, whatever their times,
-- returns, answers as the map does that the cache stands for, and ends with entries that stand for the
-- map's last state and hold no key twice.
pub run_all-refines :
    (cs : List Command) (s : Store)
    → OneEach s.cache
    → (s' : Store) × (run_all cs s ≡ (ok (spec_all cs (view_of s.cache)).0, s'))
      × (view_of s'.cache ≡ (spec_all cs (view_of s.cache)).1)
      × OneEach s'.cache
unfolding run_all spec_all ◌>>=◌
run_all-refines [] s u = (s, refl, refl, u)
run_all-refines (c ∷ cs) s u =
    let (answer, view, one) = run-Simulates c s u in
    let (s', answers, last, ones) = run_all-refines cs (run c s).1 one in
    (s', ground (arith, answer, answers, view), rw (sym view) last, ones)
