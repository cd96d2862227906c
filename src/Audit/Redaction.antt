-- ===== src/Audit/Redaction.antt =====
-- What the audit log holds and shows (audit.service.ts).
use asset_hub.Prelude.{
  ℕ, suc, zero, ◌≡◌, ◌≤◌, Bool, true, false, List, [], ◌∷◌, ◌==◌, ltb, length, take, arith, any,
  Bool-cases, inl, inr, ◌⊎◌, Option, none, some,
}
use asset_hub.Prelude.Text.{Text, codes, contains, to_lower}
use asset_hub.Prelude.Collection.{All, All-append, find_all}
use asset_hub.Prelude.Action.{◌>>=◌}
use asset_hub.Models.{Value, Object}
use asset_hub.Access.Scope.{AuthContext}
use asset_hub.Audit.Log.{
  Event, AuditQuery, is_sensitive, sensitive_words, clipped, redact, record_event, wants_id,
  matches, insert_newest, newest_first, page_limit, list_events,
}

-- A text value has at most 2000 units.
abbrev pub Short : Value → Type 0
Short (Value.text t) = length t ≤ 2000
Short (Value.str s) = length (codes s) ≤ 2000
Short _ = Unit

-- What no key of the metadata may have in it.
abbrev pub secret_words : List Text
secret_words =
    codes "password"
    ∷ codes "token"
    ∷ codes "secret"
    ∷ codes "authorization"
    ∷ codes "cookie"
    ∷ codes "refresh"
    ∷ codes "accesstoken"
    ∷ codes "access_token"
    ∷ codes "access-token"
    ∷ codes "privatekey"
    ∷ codes "private_key"
    ∷ codes "private-key"
    ∷ []

abbrev pub Harmless : Text → Type 0
Harmless key = All (λ w. contains w (to_lower key) ≡ false) secret_words

-- An event without such a key and without a long text.
abbrev pub Redacted : Event → Type 0
Redacted e = All (λ (kv : Text × Value). Harmless kv.0 × Short kv.1) e.metadata

none_of : (p : Text → Bool) (ws : List Text) → any p ws ≡ false → All (λ w. p w ≡ false) ws
none_of p [] h = tt
none_of p (w ∷ ws) h = (ground arith, none_of p ws (ground arith))

harmless : (key : Text) → is_sensitive key ≡ false → Harmless key
unfolding is_sensitive
harmless key h = none_of (λ w. contains w (to_lower key)) sensitive_words h

pub length-take : {A : Type 0} (n : ℕ) (xs : List A) → length (take n xs) ≤ n
length-take zero xs = omega arith
length-take (suc n) [] = omega arith
length-take (suc n) (x ∷ xs) = omega (arith, length-take n xs)

clipped-Short : (v : Value) → Short (clipped v)
clipped-Short (Value.text t) = elim (Bool-cases (ltb 2000 (length t))) [
  | inl e ↦ rw e (length-take 2000 t)
  | inr e ↦ rw e (ground arith)
]
clipped-Short (Value.str s) = elim (Bool-cases (ltb 2000 (length (codes s)))) [
  | inl e ↦ rw e (length-take 2000 (codes s))
  | inr e ↦ rw e (ground arith)
]
clipped-Short Value.undefined = tt
clipped-Short Value.null = tt
clipped-Short (Value.flag b) = tt
clipped-Short (Value.num n) = tt
clipped-Short (Value.id n) = tt
clipped-Short (Value.object m) = tt
clipped-Short (Value.array xs) = tt

pub redact-safe : (m : Object) → All (λ (kv : Text × Value). Harmless kv.0 × Short kv.1) (redact m)
unfolding redact
redact-safe [] = tt
redact-safe ((k, v) ∷ m) = elim (Bool-cases (is_sensitive k)) [
  | inl e ↦ rw e (redact-safe m)
  | inr e ↦ rw e ((harmless k e, clipped-Short v), redact-safe m)
]

-- Whatever a caller hands over as metadata, no event that the service writes has, at the top of its
-- metadata, a key with one of the secret words in it, in upper or lower case, or a text of more than 2000
-- units: if the log had none such, it has none after the call. What objects and arrays in the metadata
-- hold is not looked at.
pub record_event-Redacted :
    (input : Event) (now : ℕ) (log : List Event)
    → All Redacted log
    → All Redacted (record_event input now log).1
unfolding record_event ◌>>=◌
record_event-Redacted input now log a = elim (Bool-cases (input.tenant_id == 0)) [
  | inl e ↦ rw e a
  | inr e ↦ rw e (All-append Redacted log _ a (redact-safe input.metadata, tt))
]

module _ {A : Type 0} (P : A → Type 0) where
  pub All-take : (n : ℕ) (xs : List A) → All P xs → All P (take n xs)
  All-take zero xs a = tt
  All-take (suc n) [] a = tt
  All-take (suc n) (x ∷ xs) a = (a.0, All-take n xs a.1)

  pub All-find_all :
      (p : A → Bool) (xs : List A) → ((x : A) → p x ≡ true → P x) → All P (find_all p xs)
  All-find_all p [] k = tt
  All-find_all p (x ∷ xs) k = elim (Bool-cases (p x)) [
    | inl e ↦ rw e (k x e, All-find_all p xs k)
    | inr e ↦ rw e (All-find_all p xs k)
  ]

module _ (P : Event → Type 0) where
  All-insert : (e : Event) (xs : List Event) → P e → All P xs → All P (insert_newest e xs)
  unfolding insert_newest
  All-insert e [] k a = (k, tt)
  All-insert e (x ∷ xs) k a = elim (Bool-cases (ltb e.occurred_at x.occurred_at)) [
    | inl h ↦ rw h (a.0, All-insert e xs k a.1)
    | inr h ↦ rw h (k, a)
  ]

  All-newest : (xs : List Event) → All P xs → All P (newest_first xs)
  unfolding newest_first
  All-newest [] a = tt
  All-newest (x ∷ xs) a = All-insert x (newest_first xs) a.0 (All-newest xs a.1)

-- Of the caller's tenant and, unless the caller has the scope of the tenant, of the caller's company.
abbrev pub Shown : AuthContext → Event → Type 0
Shown auth e =
    (e.tenant_id ≡ auth.tenant_id)
    × ((auth.cross_company ≡ true) ⊎ (e.company_id ≡ some auth.company_id))

company_given : (c : ℕ) (i : Option ℕ) → wants_id (some c) i ≡ true → i ≡ some c
company_given c none h = cc
company_given c (some i) h = ground arith

matches-Shown :
    (auth : AuthContext) (query : AuditQuery) (e : Event)
    → matches auth query e ≡ true
    → Shown auth e
matches-Shown auth query e h =
    let tenant : e.tenant_id ≡ auth.tenant_id = ground arith in
    elim (Bool-cases auth.cross_company) [
      | inl t ↦ (tenant, inl t)
      | inr f ↦ (tenant, inr (company_given auth.company_id e.company_id (ground arith)))
    ]

-- A listing shows at most 1000 events, whatever limit is asked for, and only events of the caller's
-- tenant and, for a caller who is bound to a company, of that company.
pub list_events-scoped :
    (auth : AuthContext) (query : AuditQuery) (log : List Event)
    → (length (list_events auth query log) ≤ 1000) × All (Shown auth) (list_events auth query log)
unfolding list_events
list_events-scoped auth query log =
    let n = page_limit query.limit in
    let few : length (take n (newest_first (find_all (matches auth query) log))) ≤ n =
      length-take n _ in
    (
      ground arith,
      All-take (Shown auth) n _
          (All-newest _ _ (All-find_all _ (matches auth query) log (matches-Shown auth query))),
    )
