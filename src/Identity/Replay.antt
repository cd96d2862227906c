-- ===== src/Identity/Replay.antt =====
-- Single-use values: a SAML assertion and an OIDC state are accepted once
-- (identity-security-cache.service.ts, saml.provider.ts, oidc.provider.ts).
use asset_hub.Prelude.{
  ℕ, ◌≡◌, ◌<◌, ◌+◌, ◌*◌, refl, none, some, true, List, [], ◌∷◌, arith, Option-cases, inl, inr,
}
use asset_hub.Prelude.Text.{Text, text_eq, text_eq_iff, codes}
use asset_hub.Prelude.Collection.{find_one}
use asset_hub.Prelude.Action.{ok, err, failure, ◌>>=◌}
use asset_hub.Auth.Store.{Entry, Store}
use asset_hub.Auth.Provisioning.{NormalizedIdentity}
use asset_hub.Identity.Cache.{
  live, redis_get, redis_set, redis_del, without_key, set_once, take_value, forget_taken,
}
use asset_hub.Identity.Providers.{
  IdpLibraries, Profile, assertion_id, assertion_key, saml_callback, oidc_callback, state_key,
}

text_eq_refl : (s : Text) → text_eq s s ≡ true
text_eq_refl s = (text_eq_iff s s).1 refl

-- No entry of a key is left where the key was removed.
find-without_key :
    (now : ℕ) (key : Text) (es : List Entry) → find_one (live now key) (without_key key es) ≡ none
find-without_key now key [] = refl
find-without_key now key (e ∷ es) = ground (arith, find-without_key now key es)

module _ (libraries : IdpLibraries) (company_id : ℕ) (mapping mapping' : List (Text × Text)) where
  -- While the assertion of a response is in the cache, the response is refused.
  seen_assertion-refused :
      (response : Text) (p : Profile) (now : ℕ) (s : Store) (e : Entry)
      → libraries.validate_response response ≡ some p
      → find_one (live now (assertion_key libraries company_id (assertion_id p))) s.cache ≡ some e
      → saml_callback libraries company_id mapping' response now s
        ≡ (err (failure "SAML assertion replay detected — rejected"), s)
  unfolding saml_callback set_once ◌>>=◌
  seen_assertion-refused response p now s e v h =
      let held : redis_get now (assertion_key libraries company_id (assertion_id p)) s
          ≡ some e.value =
        rw (h, redis_get) in
      ground arith

  -- In the state that an accepted SAML response leaves, a response that names the same assertion, by
  -- `inResponseTo`, the session index or the name id, is refused for the company at any time before
  -- 300 seconds are over, and nothing changes.
  pub saml_replay_refused :
      (response response' : Text) (p p' : Profile) (now now' : ℕ) (s s' : Store)
      (i : NormalizedIdentity)
      → libraries.validate_response response ≡ some p
      → libraries.validate_response response' ≡ some p'
      → assertion_id p' ≡ assertion_id p
      → now' < now + 300 * 1000
      → saml_callback libraries company_id mapping response now s ≡ (ok i, s')
      → saml_callback libraries company_id mapping' response' now' s'
        ≡ (err (failure "SAML assertion replay detected — rejected"), s')
  unfolding saml_callback set_once redis_set ◌>>=◌
  saml_replay_refused response response' p p' now now' s s' i v v' same soon h =
      let key = assertion_key libraries company_id (assertion_id p) in
      let entry : Entry = record { key = key; value = codes "1"; expires_at = now + 300 * 1000 } in
      let kept : find_one (live now' key) s'.cache ≡ some entry =
        ground (arith, text_eq_refl key) in
      seen_assertion-refused response' p' now' s' entry v' (rw same kept)

  -- In the state that an accepted OIDC callback leaves, a callback with the same state parameter is
  -- refused, with any code and at any time, and nothing changes.
  pub oidc_replay_refused :
      (auth_code auth_code' state : Text) (now now' : ℕ) (s s' : Store) (i : NormalizedIdentity)
      → oidc_callback libraries company_id mapping auth_code state now s ≡ (ok i, s')
      → oidc_callback libraries company_id mapping' auth_code' state now' s'
        ≡ (err (failure "Invalid or expired OIDC state — possible CSRF or replay attempt"), s')
  unfolding oidc_callback take_value forget_taken redis_del ◌>>=◌
  oidc_replay_refused auth_code auth_code' state now now' s s' i h =
      let key = state_key libraries company_id state in
      let gone : find_one (live now' key) s'.cache ≡ none =
        elim (Option-cases (redis_get now key s)) [
          | inl e ↦ absurd (ground arith)
          | inr (w, e) ↦
              let cleared : s'.cache ≡ without_key key s.cache = ground arith in
              rw cleared (find-without_key now' key s.cache)
        ] in
      ground arith
