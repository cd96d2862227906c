-- ===== src/Audit/Csv.antt =====
-- The export of the audit log as CSV (audit.service.ts, `csv`). `JSON.stringify` is a parameter.
use asset_hub.Prelude.{
  ℕ, ◌≡◌, ◌≢◌, refl, ap, Option, none, some, Bool, true, false, List, [], ◌∷◌, ◌++◌, ◌==◌, arith,
  if◌then◌else◌, map,
}
use asset_hub.Prelude.Text.{Text, codes}
use asset_hub.Models.{Object}
use asset_hub.Access.Scope.{AuthContext}
use asset_hub.Audit.Log.{Event, list_events}

abbrev pub quote : ℕ
quote = b'"'

-- `text.replace(/"/g, '""')`
unfoldable pub double_quotes : Text → Text
double_quotes [] = []
double_quotes (c ∷ s) =
    let rest = double_quotes s in if c == quote then quote ∷ quote ∷ rest else c ∷ rest

-- `escape` on the text of a value.
unfoldable pub escape : Text → Text
unfolding double_quotes
escape text = quote ∷ double_quotes text ++ quote ∷ []

abbrev text_or_empty : Option Text → Text
text_or_empty none = []
text_or_empty (some t) = t

-- `join(',')` and `join('\n')`
abbrev pub join : ℕ → List Text → Text
join separator [] = []
join separator (t ∷ []) = t
join separator (t ∷ u ∷ ts) = t ++ separator ∷ join separator (u ∷ ts)

module _ (json_time : ℕ → Text) (json_object : Object → Text) (id_text : ℕ → Text) where
  abbrev pub csv_fields : Event → List Text
  csv_fields e =
      json_time e.occurred_at
      ∷ e.action
      ∷ text_or_empty e.target_type
      ∷ text_or_empty e.target_id
      ∷ (elim e.actor_user_id [ none ↦ [] | some i ↦ id_text i ])
      ∷ json_object e.metadata
      ∷ []

  unfoldable pub csv_row : Event → Text
  unfolding escape
  csv_row e = join b',' (map escape (csv_fields e))

  unfoldable pub csv : AuthContext → List Event → Text
  unfolding csv_row
  csv auth log = join 10 (
      codes "occurredAt,action,targetType,targetId,actorUserId,metadata"
      ∷ map csv_row (
          list_events auth
            (record {
              action = none;
              target_type = none;
              actor_user_id = none;
              from = none;
              until = none;
              limit = some 1000;
            })
            log))

-- A reader of quoted fields, by RFC 4180: the field up to the quote that is not doubled, and the rest.
abbrev after_quote : Option (Text × Text) → ℕ → Option (Text × Text)
after_quote none c = none
after_quote (some (t, rest)) c = some (c ∷ t, rest)

-- With whether the unit before was a quote inside the field.
unfoldable pub read_quoted : Bool → Text → Option (Text × Text)
read_quoted false [] = none
read_quoted false (c ∷ s) =
    let closing = read_quoted true s in
    let more = read_quoted false s in if c == quote then closing else after_quote more c
read_quoted true [] = some ([], [])
read_quoted true (c ∷ s) =
    let more = read_quoted false s in
    if c == quote then after_quote more quote else some ([], c ∷ s)

unfoldable pub read_field : Text → Option (Text × Text)
unfolding read_quoted
read_field [] = none
read_field (c ∷ s) = if c == quote then read_quoted false s else none

-- What follows a field does not begin with a quote.
abbrev pub Ends : Text → Type 0
Ends [] = Unit
Ends (c ∷ s) = c ≢ quote

append_assoc : (s t u : Text) → (s ++ t) ++ u ≡ s ++ (t ++ u)
append_assoc [] t u = refl
append_assoc (c ∷ s) t u = ap (λ z. c ∷ z) (append_assoc s t u)

read-double_quotes :
    (t rest : Text)
    → Ends rest
    → read_quoted false (double_quotes t ++ quote ∷ rest) ≡ some (t, rest)
unfolding read_quoted double_quotes
read-double_quotes [] [] e = refl
read-double_quotes [] (d ∷ rest) e = ground arith
read-double_quotes (c ∷ t) rest e = ground (arith, read-double_quotes t rest e)

-- A quoted field reads back: whatever the text, with quotes, commas or line ends in it, a reader of
-- CSV that follows RFC 4180 finds exactly that text in front of whatever comes next, if that does
-- not begin with a quote.
pub read-escape : (t rest : Text) → Ends rest → read_field (escape t ++ rest) ≡ some (t, rest)
unfolding escape read_field
read-escape t rest e =
    rw (append_assoc (double_quotes t) (quote ∷ []) rest) (read-double_quotes t rest e)
