-- ===== src/Mail/Escaping.antt =====
-- The escaping of what a message shows (mail.service.ts, `escape`).
use asset_hub.Prelude.{
  ℕ, ◌≡◌, refl, Option, none, some, Bool, true, false, not, ◌||◌, [], ◌∷◌, ◌++◌, ◌==◌, arith,
  Bool-cases, inl, inr, ap, ◌∙◌, sym, ==_iff, if◌then◌else◌,
}
use mathlib.Core.Path.{subst}
use asset_hub.Prelude.Text.{Text, codes, text_eq}
use asset_hub.Prelude.Collection.{All, All-append}
use asset_hub.Mail.Messages.{entity, escape}

-- Neither an angle bracket nor a quote.
abbrev pub is_inert : ℕ → Bool
is_inert c = not (c == b'<' || c == b'>' || c == 39 || c == 34)

-- The character that an entity stands for.
abbrev meaning : Text → ℕ
meaning name =
    if text_eq name (codes "lt")
    then b'<'
    else if text_eq name (codes "gt")
    then b'>'
    else if text_eq name (codes "#39")
    then 39
    else if text_eq name (codes "quot")
    then 34
    else b'&'

-- How a reader of HTML takes text, with the name of the entity that it is in.
unfoldable pub read_html : Option Text → Text → Text
read_html none [] = []
read_html (some name) [] = b'&' ∷ name
read_html none (c ∷ s) =
    let inside = read_html (some []) s in
    let more = read_html none s in if c == b'&' then inside else c ∷ more
read_html (some name) (c ∷ s) =
    let longer = read_html (some (name ++ c ∷ [])) s in
    let more = read_html none s in if c == b';' then meaning name ∷ more else longer

abbrev Ordinary : ℕ → Type 0
Ordinary c =
    ((c == b'&') ≡ false)
    × ((c == b'<') ≡ false)
    × ((c == b'>') ≡ false)
    × ((c == 39) ≡ false)
    × ((c == 34) ≡ false)

-- One case for each character with an entity, and one for the others.
module _ (P : ℕ → Type 0) (amp : P b'&') (lt : P b'<') (gt : P b'>') (apos : P 39)
    (quot : P 34) where
  by_character : ((c : ℕ) → Ordinary c → P c) → (c : ℕ) → P c
  by_character other c = elim (Bool-cases (c == b'&')) [
    | inl e ↦ subst P (sym ((==_iff c b'&').0 e)) amp
    | inr n1 ↦ elim (Bool-cases (c == b'<')) [
      | inl e ↦ subst P (sym ((==_iff c b'<').0 e)) lt
      | inr n2 ↦ elim (Bool-cases (c == b'>')) [
        | inl e ↦ subst P (sym ((==_iff c b'>').0 e)) gt
        | inr n3 ↦ elim (Bool-cases (c == 39)) [
          | inl e ↦ subst P (sym ((==_iff c 39).0 e)) apos
          | inr n4 ↦ elim (Bool-cases (c == 34)) [
            | inl e ↦ subst P (sym ((==_iff c 34).0 e)) quot
            | inr n5 ↦ other c (n1, n2, n3, n4, n5)
          ]
        ]
      ]
    ]
  ]

abbrev pub Inert : Text → Type 0
Inert = All (λ x. is_inert x ≡ true)

entity-Inert : (c : ℕ) → Inert (entity c)
entity-Inert =
    by_character (λ c. Inert (entity c)) (refl, (refl, (refl, (refl, (refl, tt)))))
      (refl, (refl, (refl, (refl, tt)))) (refl, (refl, (refl, (refl, tt))))
      (refl, (refl, (refl, (refl, (refl, tt))))) (refl, (refl, (refl, (refl, (refl, (refl, tt))))))
      (λ c o. rw (o.0, o.1, o.2, o.3, o.4) (ground (arith, o), tt))

read-entity : (c : ℕ) (s : Text) → read_html none (entity c ++ s) ≡ c ∷ read_html none s
unfolding read_html
read-entity c s =
    by_character (λ c. read_html none (entity c ++ s) ≡ c ∷ read_html none s) refl refl refl refl
      refl (λ c o. rw (o.0, o.1, o.2, o.3, o.4) (rw o.0 refl)) c

-- What was escaped holds no angle bracket and no quote, and a reader of HTML sees the text as it was.
pub read-escape_html : (t : Text) → Inert (escape t) × (read_html none (escape t) ≡ t)
unfolding escape read_html
read-escape_html [] = (tt, refl)
read-escape_html (c ∷ s) =
    let (inert, same) = read-escape_html s in
    (
      All-append (λ c. is_inert c ≡ true) (entity c) (escape s) (entity-Inert c) inert,
      read-entity c (escape s) ∙ ap (λ t. c ∷ t) same,
    )
