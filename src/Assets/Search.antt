-- ===== src/Assets/Search.antt =====
-- Search in the asset register (apps/api/src/modules/assets/asset-search.service.ts). The page and its
-- size are natural numbers where they are given; anything else counts as not given. The status is an enum of
-- the database, on which Prisma has no `contains` and which it compares with its values only: a query that asks
-- for anything else is refused.
use asset_hub.Prelude.{
  ℕ, ◌+◌, ◌*◌, ◌-◌, ◌/◌, ◌≡◌, ◌⊎◌, Option, none, some, Bool, true, false, not, ◌&&◌, ◌||◌, List, [],
  ◌∷◌, ◌==◌, ltb, get_or, min, max, take, drop, length, if◌then◌else◌,
}
use asset_hub.Prelude.Text.{Text, trim, text_eq}
use asset_hub.Prelude.Action.{Result, ok, err, Error, failure}
use asset_hub.Models.{LifecycleState}
use asset_hub.Transfer.Completion.{same_state}
use asset_hub.Prelude.Collection.{find_all}

-- A row of the register, with its type.
pub record Row : Type 0 where
  pub id : ℕ
  pub tenant_id : ℕ
  pub company_id : ℕ
  pub asset_number : Text
  pub status : LifecycleState
  pub asset_type_id : ℕ
  pub created_at : ℕ

-- Who searches: the company may be absent.
pub record Searcher : Type 0 where
  pub tenant_id : ℕ
  pub company_id : Option ℕ
  pub cross_company : Bool

-- A text that asks for a status: `ALL`, one of the enum, or none of these.
pub data StatusFilter : Type 0 where
  all_states : StatusFilter
  only : LifecycleState → StatusFilter
  no_state : StatusFilter

pub record Options : Type 0 where
  pub q : Option Text
  pub status : Option StatusFilter
  pub asset_type_id : Option ℕ
  pub page : Option ℕ
  pub page_size : Option ℕ

abbrev pub max_page_size : ℕ
max_page_size = 100

-- `Number(n) || d`
abbrev number_or : Option ℕ → ℕ → ℕ
number_or none d = d
number_or (some n) d = if n == 0 then d else n

abbrev pub page_of : Options → ℕ
page_of options = max 1 (number_or options.page 1)

abbrev pub page_size_of : Options → ℕ
page_size_of options = min max_page_size (max 1 (number_or options.page_size 25))

abbrev company_is : Option ℕ → ℕ → Bool
company_is none c = true
company_is (some k) c = c == k

-- `tenantId` and `companyScope`.
abbrev pub in_search_scope : Searcher → Row → Bool
in_search_scope auth row =
    row.tenant_id == auth.tenant_id
    && (auth.cross_company || company_is auth.company_id row.company_id)

abbrev pub wanted_status : Option StatusFilter → LifecycleState → Bool
wanted_status (some (only w)) s = same_state s w
wanted_status _ s = true

-- A status that Prisma refuses to compare with.
abbrev pub refuses_status : Option StatusFilter → Bool
refuses_status (some no_state) = true
refuses_status _ = false

abbrev wanted_type : Option ℕ → ℕ → Bool
wanted_type none t = true
wanted_type (some w) t = t == w

-- `where`, without `where.OR`.
abbrev pub selected : Searcher → Options → Row → Bool
selected auth options row =
    in_search_scope auth row
    && wanted_status options.status row.status
    && wanted_type options.asset_type_id row.asset_type_id

-- With a query, `where.OR` has `contains` on the status.
abbrev pub refused : Options → Bool
refused options = not (text_eq (trim (get_or options.q [])) []) || refuses_status options.status

-- `orderBy: [{ createdAt: 'desc' }, { id: 'desc' }]`
abbrev newer : Row → Row → Bool
newer a b = ltb b.created_at a.created_at || (a.created_at == b.created_at && ltb b.id a.id)

unfoldable pub insert_row : Row → List Row → List Row
insert_row r [] = r ∷ []
insert_row r (x ∷ xs) = let rest = insert_row r xs in if newer x r then x ∷ rest else r ∷ x ∷ xs

unfoldable pub ordered : List Row → List Row
ordered [] = []
ordered (r ∷ rs) = insert_row r (ordered rs)

pub record Page : Type 0 where
  pub items : List Row
  pub page : ℕ
  pub page_size : ℕ
  pub total : ℕ
  pub total_pages : ℕ

-- `Math.ceil(total / pageSize)`, for a size that is at least 1.
abbrev pub ceil_div : ℕ → ℕ → ℕ
ceil_div total size = (total + (size - 1)) / size

abbrev pub page_at : Searcher → Options → List Row → Page
page_at auth options rows =
    let found = find_all (selected auth options) rows in
    let size = page_size_of options in
    record {
      items = take size (drop ((page_of options - 1) * size) (ordered found));
      page = page_of options;
      page_size = size;
      total = length found;
      total_pages = max 1 (ceil_div (length found) size);
    }

abbrev pub invalid_where : Error
invalid_where = failure "Invalid value in where"

unfoldable pub list_assets : Searcher → Options → List Row → Result Page
list_assets auth options rows =
    if refused options then err invalid_where else ok (page_at auth options rows)

abbrev items_of : Result Page → Result (List Row)
items_of (ok p) = ok p.items
items_of (err e) = err e

unfoldable pub search_assets : Searcher → Text → List Row → Result (List Row)
search_assets auth query rows = items_of (
    list_assets auth
      (record {
        q = some query;
        status = none;
        asset_type_id = none;
        page = some 1;
        page_size = some 8;
      })
      rows)

-- Within the reach of a searcher.
abbrev pub Reached : Searcher → Row → Type 0
Reached auth row =
    (row.tenant_id ≡ auth.tenant_id)
    × ((auth.cross_company ≡ true)
        ⊎ (auth.company_id ≡ none)
        ⊎ (auth.company_id ≡ some row.company_id))
