-- ===== src/Web/Address.antt =====
-- The addresses of result pages: ShareURL and PageURL of internal/web/templates/filters.go, and
-- requestedForm of internal/web/handlers.go. net/url, which encodes a query, is a parameter.
pub mod Again
use itchgrep.Base.{
  ℕ, Bool, true, false, not, Option, none, some, List, [], ◌∷◌, ◌++◌, length, ◌==◌, ◌≡◌, ◌≢◌,
  if◌then◌else◌,
}
use itchgrep.Base.Int.{ℤ, pos, ltb_ℤ}
use itchgrep.Base.Text.{Text, codes, text_eq}
use itchgrep.Base.Text.Decimal.{format_int}
use itchgrep.Web.Filters.{Filters, values, param}
use itchgrep.Web.Params.{get_all}

-- Values.Encode and URL.Query.
pub record Url : Type 0 where
  pub encode : List (Text × Text) → Text
  pub decode : Text → List (Text × Text)

-- A query reads back as it was written, each name with its values in order.
pub record IsUrl (u : Url) : Type 0 where
  pub reads_back :
      (v : List (Text × Text)) (name : Text) → get_all (u.decode (u.encode v)) name ≡ get_all v name
  pub reads_none : (name : Text) → get_all (u.decode []) name ≡ []

-- The parameters of one page.
unfoldable pub page_values : Filters → ℤ → List (Text × Text)
unfolding values
page_values f page =
    values f
    ++ param (not (ltb_ℤ (pos 1) page)) (codes "page") (format_int page)
        (param (not f.all_tags) (codes "alltags") (codes "1") [])

module _ (u : Url) where
  -- An address of the front page with a query.
  unfoldable pub front : List (Text × Text) → Text
  front v = if length v == 0 then codes "/" else codes "/?" ++ u.encode v

  unfoldable pub share_url : Filters → Text
  unfolding front values
  share_url f = front (values f)

  unfoldable pub page_url : Filters → ℤ → Text
  unfolding front page_values
  page_url f page = front (page_values f page)

-- A request for a page, as net/http has parsed it; an absent header is empty.
pub record Incoming : Type 0 where
  pub reads : Bool
  pub path : Text
  pub raw_query : Text
  pub since : Text
  pub none_match : Text

unfoldable pub requested_form : Incoming → Text
requested_form r = if text_eq r.raw_query [] then r.path else r.path ++ (codes "?" ++ r.raw_query)
