-- ===== src/Fetcher/Page.antt =====
-- The cards of one browse page: ParseAssetPage of internal/fetcher/fetcher.go, and the address of a
-- page. goquery, which reads the HTML, is a parameter.
use itchgrep.Base.{ℕ, Bool, true, false, Option, none, some, List, [], ◌∷◌, ◌++◌, map}
use itchgrep.Base.Int.{ℤ, pos}
use itchgrep.Base.Text.{Text, codes, strip_prefix}
use itchgrep.Base.Text.Space.{trim_space}
use itchgrep.Base.Text.Decimal.{digits}
use itchgrep.Models.Asset.{Asset}
use itchgrep.Fetcher.Slice.{Slice, path}

abbrev pub base_url : Text
base_url = codes "https://itch.io"

-- PageURL. A page number is not negative.
unfoldable pub page_url : Slice → ℕ → Text
unfolding path digits
page_url s page = base_url ++ (path s ++ (codes "?page=" ++ (digits page ++ codes "&format=json")))

-- A goquery.Selection, and the empty text for an attribute that is not there, as Attr gives it.
pub record Html : Type 1 where
  pub Selection : Type 0
  pub parse : Text → Option Selection
  pub find : Text → Selection → Selection
  pub children : Selection → Selection
  pub first : Selection → Selection
  pub each : Selection → List Selection
  pub text : Selection → Text
  pub attr : Text → Selection → Text

-- strings.Contains
unfoldable pub contains_text : Text → Text → Bool
unfolding strip_prefix
contains_text sub [] = elim (strip_prefix sub []) [ none ↦ false | some _ ↦ true ]
contains_text sub (c ∷ s) =
    let rest = contains_text sub s in
    elim (strip_prefix sub (c ∷ s)) [ none ↦ rest | some _ ↦ true ]

module _ (html : Html) where
  -- What is read off one game cell.
  unfoldable pub parse_cell : ℤ → html.Selection → Asset
  unfolding trim_space contains_text
  parse_cell page_num s =
      let link_node = html.find (codes ".thumb_link") s in
      let tag_title = html.attr (codes "title") (html.first (html.find (codes ".price_tag") s)) in
      record {
        game_id = html.attr (codes "data-game_id") s;
        title = html.text (html.find (codes ".title") s);
        author = html.text (html.first (html.children (html.find (codes ".game_author") s)));
        description = html.text (html.find (codes ".game_text") s);
        link = html.attr (codes "href") link_node;
        thumb_url = html.attr (codes "data-lazy_src") (html.first (html.children link_node));
        tags = [];
        price = trim_space (html.text (html.first (html.find (codes ".price_value") s)));
        pay_what_you_want = contains_text (codes "or more") tag_title;
        inv_popularity = page_num;
        inv_recency = pos 0;
        first_seen = none;
      }

  -- `none` is an error.
  unfoldable pub parse_asset_page : Text → ℤ → Option (List Asset)
  unfolding parse_cell
  parse_asset_page content page_num = elim (html.parse content) [
    | none ↦ none
    | some doc ↦ some (map (parse_cell page_num) (html.each (html.find (codes ".game_cell") doc)))
  ]
