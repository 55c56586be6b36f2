-- ===== src/Examples/Pages.antt =====
-- A front page whose address spells out the default ordering, and where it is sent.
use mathlib.Core.Path.{subst}
use itchgrep.Base.{
  ℕ, zero, suc, ◌-◌, ◌≡◌, ◌≢◌, refl, ap, Bool, true, false, ◌&&◌, Option, none, some, List, [], ◌∷◌,
  map, arith, all, leb, Bool-cases, inl, inr, if◌then◌else◌,
}
use itchgrep.Base.Int.{ℤ}
use itchgrep.Base.Text.{Text, codes, text_eq, text_eq_iff, text_lt, join}
use itchgrep.Base.Text.Maps.{lookup}
use itchgrep.Base.Text.Space.{space_len, trim_left, trim_space}
use itchgrep.Cache.Find.{unready}
use itchgrep.Base.Text.Decimal.{format_int}
use itchgrep.Base.Text.Number.{parse_int}
use itchgrep.Web.Filters.{at_tag_limit, with_tag}
use itchgrep.Web.Params.{
  get, get_all, slug_byte, page_param, parse_filter_values, exclude_all, pieces, require_all,
  normalize_tag, clamp_query, normalize_game_id, clamp_author, normalize_currency,
}
use itchgrep.Web.Address.{page_url, front, Url, IsUrl, Incoming, page_values, requested_form}
use itchgrep.Web.Handlers.{
  Server, filters_of, handle_index, handle_results, handle_results_tags, handle_new, handle_tag,
}
use itchgrep.Web.Handlers.Errors.{IsHonest, handlers-IsHonest}
use itchgrep.Web.Handlers.Redirect.{handle_index-settles}
use itchgrep.Examples.{whole_floats, ascii, par_rates}

-- An encoding of queries: each byte plus one, with a zero behind each text.
written : Text → Text → Text
written [] s = 0 ∷ s
written (c ∷ w) s = suc c ∷ written w s

encoded : List (Text × Text) → Text
encoded [] = []
encoded ((k, v) ∷ q) = written k (written v (encoded q))

onto_first : ℕ → List Text → List Text
onto_first c [] = []
onto_first c (w ∷ ws) = (c ∷ w) ∷ ws

words : Text → List Text
words [] = []
words (zero ∷ s) = [] ∷ words s
words (suc c ∷ s) = onto_first c (words s)

pairs : List Text → List (Text × Text)
pairs [] = []
pairs (k ∷ []) = []
pairs (k ∷ v ∷ ws) = (k, v) ∷ pairs ws

words-written : (w s : Text) → words (written w s) ≡ w ∷ words s
unfolding words written onto_first
words-written [] s = refl
words-written (c ∷ w) s = rw (words-written w s) refl

decoded-encoded : (q : List (Text × Text)) → pairs (words (encoded q)) ≡ q
unfolding pairs words encoded
decoded-encoded [] = refl
decoded-encoded ((k, v) ∷ q) =
    rw (words-written k (written v (encoded q)), words-written v (encoded q), decoded-encoded q)
      refl

abbrev url : Url
url = record { encode = encoded; decode = λ t. pairs (words t) }

url-IsUrl : IsUrl url
unfolding pairs words get_all
url-IsUrl = record {
  reads_back = λ v name. ap (λ q. get_all q name) (decoded-encoded v);
  reads_none = λ name. refl;
}

slugs_kept : (t : Text) → all slug_byte t ≡ true → ascii.to_lower t ≡ t
slugs_kept [] h = refl
slugs_kept (c ∷ t) h = small (slug_byte c) (all slug_byte t) refl refl h (slugs_kept t)
  where
    small :
        (x y : Bool)
        → slug_byte c ≡ x
        → all slug_byte t ≡ y
        → x && y ≡ true
        → (all slug_byte t ≡ true → ascii.to_lower t ≡ t)
        → ascii.to_lower (c ∷ t) ≡ c ∷ t
    small false y e k l keep = cc
    small true false e k l keep = cc
    small true true e k l keep =
        let same : (leb 65 c && leb c 90) ≡ false = ground arith in rw same (ap (◌∷◌ c) (keep k))

abbrev capitals : Text → Text
capitals = map (λ c. if leb 97 c && leb c 122 then c - 32 else c)

euros : capitals (trim_space (codes "EUR")) ≡ codes "EUR"
unfolding trim_space trim_left space_len
euros = refl

dollars : capitals (trim_space (codes "USD")) ≡ codes "USD"
unfolding trim_space trim_left space_len
dollars = refl

codes_kept : (c : Text) → lookup c par_rates.per_eur ≢ none → capitals (trim_space c) ≡ c
unfolding lookup
codes_kept c h = elim (Bool-cases (text_eq (codes "EUR") c)) [
  | inl eur ↦ subst (λ t. capitals (trim_space t) ≡ t) ((text_eq_iff (codes "EUR") c).0 eur) euros
  | inr not_eur ↦ elim (Bool-cases (text_eq (codes "USD") c)) [
    | inl usd ↦
        subst (λ t. capitals (trim_space t) ≡ t) ((text_eq_iff (codes "USD") c).0 usd) dollars
    | inr not_usd ↦ absurd (h (rw (not_eur, not_usd) refl))
  ]
]

abbrev server : Server whole_floats
server = record {
  rates = par_rates;
  data_time = none;
  started = 0;
  has_tag = λ _. true;
  find = λ _. unready;
}

-- The server behind a publish, with a rate more.
abbrev updated : Server whole_floats
updated = record server {
  rates = record par_rates { per_eur = (codes "GBP", 1) ∷ par_rates.per_eur };
  data_time = some 7000000000;
}

codes_stay : (c : Text) → lookup c par_rates.per_eur ≢ none → lookup c updated.rates.per_eur ≢ none
unfolding lookup
codes_stay c h h' = elim (Bool-cases (text_eq (codes "GBP") c)) [
  | inl e ↦ cc (rw e at h')
  | inr e ↦ h (rw e at h')
]

abbrev asked : Incoming
asked = record {
  reads = true;
  path = codes "/";
  raw_query = encoded (
      (codes "sort", codes "popular")
      ∷ (codes "tags", codes "b,a")
      ∷ (codes "page", codes "2")
      ∷ []);
  since = [];
  none_match = [];
}

abbrev sent : Incoming
sent = record asked {
  raw_query = encoded ((codes "tags", codes "a,b") ∷ (codes "page", codes "2") ∷ []);
}

abbrev answer : Incoming → Option Text
answer r = (handle_index ascii capitals whole_floats url (λ _. none) server r).location

is_sent : answer asked ≡ some (requested_form sent)
unfolding handle_index page_param page_url front trim_space trim_left space_len get
    parse_filter_values lookup parse_int text_eq page_values requested_form encoded written words
    pairs onto_first get_all exclude_all pieces require_all at_tag_limit normalize_tag with_tag
    clamp_query text_lt normalize_game_id clamp_author normalize_currency join format_int
is_sent = refl

handle_index-settles_example :
    (n : ℤ) × (page_param (url.decode asked.raw_query) ≡ some n)
    × (page_param (url.decode sent.raw_query) ≡ some n)
    × (page_values (filters_of ascii capitals whole_floats url (λ _. none) updated sent) n
        ≡ page_values (filters_of ascii capitals whole_floats url (λ _. none) server asked) n)
    × ((handle_index ascii capitals whole_floats url (λ _. none) updated sent).location ≡ none)
handle_index-settles_example =
    handle_index-settles ascii capitals whole_floats url (λ _. none) url-IsUrl slugs_kept refl
      server updated asked sent codes_kept codes_stay refl is_sent

handlers-IsHonest_example :
    IsHonest (handle_index ascii capitals whole_floats url (λ _. none) server sent)
    × IsHonest (handle_results ascii capitals whole_floats url (λ _. none) server sent)
    × IsHonest (handle_results_tags ascii capitals whole_floats url (λ _. none) server sent)
    × IsHonest (handle_new ascii capitals whole_floats url (λ _. none) server sent)
    × IsHonest (handle_tag ascii capitals whole_floats url (λ _. none) server (codes "2d") sent)
handlers-IsHonest_example =
    handlers-IsHonest ascii capitals whole_floats url (λ _. none) server (codes "2d") sent
