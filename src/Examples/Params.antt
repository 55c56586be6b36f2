-- ===== src/Examples/Params.antt =====
-- The parameters of an address with a tag that is both required and excluded.
use itchgrep.Base.{◌≤◌, ◌≡◌, true, List, [], ◌∷◌, all, length}
use itchgrep.Base.Text.{Text, codes}
use itchgrep.Base.Text.Number.{is_digit}
use itchgrep.Web.Params.{parse_filter_values, max_query_len, max_author_len, max_game_id_len}
use itchgrep.Web.Params.Parsed.{Slugs, parse_filter_values-Slugs}
use itchgrep.Examples.{whole_floats, ascii, par_rates}

abbrev address : List (Text × Text)
address =
    (codes "q", codes " space ship ")
    ∷ (codes "tags", codes "Pixel-Art,2d,,no/slug")
    ∷ (codes "not", codes "2d")
    ∷ (codes "like", codes "7")
    ∷ []

parse_filter_values-Slugs_example :
    Slugs (parse_filter_values ascii (λ t. t) whole_floats par_rates address)
    × (length (parse_filter_values ascii (λ t. t) whole_floats par_rates address).query
        ≤ max_query_len)
    × (length (parse_filter_values ascii (λ t. t) whole_floats par_rates address).author
        ≤ max_author_len)
    × (length (parse_filter_values ascii (λ t. t) whole_floats par_rates address).like
        ≤ max_game_id_len)
    × (all is_digit (parse_filter_values ascii (λ t. t) whole_floats par_rates address).like ≡ true)
parse_filter_values-Slugs_example =
    parse_filter_values-Slugs ascii (λ t. t) whole_floats par_rates address
