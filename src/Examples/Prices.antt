-- ===== src/Examples/Prices.antt =====
-- The theorem on prices at one price.
use itchgrep.Base.{◌^◌, ◌<◌, refl}
use itchgrep.Base.Text.{codes, text_eq}
use itchgrep.Money.Price.{to_minor, exponent}
use itchgrep.Money.Price.Bounds.{to_minor_fits}

to_minor_fits_example : 123456 < 2 ^ 63
unfolding to_minor text_eq exponent
to_minor_fits_example = to_minor_fits (codes "1,234.56") (codes "USD") 123456 refl
