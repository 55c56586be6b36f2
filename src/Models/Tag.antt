-- ===== src/Models/Tag.antt =====
-- The tag facet of pkg/models/models.go.
use itchgrep.Base.{ℕ}
use itchgrep.Base.Text.{Text}

-- Counts come from digit runs of a page, so they are never negative.
pub record Tag : Type 0 where
  pub slug : Text
  pub count : ℕ
