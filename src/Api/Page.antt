-- ===== src/Api/Page.antt =====
-- An ordered page of rows, as the views of web/api/views.py cut it: one row more than the limit is
-- fetched, and tells whether there are more.
use sensor_server.Prelude.{
  ℕ, suc, String, Bool, ◌&&◌, ◌||◌, List, eqb, ltb, ◌==◌, length, take, if◌then◌else◌,
}

module _ {ℓ} {A : Type ℓ} where
  -- rows[: limit + 1], `has_more`, and rows[:limit]
  unfoldable pub cut_page : ℕ → List A → List A × Bool
  cut_page limit rows =
      let fetched = take (suc limit) rows in (take limit fetched, ltb limit (length fetched))

-- The columns that the pages are ordered by, under a collation of the texts.
unfoldable pub key_le : (String → String → Bool) → ℕ × String × String → ℕ × String × String → Bool
key_le text_le (t, d, m) (u, e, n) =
    ltb t u || (eqb t u && (if d == e then text_le m n else text_le d e))
