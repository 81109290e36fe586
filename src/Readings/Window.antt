-- ===== src/Readings/Window.antt =====
-- `_is_guest_only` and `_parse_time_range` of web/readings/views.py.
use sensor_server.Prelude.{
  ℕ, ◌-◌, ◌*◌, String, Bool, true, false, Option, none, some, [], ◌∷◌, ltb, if◌then◌else◌,
}
use sensor_server.Text.{is_empty}
use sensor_server.Value.{Dict, get}
use sensor_server.Store.{second}
use sensor_server.Accounts.Users.{Accounts, Requester, find_profile, profile_has_role}
use sensor_server.Accounts.Role.{has_role}
use sensor_server.Api.Range.{Parsed, unreadable, impossible, aware, naive, Reader, param, days}

-- _is_guest_only
unfoldable pub is_guest_only : Accounts → Requester → Bool
unfolding find_profile has_role
is_guest_only a none = true
is_guest_only a (some u) =
    if u.is_superuser
    then false
    else if profile_has_role "resident" (find_profile u.pk a)
    then false
    else true

-- PRESETS
abbrev pub presets : Dict ℕ
presets =
    ("1h", 3600 * second)
    ∷ ("6h", 6 * 3600 * second)
    ∷ ("1d", days 1)
    ∷ ("7d", days 7)
    ∷ ("1m", days 30)
    ∷ ("2m", days 60)
    ∷ ("3m", days 90)
    ∷ ("1y", days 365)
    ∷ []

-- A datetime: an instant in UTC, or a local time without a zone.
pub data Moment : Type 0 where
  utc local : ℕ → Moment

-- Where a datetime stands in a query: Django takes a local one in the default time zone.
abbrev pub instant : Reader → Moment → ℕ
instant env (utc n) = n
instant env (local n) = env.make_aware n

-- `none` is an exception: a ValueError of `parse_datetime`, or an OverflowError.
abbrev pub Window : Type 0
Window = Option (Moment × Moment)

-- (now - span, now)
abbrev pub up_to_now : ℕ → ℕ → Window
up_to_now now span = if ltb now span then none else some (utc (now - span), utc now)

abbrev pub between : ℕ → Parsed → Parsed → Window
between now impossible _ = none
between now _ impossible = none
between now unreadable _ = up_to_now now (days 1)
between now _ unreadable = up_to_now now (days 1)
between now (aware s) (aware e) = some (utc s, utc e)
between now (aware s) (naive e) = some (utc s, local e)
between now (naive s) (aware e) = some (local s, utc e)
between now (naive s) (naive e) = some (local s, local e)

-- parse_datetime, of a parameter of the query
abbrev pub parsed : Reader → String → Parsed
parsed env text = if is_empty text then unreadable else env.parse_datetime text

-- _parse_time_range
unfoldable pub parse_time_range : Reader → ℕ → Dict String → Window
unfolding get param
parse_time_range env now query = elim (get (param "preset" query) presets) [
  | some span ↦ up_to_now now span
  | none ↦ between now (parsed env (param "start" query)) (parsed env (param "end" query))
]
