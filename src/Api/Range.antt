-- ===== src/Api/Range.antt =====
-- The query parameters of web/api/views.py. A time is a number of microseconds from the first
-- instant that Python can name; an aware one is taken in UTC.
use sensor_server.Prelude.{
  ℕ, ◌-◌, ◌*◌, min, max, ℤ, pos, negsuc, String, Option, none, some, ltb, leb, if◌then◌else◌,
}
use sensor_server.Text.{is_empty}
use sensor_server.Value.{Dict, get}
use sensor_server.Store.{second}

abbrev pub default_limit : ℕ
default_limit = 1000

abbrev pub max_limit : ℕ
max_limit = 10000

-- timedelta(days=n)
abbrev pub days : ℕ → ℕ
days n = n * (86400 * second)

-- DEFAULT_RANGE
abbrev pub default_range : ℕ
default_range = days 1

-- MAX_RANGE
abbrev pub max_range : ℕ
max_range = days 366

-- What `parse_datetime` does with a text.
pub data Parsed : Type 0 where
  -- None: the text has not the form of a time
  unreadable : Parsed
  -- ValueError: it has, but there is no such time
  impossible : Parsed
  aware naive : ℕ → Parsed

-- What Django and Python do with the texts of a query.
pub record Reader : Type 0 where
  pub parse_datetime : String → Parsed
  pub make_aware : ℕ → ℕ
  pub parse_int : String → Option ℤ

-- request.GET.get(key, "")
unfoldable pub param : String → Dict String → String
unfolding get
param key query = elim (get key query) [ none ↦ "" | some v ↦ v ]

abbrev pub clamp : Option ℤ → ℕ
clamp none = default_limit
clamp (some (pos n)) = max 1 (min n max_limit)
clamp (some (negsuc n)) = 1

-- _parse_limit
unfoldable pub parse_limit : Reader → Dict String → ℕ
unfolding get
parse_limit env query = elim (get "limit" query) [
  | none ↦ default_limit
  | some text ↦ clamp (env.parse_int text)
]

pub data Range : Type 0 where
  window : ℕ → ℕ → Range
  bad_range : String → Range
  -- An exception of `parse_datetime`, or the OverflowError of `end - DEFAULT_RANGE`.
  raised : Range

abbrev pub parsed_or : Reader → String → Parsed → Parsed
parsed_or env text default = if is_empty text then default else env.parse_datetime text

abbrev pub minus : ℕ → ℕ → Parsed
minus n span = if ltb n span then impossible else naive (n - span)

abbrev pub as_aware : Parsed → Parsed
as_aware (naive n) = aware n
as_aware p = p

-- end - DEFAULT_RANGE
abbrev pub default_start : Parsed → Parsed
default_start (aware n) = as_aware (minus n default_range)
default_start (naive n) = minus n default_range
default_start p = p

-- The checks of _parse_range on two instants.
unfoldable pub check_span : ℕ → ℕ → Range
check_span start end =
    if leb end start
    then bad_range "'start' must be strictly before 'end'."
    else if ltb max_range (end - start)
    then bad_range "Time range exceeds the maximum of 366 days."
    else window start end

abbrev pub from_start : Reader → ℕ → Parsed → Range
from_start env end unreadable = bad_range "Invalid 'start' timestamp (expected ISO 8601)."
from_start env end impossible = raised
from_start env end (aware n) = check_span n end
from_start env end (naive n) = check_span (env.make_aware n) end

abbrev pub from_end : Reader → String → Parsed → Range
from_end env start_raw unreadable = bad_range "Invalid 'end' timestamp (expected ISO 8601)."
from_end env start_raw impossible = raised
from_end env start_raw (aware n) =
    from_start env n (parsed_or env start_raw (default_start (aware n)))
from_end env start_raw (naive n) =
    from_start env (env.make_aware n) (parsed_or env start_raw (default_start (naive n)))

-- _parse_range
unfoldable pub parse_range : Reader → ℕ → Dict String → Range
unfolding param check_span
parse_range env now query =
    from_end env (param "start" query) (parsed_or env (param "end" query) (aware now))
