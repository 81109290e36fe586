-- ===== src/Devices/Labels.antt =====
-- The labels of web/devices/templatetags/device_tags.py. `translate` is gettext.
use sensor_server.Prelude.{
  ℕ, String, code, Option, none, some, List, [], ◌∷◌, eqb, find, if◌then◌else◌,
}
use sensor_server.Text.{is_empty}
use sensor_server.Value.{Dict, get}
use sensor_server.Mqtt.Requests.{show}

-- _RESET_CAUSE_LABELS
abbrev pub reset_cause_labels : List (ℕ × String)
reset_cause_labels =
    (0, "unknown")
    ∷ (1, "power-on")
    ∷ (2, "external")
    ∷ (3, "software")
    ∷ (4, "deep-sleep")
    ∷ (5, "brownout")
    ∷ (6, "panic")
    ∷ (7, "watchdog")
    ∷ []

-- reset_cause_label, of the column
unfoldable pub reset_cause_label : Option ℕ → String
unfolding find show
reset_cause_label none = "-"
reset_cause_label (some n) = elim (find (λ e. eqb e.0 n) reset_cause_labels) [
  | none ↦ show n
  | some (m, label) ↦ label
]

-- _diag_message_labels
abbrev pub diag_message_labels : Dict String
diag_message_labels =
    ("ok", "Nominal")
    ∷ ("booted", "Booted")
    ∷ ("fair_signal", "Fair signal")
    ∷ ("weak_signal", "Weak signal")
    ∷ ("low_memory", "Low memory")
    ∷ ("missed_wakes", "Missed wake-ups")
    ∷ ("low_battery", "Low battery")
    ∷ ("critical_battery", "Critical battery")
    ∷ ("reset_brownout", "Reset: brownout")
    ∷ ("reset_panic", "Reset: panic")
    ∷ ("reset_wdt", "Reset: watchdog")
    ∷ ("no_capabilities_response", "No capabilities response")
    ∷ []

-- message.replace("_", " ")
unfoldable pub spaced : String → String
spaced String.[] = ""
spaced (String.◌∷◌ c s) =
    let rest = spaced s in if eqb (code c) b'_' then String.◌∷◌ " " rest else String.◌∷◌ c rest

-- diag_message_label
unfoldable pub diag_message_label : (String → String) → String → String
unfolding get spaced
diag_message_label translate message =
    if is_empty message then "-" else elim (get message diag_message_labels) [
      | none ↦ spaced message
      | some label ↦ translate label
    ]

-- get_item, of a dictionary
unfoldable pub get_item : Dict String → String → String
unfolding get
get_item dictionary key = elim (get key dictionary) [ none ↦ "" | some v ↦ v ]
