-- ===== src/Mqtt/Addressing.antt =====
-- Topics: what `parse_topic` of web/mqtt_bridge/services.py lets through.
use sensor_server.Prelude.{
  ℕ, ◌≤◌, String, code, ◌≡◌, ◌≢◌, refl, subst, inl, inr, true, ◌&&◌, some, List, [], ◌∷◌, All,
  arith, eqb, Bool-cases, and-left, and-right, leb→le,
}
use sensor_server.Text.{
  len, concat, is_empty, split, match_star, match_plus, identifier_char, is_upper, is_lower,
  is_digit, safe_identifier_re,
}
use sensor_server.Text.Splitting.{
  join, join-split, OnePiece, split-OnePiece, split-AllOnePiece, split-concat,
}
use sensor_server.Mqtt.Topic.{Topic, is_safe_identifier, topic_of_parts, parse_topic}

-- The topic separator and the two wildcards of MQTT.
abbrev pub IsPlain : ℕ → Type 0
IsPlain c = (c ≢ b'/') × (c ≢ b'+') × (c ≢ b'#')

abbrev pub AllPlain : String → Type 0
AllPlain String.[] = Unit
AllPlain (String.◌∷◌ c s) = IsPlain (code c) × AllPlain s

identifier_char-IsPlain : (c : ℕ) → identifier_char c ≡ true → IsPlain c
unfolding identifier_char is_upper is_lower is_digit
identifier_char-IsPlain c h = (λ e. ground arith, λ e. ground arith, λ e. ground arith)

match_star-AllPlain : (s : String) → match_star identifier_char s ≡ true → AllPlain s
unfolding match_star
match_star-AllPlain String.[] h = tt
match_star-AllPlain (String.◌∷◌ c s) h = elim (Bool-cases (identifier_char (code c))) [
  | inl inside ↦ (identifier_char-IsPlain (code c) inside, match_star-AllPlain s (ground arith))
  | inr outside ↦ last s (code c) (ground arith)
]
  where
    last : (s : String) (n : ℕ) → (eqb n 10 && is_empty s) ≡ true → IsPlain n × AllPlain s
    last String.[] n e = ((λ z. ground arith, λ z. ground arith, λ z. ground arith), tt)
    last (String.◌∷◌ d s) n e = ground arith

-- An identifier: no separator and no wildcard, not empty, at most 128 characters.
pub record IsIdentifier (s : String) : Type 0 where
  pub plain : AllPlain s
  pub not_empty : 1 ≤ len s
  pub fits : len s ≤ 128

is_safe_identifier-IsIdentifier : (s : String) → is_safe_identifier s ≡ true → IsIdentifier s
unfolding is_safe_identifier safe_identifier_re match_plus
is_safe_identifier-IsIdentifier String.[] h = cc
is_safe_identifier-IsIdentifier (String.◌∷◌ c s) h = record {
  plain = (identifier_char-IsPlain (code c) (ground arith), match_star-AllPlain s (ground arith));
  not_empty = omega arith;
  fits = leb→le (len (String.◌∷◌ c s)) 128 (and-right _ _ h);
}

-- The text of a topic.
abbrev pub topic_text : Topic → String
topic_text t = concat t.device_type (concat "/" (concat t.device_id (concat "/" t.msg_type)))

-- `topic` reads as type/id/message type, with two identifiers in front and no further separator.
pub record Reads (topic : String) (t : Topic) : Type 0 where
  pub text : topic_text t ≡ topic
  pub device_type : IsIdentifier t.device_type
  pub device_id : IsIdentifier t.device_id
  pub msg_type : OnePiece t.msg_type

topic_of_parts-Reads :
    (ps : List String) (t : Topic)
    → All OnePiece ps
    → topic_of_parts ps ≡ some t
    → Reads (join ps) t
unfolding topic_of_parts
topic_of_parts-Reads [] t pieces h = cc
topic_of_parts-Reads (a ∷ []) t pieces h = cc
topic_of_parts-Reads (a ∷ b ∷ []) t pieces h = cc
topic_of_parts-Reads (a ∷ b ∷ c ∷ []) t pieces h =
    elim (Bool-cases (is_safe_identifier a && is_safe_identifier b)) [
      | inl safe ↦
          subst (λ u. Reads (join (a ∷ b ∷ c ∷ [])) u) (ground arith)
            (record {
              text = refl;
              device_type = is_safe_identifier-IsIdentifier a (and-left _ _ safe);
              device_id = is_safe_identifier-IsIdentifier b (and-right _ _ safe);
              msg_type = pieces.1.1.0;
            })
      | inr unsafe ↦ ground arith
    ]
topic_of_parts-Reads (a ∷ b ∷ c ∷ d ∷ ps) t pieces h = cc

-- A topic that is let through is a device type, a device id and a message type, with one separator
-- between them and none inside the message type, and nothing else; its device type and device id are identifiers: not empty, at most 128 characters, without separator and
-- without MQTT wildcard.
pub parse_topic-Reads : (topic : String) (t : Topic) → parse_topic topic ≡ some t → Reads topic t
unfolding parse_topic
parse_topic-Reads topic t h =
    subst (λ s. Reads s t) (join-split topic)
      (topic_of_parts-Reads (split b'/' topic) t (split-AllOnePiece topic) h)

AllPlain-OnePiece : (s : String) → AllPlain s → OnePiece s
AllPlain-OnePiece String.[] h = tt
AllPlain-OnePiece (String.◌∷◌ c s) h = (h.0.0, AllPlain-OnePiece s h.1)

safe-OnePiece : (s : String) → is_safe_identifier s ≡ true → OnePiece s
safe-OnePiece s h = AllPlain-OnePiece s (is_safe_identifier-IsIdentifier s h).plain

-- Printed and read back: a topic of two safe identifiers and a message type without separator
-- parses to just those three.
pub parse_topic-topic_text :
    (t : Topic)
    → is_safe_identifier t.device_type ≡ true
    → is_safe_identifier t.device_id ≡ true
    → OnePiece t.msg_type
    → parse_topic (topic_text t) ≡ some t
unfolding parse_topic topic_of_parts
parse_topic-topic_text t h k m =
    rw
      (
        split-concat t.device_type (concat t.device_id (concat "/" t.msg_type)) (safe-OnePiece _ h),
        split-concat t.device_id t.msg_type (safe-OnePiece _ k),
        split-OnePiece t.msg_type m,
        h,
        k,
      )
      refl
