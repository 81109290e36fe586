-- ===== src/Ota/Url.antt =====
-- The download URL of web/ota/services.py names one image: the fuel of `show` is enough, so that a
-- revision can be read back, and the other parts can be cut apart.
use sensor_server.Prelude.{
  ℕ, zero, suc, ◌+◌, ◌-◌, ◌*◌, ◌/◌, ◌%◌, ◌<◌, String, code, ◌≡◌, refl, sym, ◌∙◌, ap, arith, ltb,
  if_cases, if◌then◌else◌,
}
use sensor_server.Text.{len, concat, is_digit}
use sensor_server.Mqtt.Requests.{digit, show_fuel, show}
use sensor_server.Ota.Catalog.{Firmware}
use sensor_server.Ota.Push.{firmware_download_url}

-- A number in front of a text, behind the digits read so far, and the rest.
unfoldable pub read_number : ℕ → String → ℕ × String
unfolding is_digit
read_number n String.[] = (n, "")
read_number n (String.◌∷◌ c s) =
    let rest = read_number (n * 10 + (code c - 48)) s in
    if is_digit (code c) then rest else (n, String.◌∷◌ c s)

read_number-digit :
    (n d : ℕ) (s : String)
    → d < 10
    → read_number n (concat (digit d) s) ≡ read_number (n * 10 + d) s
unfolding read_number concat is_digit
read_number-digit n zero s h = refl
read_number-digit n (suc zero) s h = refl
read_number-digit n (suc (suc zero)) s h = refl
read_number-digit n (suc (suc (suc zero))) s h = refl
read_number-digit n (suc (suc (suc (suc zero)))) s h = refl
read_number-digit n (suc (suc (suc (suc (suc zero))))) s h = refl
read_number-digit n (suc (suc (suc (suc (suc (suc zero)))))) s h = refl
read_number-digit n (suc (suc (suc (suc (suc (suc (suc zero))))))) s h = refl
read_number-digit n (suc (suc (suc (suc (suc (suc (suc (suc zero)))))))) s h = refl
read_number-digit n (suc (suc (suc (suc (suc (suc (suc (suc (suc zero))))))))) s h = refl
read_number-digit n (suc (suc (suc (suc (suc (suc (suc (suc (suc (suc d)))))))))) s h =
    ground (arith, h)

concat_assoc : (a b c : String) → concat (concat a b) c ≡ concat a (concat b c)
unfolding concat
concat_assoc String.[] b c = refl
concat_assoc (String.◌∷◌ x a) b c = ap (λ s. String.◌∷◌ x s) (concat_assoc a b c)

show_fuel-concat :
    (fuel n : ℕ) (t s : String) → concat (show_fuel fuel n t) s ≡ show_fuel fuel n (concat t s)
unfolding show_fuel
show_fuel-concat zero n t s = refl
show_fuel-concat (suc fuel) n t s = ground (
  arith,
  concat_assoc (digit n) t s,
  concat_assoc (digit (n % 10)) t s,
  show_fuel-concat fuel (n / 10) (concat (digit (n % 10)) t) s,
)

read_number-show_fuel :
    (fuel n : ℕ) (s : String) → n < fuel → read_number 0 (show_fuel fuel n s) ≡ read_number n s
unfolding show_fuel
read_number-show_fuel zero n s h = ground (arith, h)
read_number-show_fuel (suc fuel) n s h =
    if_cases (λ (t : String). read_number 0 t ≡ read_number n s) (ltb n 10)
      (λ e. read_number-digit 0 n s (ground (arith, e)) ∙ ap (λ k. read_number k s) (omega arith))
      (λ e.
        read_number-show_fuel fuel (n / 10) (concat (digit (n % 10)) s) (ground (arith, e, h))
        ∙ read_number-digit (n / 10) (n % 10) s (omega arith)
        ∙ ap (λ k. read_number k s) (omega arith))

concat-cancel : (a b s t : String) → len a ≡ len b → concat a s ≡ concat b t → (a ≡ b) × (s ≡ t)
unfolding concat
concat-cancel String.[] String.[] s t e h = (refl, h)
concat-cancel String.[] (String.◌∷◌ y b) s t e h = ground (arith, e)
concat-cancel (String.◌∷◌ x a) String.[] s t e h = ground (arith, e)
concat-cancel (String.◌∷◌ x a) (String.◌∷◌ y b) s t e h =
    let p : x ≡ y = cc in
    let q : concat a s ≡ concat b t = cc in
    let r = concat-cancel a b s t (omega (arith, e)) q in
    (ap (λ c. String.◌∷◌ c a) p ∙ ap (λ u. String.◌∷◌ y u) r.0, r.1)

len-concat : (a b : String) → len (concat a b) ≡ len a + len b
unfolding concat
len-concat String.[] b = omega arith
len-concat (String.◌∷◌ x a) b = omega (arith, len-concat a b)

concat-cancel_left : (a s t : String) → concat a s ≡ concat a t → s ≡ t
concat-cancel_left a s t h = (concat-cancel a a s t refl h).1

concat-cancel_right : (a b s : String) → concat a s ≡ concat b s → a ≡ b
concat-cancel_right a b s h =
    (concat-cancel a b s s
      (omega (arith, sym (len-concat a s) ∙ ap (λ t. len t) h ∙ len-concat b s)) h).0

-- A printed number in front of a text that starts with a slash can be read back.
read_number-show :
    (n : ℕ) (s : String) → read_number 0 (concat (show n) (concat "/" s)) ≡ (n, concat "/" s)
unfolding show concat read_number is_digit
read_number-show n s =
    ap (λ t. read_number 0 t) (show_fuel-concat (suc n) n "" (concat "/" s))
    ∙ read_number-show_fuel (suc n) n (concat "/" s) (omega arith)

show-cancel :
    (n m : ℕ) (s t : String)
    → concat (show n) (concat "/" s) ≡ concat (show m) (concat "/" t)
    → (n ≡ m) × (s ≡ t)
show-cancel n m s t h =
    let e = sym (read_number-show n s) ∙ ap (λ u. read_number 0 u) h ∙ read_number-show m t in
    (ap (λ p. p.0) e, concat-cancel_left "/" s t (ap (λ p. p.1) e))

-- If two images have one download URL under the same base, and their hardware codes are of one
-- length, then they have the same hardware code, revision and version.
pub firmware_download_url-injective :
    (base : String) (f g : Firmware)
    → len f.hw_code ≡ len g.hw_code
    → firmware_download_url base f ≡ firmware_download_url base g
    → (f.hw_code ≡ g.hw_code) × (f.hw_rev ≡ g.hw_rev) × (f.version ≡ g.version)
unfolding firmware_download_url
firmware_download_url-injective base f g e h =
    let codes =
      concat-cancel f.hw_code g.hw_code _ _ e
        (concat-cancel_left "/fw/" _ _ (concat-cancel_left base _ _ h)) in
    let revisions = show-cancel f.hw_rev g.hw_rev _ _ (concat-cancel_left "/" _ _ codes.1) in
    (codes.0, revisions.0, concat-cancel_right f.version g.version ".bin" revisions.1)
