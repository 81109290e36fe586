-- ===== src/Ota/Uniqueness.antt =====
-- What a publication leaves in the catalog of web/ota/models.py.
use sensor_server.Prelude.{
  ℕ, ◌≤◌, String, ◌≡◌, ◌≢◌, refl, ◌⊎◌, inl, inr, Bool, true, false, not, ◌||◌, ℤ, pos, negsuc,
  Option, none, some, List, [], ◌∷◌, ◌++◌, arith, ltb, ◌==◌, eq_iff, eq_refl, any, find, length,
  if_cases,
}
use sensor_server.Text.{is_empty, hw_code_re}
use sensor_server.World.{update_where}
use sensor_server.Ota.Catalog.{Firmware, Catalog, is_revision, is_image}
use sensor_server.Ota.Publish.{
  Answer, ok, created, Platform, Upload, max_firmware_size, refreshed, new_image, stored,
  store_image, check_file, check_revision, publish_firmware, version_re, is_digest,
  extract_bearer_token, publish_token_required,
}

-- The image of a request is there with a digest that was computed from the stored content and that
-- the request announced, for a registered revision; no other image changed.
pub record IsPublished (env : Platform) (u : Upload) (c d : Catalog) : Type 0 where
  pub hw_rev : ℕ
  pub named : env.parse_int u.hw_rev ≡ some (pos hw_rev)
  pub registered : any (is_revision u.hw_code hw_rev) c.revisions ≡ true
  pub image : Firmware
  pub found : find (is_image u.hw_code hw_rev u.version) d.firmwares ≡ some image
  pub uploaded : u.file ≡ some image.file
  pub announced : (image.md5 ≡ env.md5_of image.file) × (image.md5 ≡ env.lower u.md5)
  pub measured : (image.size ≡ length image.file) × (image.size ≤ max_firmware_size)
  pub others :
      (code : String) (rev : ℕ) (version : String)
      → (code ≢ u.hw_code) ⊎ (rev ≢ hw_rev) ⊎ (version ≢ u.version)
      → find (is_image code rev version) d.firmwares ≡ find (is_image code rev version) c.firmwares

find-append_new {ℓ} :
    {A : Type ℓ} (p : A → Bool) (x : A) (xs : List A)
    → find p xs ≡ none
    → p x ≡ true
    → find p (xs ++ x ∷ []) ≡ some x
unfolding find
find-append_new p x [] h k = ground arith
find-append_new p x (y ∷ xs) h k = ground (arith, find-append_new p x xs)

find-append_other {ℓ} :
    {A : Type ℓ} (p : A → Bool) (x : A) (xs : List A)
    → p x ≡ false
    → find p (xs ++ x ∷ []) ≡ find p xs
unfolding find
find-append_other p x [] k = ground arith
find-append_other p x (y ∷ xs) k = ground (arith, find-append_other p x xs k)

find-update_same {ℓ} :
    {A : Type ℓ} (p : A → Bool) (f : A → A) (x : A) (xs : List A)
    → ((y : A) → p (f y) ≡ p y)
    → find p xs ≡ some x
    → find p (update_where p f xs) ≡ some (f x)
unfolding find update_where
find-update_same p f x [] keeps h = cc
find-update_same p f x (y ∷ xs) keeps h = ground (arith, keeps y, find-update_same p f x xs keeps)

find-update_other {ℓ} :
    {A : Type ℓ} (p q : A → Bool) (f : A → A) (xs : List A)
    → ((y : A) → q (f y) ≡ q y)
    → ((y : A) → p y ≡ true → q y ≡ false)
    → find q (update_where p f xs) ≡ find q xs
unfolding find update_where
find-update_other p q f [] keeps apart = refl
find-update_other p q f (y ∷ xs) keeps apart =
    ground (arith, keeps y, apart y, find-update_other p q f xs keeps apart)

is_image-apart :
    (h k : String) (m n : ℕ) (v w : String) (f : Firmware)
    → (k ≢ h) ⊎ (n ≢ m) ⊎ (w ≢ v)
    → is_image h m v f ≡ true
    → is_image k n w f ≡ false
unfolding is_image
is_image-apart h k m n v w f ne e =
    ground (arith, eq_iff f.hw_code h, eq_iff f.hw_code k, eq_iff f.version v, eq_iff f.version w)

-- A publication that is answered with success, or a catalog as it was.
abbrev pub Outcome : Platform → Upload → Catalog → Answer × Catalog → Type 0
Outcome env u c o = (((o.0 ≡ ok) ⊎ (o.0 ≡ created)) × IsPublished env u c o.1) ⊎ (o.1 ≡ c)

module _ (env : Platform) (now : ℕ) (u : Upload) (c : Catalog) (n : ℕ) (content : List ℕ) where
  abbrev Fits : Type 0
  Fits =
      (any (is_revision u.hw_code n) c.revisions ≡ true)
      × ((env.md5_of content ≡ env.lower u.md5)
          × ((length content ≤ max_firmware_size)
              × ((u.file ≡ some content) × (env.parse_int u.hw_rev ≡ some (pos n)))))

  refreshed-is_image :
      (k : String) (m : ℕ) (w : String) (f : Firmware)
      → is_image k m w (refreshed env u content f) ≡ is_image k m w f
  unfolding is_image
  refreshed-is_image k m w f = refl

  stored-Outcome :
      (o : Option Firmware)
      → find (is_image u.hw_code n u.version) c.firmwares ≡ o
      → Fits
      → Outcome env u c (stored env now u n content c o)
  stored-Outcome none h k = inl (
    inr refl,
    record {
      hw_rev = n;
      registered = k.0;
      image = new_image env now u n content;
      found =
          find-append_new (is_image u.hw_code n u.version) (new_image env now u n content)
            c.firmwares h (unfold is_image in ground (arith, eq_refl u.hw_code, eq_refl u.version));
      announced = (refl, k.1.0);
      uploaded = k.1.1.1.0;
      named = k.1.1.1.1;
      measured = (refl, k.1.1.0);
      others = λ code rev version ne.
          find-append_other (is_image code rev version) (new_image env now u n content) c.firmwares
            (is_image-apart u.hw_code code n rev u.version version (new_image env now u n content)
              ne (unfold is_image in ground (arith, eq_refl u.hw_code, eq_refl u.version)));
    },
  )
  stored-Outcome (some f) h k =
      if_cases (Outcome env u c) u.overwrite
        (λ _. inl (
          inl refl,
          record {
            hw_rev = n;
            registered = k.0;
            image = refreshed env u content f;
            found =
                find-update_same (is_image u.hw_code n u.version) (refreshed env u content) f
                  c.firmwares (refreshed-is_image u.hw_code n u.version) h;
            announced = (refl, k.1.0);
            uploaded = k.1.1.1.0;
            named = k.1.1.1.1;
            measured = (refl, k.1.1.0);
            others = λ code rev version ne.
                find-update_other (is_image u.hw_code n u.version) (is_image code rev version)
                  (refreshed env u content) c.firmwares (refreshed-is_image code rev version)
                  (λ g hit. is_image-apart u.hw_code code n rev u.version version g ne hit);
          },
        ))
        (λ _. inr refl)

module _ (env : Platform) (now : ℕ) (u : Upload) (c : Catalog) where
  store_image-Outcome :
      (hw_rev : ℤ) (content : List ℕ)
      → length content ≤ max_firmware_size
      → (u.file ≡ some content) × (env.parse_int u.hw_rev ≡ some hw_rev)
      → Outcome env u c (store_image env now u hw_rev content c)
  unfolding store_image
  store_image-Outcome (negsuc n) content small given = inr refl
  store_image-Outcome (pos n) content small given =
      if_cases (Outcome env u c) (not (any (is_revision u.hw_code n) c.revisions)) (λ _. inr refl)
        (λ known.
          if_cases (Outcome env u c) (not (env.md5_of content == env.lower u.md5)) (λ _. inr refl)
            (λ same.
              stored-Outcome env now u c n content
                (find (is_image u.hw_code n u.version) c.firmwares) refl
                (
                  ground arith,
                  (
                    (eq_iff (env.md5_of content) (env.lower u.md5)).0 (ground arith),
                    (small, given),
                  ),
                )))

  check_file-Outcome :
      (hw_rev : ℤ) (o : Option (List ℕ))
      → u.file ≡ o
      → env.parse_int u.hw_rev ≡ some hw_rev
      → Outcome env u c (check_file env now u hw_rev c o)
  check_file-Outcome hw_rev none given named = inr refl
  check_file-Outcome hw_rev (some content) given named =
      if_cases (Outcome env u c) (ltb max_firmware_size (length content)) (λ _. inr refl)
        (λ small. store_image-Outcome hw_rev content (ground arith) (given, named))

  check_revision-Outcome :
      (o : Option ℤ) → env.parse_int u.hw_rev ≡ o → Outcome env u c (check_revision env now u c o)
  check_revision-Outcome none named = inr refl
  check_revision-Outcome (some hw_rev) named =
      if_cases (Outcome env u c) (not (is_digest (env.lower u.md5))) (λ _. inr refl)
        (λ _. check_file-Outcome hw_rev u.file refl named)

  -- A publication that succeeds leaves, under the key of the request and for a registered revision,
  -- an image whose digest is both that of the stored content and the announced one, whose size is
  -- that of the content and within the limit, and no other image changed; any other answer leaves
  -- the catalog as it was.
  pub publish_firmware-IsPublished :
      (((publish_firmware env now u c).0 ≡ ok) ⊎ ((publish_firmware env now u c).0 ≡ created))
        × IsPublished env u c (publish_firmware env now u c).1
      ⊎ ((publish_firmware env now u c).1 ≡ c)
  unfolding publish_firmware
  publish_firmware-IsPublished =
      if_cases (Outcome env u c) (not (hw_code_re u.hw_code)) (λ _. inr refl)
        (λ _.
          if_cases (Outcome env u c) (not (version_re u.version)) (λ _. inr refl)
            (λ _. check_revision-Outcome (env.parse_int u.hw_rev) refl))

module _ (env : Platform) (c : Catalog) where
  -- A write behind the token check happens only for a request with a token that is not empty and is
  -- the configured one; every other request leaves the catalog as it was.
  pub publish_token_required-token :
      (expected header : String) (view : Catalog → Answer × Catalog)
      → ((publish_token_required env expected header view c).1 ≡ c)
        ⊎ (extract_bearer_token env header ≡ expected)
          × ((is_empty expected ≡ false)
              × (publish_token_required env expected header view c ≡ view c))
  unfolding publish_token_required
  publish_token_required-token expected header view =
      if_cases P (is_empty expected) (λ _. inl refl)
        (λ set.
          if_cases P
            (is_empty (extract_bearer_token env header)
              || not (extract_bearer_token env header == expected))
            (λ _. inl refl)
            (λ given.
              inr (
                (eq_iff (extract_bearer_token env header) expected).0 (ground arith),
                (set, refl),
              )))
    where
      P : Answer × Catalog → Type 0
      P o =
          (o.1 ≡ c)
          ⊎ (extract_bearer_token env header ≡ expected)
            × ((is_empty expected ≡ false) × (o ≡ view c))
