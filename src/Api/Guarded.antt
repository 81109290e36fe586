-- ===== src/Api/Guarded.antt =====
-- Who is answered by web/api/auth.py.
use sensor_server.Prelude.{
  ℕ, String, ◌≡◌, refl, true, false, Option, none, some, List, [], ◌∷◌, arith, eq_iff, find,
  if_cases, map, eqb, if◌then◌else◌,
}
use sensor_server.World.Tables.{update_where-map}
use sensor_server.Text.{is_empty}
use sensor_server.Api.Keys.{
  ApiKey, Hashing, bearer_token, opens, Guarded, unauthorized, granted, mark_used, with_key,
  api_key_required,
}

-- What an answer behind the key check says of the keys.
abbrev pub IsGuarded :
    {A : Type 0} → Hashing → ℕ → String → A → List ApiKey → Guarded A × List ApiKey → Type 0
IsGuarded env now header answer keys (unauthorized detail, after) = after ≡ keys
IsGuarded env now header answer keys (granted given, after) =
    (k : ApiKey) × (find (opens (env.hash_token (bearer_token env header))) keys ≡ some k)
    × (k.is_active ≡ true)
    × (k.key_hash ≡ env.hash_token (bearer_token env header))
    × (is_empty (bearer_token env header) ≡ false)
    × (given ≡ answer)
    × (after
        ≡ map (λ (j : ApiKey). if eqb j.pk k.pk then record j { last_used_at = some now } else j)
            keys)

find-opens :
    (hash : String) (keys : List ApiKey) (k : ApiKey)
    → find (opens hash) keys ≡ some k
    → (k.key_hash ≡ hash) × (k.is_active ≡ true)
unfolding find opens
find-opens hash [] k h = cc
find-opens hash (j ∷ keys) k h = (
  ground (arith, eq_iff j.key_hash hash, find-opens hash keys k),
  ground (arith, find-opens hash keys k),
)

-- A view behind the key check is answered only to an active key whose digest is that of a token
-- that is not empty, and then of the rows of the keys just the time of last use of that key changes;
-- any other request changes nothing.
pub api_key_required-IsGuarded :
    {A : Type 0} (env : Hashing) (now : ℕ) (header : String) (answer : A) (keys : List ApiKey)
    → IsGuarded env now header answer keys (api_key_required env now header answer keys)
unfolding api_key_required
api_key_required-IsGuarded env now header answer keys =
    if_cases (IsGuarded env now header answer keys) (is_empty (bearer_token env header)) (λ _. refl)
      (λ e. keyed (find (opens (env.hash_token (bearer_token env header))) keys) refl e)
  where
    keyed :
        (o : Option ApiKey)
        → find (opens (env.hash_token (bearer_token env header))) keys ≡ o
        → is_empty (bearer_token env header) ≡ false
        → IsGuarded env now header answer keys (with_key now answer keys o)
    keyed none h e = refl
    keyed (some k) h e =
        let found = find-opens _ keys k h in
        (
          k,
          h,
          found.1,
          found.0,
          e,
          refl,
          unfold mark_used in
              update_where-map (λ (j : ApiKey). eqb j.pk k.pk)
                (λ j. record j { last_used_at = some now }) keys,
        )
