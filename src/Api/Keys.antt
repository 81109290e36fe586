-- ===== src/Api/Keys.antt =====
-- web/api/auth.py over the table of web/api/models.py: who may read.
use sensor_server.Prelude.{
  ℕ, String, Bool, ◌&&◌, Option, none, some, List, eqb, find, ◌==◌, if◌then◌else◌,
}
use sensor_server.Text
use sensor_server.Text.{suffix, starts_with, is_empty, concat}
use sensor_server.World.{update_where}

pub record ApiKey : Type 0 where
  pub pk : ℕ
  pub name : String
  pub prefix : String
  pub key_hash : String
  pub is_active : Bool
  pub last_used_at : Option ℕ

-- What Python's library does: SHA-256 as hexadecimal text, and `strip`.
pub record Hashing : Type 0 where
  pub hash_token : String → String
  pub strip : String → String

-- _extract_bearer_token
unfoldable pub bearer_token : Hashing → String → String
unfolding starts_with suffix
bearer_token env header = if starts_with header "Bearer " then env.strip (suffix 7 header) else ""

-- The condition of ApiKey.objects.get.
unfoldable pub opens : String → ApiKey → Bool
opens hash k = (k.key_hash == hash) && k.is_active

-- What a guarded view answers.
pub data Guarded (A : Type 0) : Type 0 where
  unauthorized : String → Guarded A
  granted : A → Guarded A

unfoldable pub mark_used : ℕ → ℕ → List ApiKey → List ApiKey
unfolding update_where
mark_used now pk keys =
    update_where (λ k. eqb k.pk pk) (λ k. record k { last_used_at = some now }) keys

abbrev pub with_key : {A : Type 0} → ℕ → A → List ApiKey → Option ApiKey → Guarded A × List ApiKey
with_key now answer keys none = (unauthorized "Invalid or inactive API key.", keys)
with_key now answer keys (some k) = (granted answer, mark_used now k.pk keys)

-- api_key_required, around a view that answers `answer`
unfoldable pub api_key_required :
    {A : Type 0} → Hashing → ℕ → String → A → List ApiKey → Guarded A × List ApiKey
unfolding bearer_token opens find mark_used
api_key_required env now header answer keys =
    let token = bearer_token env header in
    if is_empty token
    then (unauthorized "Missing Bearer token.", keys)
    else with_key now answer keys (find (opens (env.hash_token token)) keys)

-- ApiKey.set_random_token; `random` is what `token_urlsafe` gives
unfoldable pub set_random_token : Hashing → String → ApiKey → String × ApiKey
unfolding concat Text.prefix
set_random_token env random k =
    let raw = concat "sk_" random in
    (raw, record k { prefix = Text.prefix 9 raw; key_hash = env.hash_token raw })
