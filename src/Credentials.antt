-- ===== src/Credentials.antt =====
-- The credential stores of src/credentials: the types of mod.rs and env.rs.
pub mod Storage
pub mod File
pub mod Oauth
pub mod Refresher
use codex_proxy_rs.Base.{◌≡◌, ap, ℤ, Option, Str}

-- `CredentialsKind`.
pub data CredentialsKind : Type 0 where
  basic : CredentialsKind
  o_auth : CredentialsKind

-- `Credentials`.
pub record Credentials : Type 0 where
  pub token : Str
  pub account_id : Str

-- `OAuthCredentials`.
pub record OAuthCredentials : Type 0 where
  pub access_token : Str
  pub refresh_token : Str
  pub expires_at_ms : ℤ
  pub user_id : Str

-- `CredentialsError`: the errors of the storage and of the JSON library are kept as their texts.
pub data CredentialsError : Type 0 where
  o_auth_unsupported : CredentialsError
  unavailable : Str → CredentialsError
  refresh : Str → CredentialsError
  storage : Str → CredentialsError
  parse : Str → CredentialsError

pub data Result {ℓ} (E : Type ℓ) (A : Type ℓ) : Type ℓ where
  ok : A → Result E A
  err : E → Result E A

-- A call that may change the world and may fail; what was changed stays changed.
abbrev pub Action : Type 0 → Type 0 → Type 0
Action World A = World → Result CredentialsError A × World

module _ {World A : Type 0} where
  abbrev pub pure : A → Action World A
  pure a w = (ok a, w)

  abbrev pub raise : CredentialsError → Action World A
  raise e w = (err e, w)

  -- `?` on a value that is at hand.
  abbrev pub lift : Result CredentialsError A → Action World A
  lift r w = (r, w)

infixl 5 ◌>>=◌ ◌>>◌
abbrev pub ◌>>=◌ : {World A B : Type 0} → Action World A → (A → Action World B) → Action World B
◌>>=◌ m k w = let (r, after) = m w in elim r [ ok a ↦ k a after | err e ↦ (err e, after) ]

abbrev pub ◌>>◌ : {World A B : Type 0} → Action World A → Action World B → Action World B
m >> k = m >>= λ _. k

module _ {World A B : Type 0} (m : Action World A) (k : A → Action World B) (w : World)
    {after : World} where
  pub bind-ok : {a : A} → m w ≡ (ok a, after) → (m >>= k) w ≡ k a after
  bind-ok h =
      ap
        (λ (p : Result CredentialsError A × World). elim p.0 [
          | ok a ↦ k a p.1
          | err e ↦ (err e, p.1)
        ])
        h

  pub bind-err : {e : CredentialsError} → m w ≡ (err e, after) → (m >>= k) w ≡ (err e, after)
  bind-err h =
      ap
        (λ (p : Result CredentialsError A × World). elim p.0 [
          | ok a ↦ k a p.1
          | err e ↦ (err e, p.1)
        ])
        h

-- The methods of `CredentialsFetcher`.
pub record CredentialsFetcher (World : Type 0) : Type 0 where
  pub kind : CredentialsKind
  pub get_credentials : Action World Credentials
  pub refresh_credentials : Action World Unit
  pub full_credentials : Action World OAuthCredentials
  pub update_tokens : Str → Str → ℤ → Option Str → Action World Unit

-- `EnvCredentials`, with the default methods of the trait.
unfoldable pub env_credentials : {World : Type 0} → Str → Str → CredentialsFetcher World
env_credentials token account_id = record {
  kind = basic;
  get_credentials = pure (record { token = token; account_id = account_id });
  refresh_credentials = pure tt;
  full_credentials = raise o_auth_unsupported;
  update_tokens = λ access_token refresh_token expires_at_ms user_id. raise o_auth_unsupported;
}
