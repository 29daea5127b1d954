-- ===== src/Affinity/Redis.antt =====
-- `RedisAffinityStore` of src/affinity.rs: pins as JSON texts under prefixed keys. Every error is
-- swallowed.
use codex_proxy_rs.Base.{
  ℕ, ◌≡◌, refl, Bool, true, false, Option, none, some, Str, codes, text_beq, ◌==◌, text_eq,
  if◌then◌else◌,
}
use codex_proxy_rs.Json.{◌>>=◌}
use codex_proxy_rs.Affinity.{Pin, AffinityStore, IsReliable, redis_key}

-- The commands that the source sends: `get_command` is none where the command fails; a `SET` has a
-- time to live in seconds, and a failed `SET` or `DEL` may leave the state.
pub record Redis (S : Type 0) : Type 0 where
  pub get_command : S → Str → Option (Option Str)
  pub set_command : S → Str → Str → ℕ → S
  pub del_command : S → Str → S

-- The derived code that reads and writes a pin as JSON text.
pub record PinCodec : Type 0 where
  pub from_str : Str → Option Pin
  pub to_string : Pin → Option Str

module _ {S : Type 0} (redis : Redis S) (codec : PinCodec) (ttl_secs : ℕ) where
  abbrev pub found_pin : Option (Option Str) → Option Pin
  found_pin none = none
  found_pin (some raw) = raw >>= codec.from_str

  unfoldable pub redis_get : S → Str → Option Pin
  unfolding redis_key
  redis_get s conversation_key = found_pin (redis.get_command s (redis_key conversation_key))

  abbrev pub set_printed : S → Str → Option Str → S
  set_printed s key none = s
  set_printed s key (some value) = redis.set_command s key value ttl_secs

  unfoldable pub redis_put : S → Str → Pin → S
  unfolding redis_key
  redis_put s conversation_key pin =
      set_printed s (redis_key conversation_key) (codec.to_string pin)

  unfoldable pub redis_clear : S → Str → S
  unfolding redis_key
  redis_clear s conversation_key = redis.del_command s (redis_key conversation_key)

  abbrev pub redis_store : AffinityStore S
  redis_store = record { get = redis_get; put = redis_put; clear = redis_clear }

  -- A server that is up, with no key expiring: the last command on a key decides its `GET`.
  pub record IsUp : Type 0 where
    pub get-set :
        (s : S) (k j v : Str)
        → redis.get_command (redis.set_command s k v ttl_secs) j
          ≡ (if k == j then some (some v) else redis.get_command s j)
    pub get-del :
        (s : S) (k j : Str)
        → redis.get_command (redis.del_command s k) j
          ≡ (if k == j then some none else redis.get_command s j)
    pub printed : (p : Pin) → (v : Str) × (codec.to_string p ≡ some v) × (codec.from_str v ≡ some p)

  same_key : (k j : Str) → (redis_key k == redis_key j) ≡ (k == j)
  unfolding redis_key codes text_beq
  same_key k j = refl

  -- A Redis server that is up makes a reliable store.
  pub redis_store-IsReliable : IsUp → IsReliable redis_store
  unfolding redis_get redis_put redis_clear
  redis_store-IsReliable up = record {
    get-put = λ s k j p.
        let (v, written, read) = up.printed p in
        rw (written, up.get-set s (redis_key k) (redis_key j) v, same_key k j)
          (put s j p (k == j) v read);
    get-clear =
        λ s k j. rw (up.get-del s (redis_key k) (redis_key j), same_key k j) (cleared s j (k == j));
  }
    where
      put :
          (s : S) (j : Str) (p : Pin) (b : Bool) (v : Str)
          → codec.from_str v ≡ some p
          → found_pin (if b then some (some v) else redis.get_command s (redis_key j))
            ≡ (if b then some p else found_pin (redis.get_command s (redis_key j)))
      put s j p true v read = read
      put s j p false v read = refl

      cleared :
          (s : S) (j : Str) (b : Bool)
          → found_pin (if b then some none else redis.get_command s (redis_key j))
            ≡ (if b then none else found_pin (redis.get_command s (redis_key j)))
      cleared s j true = refl
      cleared s j false = refl
