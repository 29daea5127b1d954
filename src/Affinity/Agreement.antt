-- ===== src/Affinity/Agreement.antt =====
-- The two stores of src/affinity.rs against each other: what a client of the trait can see of them.
use codex_proxy_rs.Base.{
  ℕ, List, [], ◌∷◌, Option, none, some, Str, ◌≡◌, refl, sym, ap, ◌∙◌, if◌then◌else◌, ◌==◌, text_eq,
  lookup,
}
use codex_proxy_rs.Affinity.{
  Pin, AffinityStore, IsReliable, memory_store, memory_get, memory_store-IsReliable, redis_key,
}
use codex_proxy_rs.Affinity.Redis.{
  Redis, PinCodec, IsUp, redis_get, redis_store, redis_store-IsReliable,
}

-- A call that changes a store.
pub data Change : Type 0 where
  put : Str → Pin → Change
  clear : Str → Change

-- Changes in order.
abbrev pub perform : {S : Type 0} → AffinityStore S → S → List Change → S
perform store s [] = s
perform store s (put k p ∷ changes) = perform store (store.put s k p) changes
perform store s (clear k ∷ changes) = perform store (store.clear s k) changes

-- Two reliable stores that cannot be told apart by `get` stay so under the same changes.
reliable_agree :
    {S T : Type 0} (a : AffinityStore S) (b : AffinityStore T)
    → IsReliable a
    → IsReliable b
    → (s : S) (t : T) (changes : List Change) → ((j : Str) → a.get s j ≡ b.get t j)
    → (j : Str) → a.get (perform a s changes) j ≡ b.get (perform b t changes) j
reliable_agree a b up up' s t [] same = same
reliable_agree a b up up' s t (put k p ∷ changes) same =
    reliable_agree a b up up' (a.put s k p) (b.put t k p) changes (λ j.
      up.get-put s k j p
      ∙ (ap (λ (o : Option Pin). if k == j then some p else o) (same j)
          ∙ sym (up'.get-put t k j p)))
reliable_agree a b up up' s t (clear k ∷ changes) same =
    reliable_agree a b up up' (a.clear s k) (b.clear t k) changes (λ j.
      up.get-clear s k j
      ∙ (ap (λ (o : Option Pin). if k == j then none else o) (same j) ∙ sym (up'.get-clear t k j)))

module _ {S : Type 0} (redis : Redis S) (codec : PinCodec) (ttl_secs : ℕ) where
  -- On a Redis server that answers every command and lets no key expire, with a codec that reads back
  -- the pins it writes, and from a state with no pins: after any sequence of puts and clears, the
  -- Redis store gives for every conversation the pin that the in-memory store gives after the same
  -- sequence.
  pub redis_store-agrees :
      (s : S) (changes : List Change) (conversation_key : Str)
      → IsUp redis codec ttl_secs
      → ((key : Str) → redis.get_command s key ≡ some none)
      → redis_get redis codec ttl_secs
          (perform (redis_store redis codec ttl_secs) s changes)
          conversation_key
        ≡ memory_get (perform memory_store [] changes) conversation_key
  unfolding redis_get memory_get
  redis_store-agrees s changes conversation_key up fresh =
      reliable_agree (redis_store redis codec ttl_secs) memory_store
        (redis_store-IsReliable redis codec ttl_secs up) memory_store-IsReliable s [] changes start
        conversation_key
    where
      start : (j : Str) → redis_get redis codec ttl_secs s j ≡ memory_get [] j
      start j = rw (fresh (redis_key j)) (unfold lookup in refl)
