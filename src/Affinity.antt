-- ===== src/Affinity.antt =====
-- Conversation pins: src/affinity.rs. The store is best effort: no operation fails.
pub mod Redis
pub mod Agreement
use codex_proxy_rs.Base.{
  Str, List, ◌++◌, Option, none, some, ◌≡◌, codes, text_eq, lookup, insert, remove, lookup-insert,
  lookup-remove, if◌then◌else◌, ◌==◌,
}

pub record Pin : Type 0 where
  pub slug : Str
  pub model : Str

-- The trait `AffinityStore` over a type of states, each operation as state passing.
pub record AffinityStore (S : Type 0) : Type 0 where
  pub get : S → Str → Option Pin
  pub put : S → Str → Pin → S
  pub clear : S → Str → S

-- What a store that is up promises: the last `put` or `clear` of a key decides its `get`, and a
-- key is not touched by the operations on another key.
pub record IsReliable {S : Type 0} (store : AffinityStore S) : Type 0 where
  pub get-put :
      (s : S) (k j : Str) (p : Pin)
      → store.get (store.put s k p) j ≡ (if k == j then some p else store.get s j)
  pub get-clear :
      (s : S) (k j : Str) → store.get (store.clear s k) j ≡ (if k == j then none else store.get s j)

-- `InMemoryAffinityStore`: a map behind a lock.
abbrev pub PinMap : Type 0
PinMap = List (Str × Pin)

unfoldable pub memory_get : PinMap → Str → Option Pin
memory_get map conversation_key = lookup conversation_key map

unfoldable pub memory_put : PinMap → Str → Pin → PinMap
memory_put map conversation_key pin = insert conversation_key pin map

unfoldable pub memory_clear : PinMap → Str → PinMap
memory_clear map conversation_key = remove conversation_key map

abbrev pub memory_store : AffinityStore PinMap
memory_store = record { get = memory_get; put = memory_put; clear = memory_clear }

memory_get-put :
    (s : PinMap) (k j : Str) (p : Pin)
    → memory_get (memory_put s k p) j ≡ (if k == j then some p else memory_get s j)
unfolding memory_get memory_put
memory_get-put s k j p = lookup-insert k j p s

memory_get-clear :
    (s : PinMap) (k j : Str)
    → memory_get (memory_clear s k) j ≡ (if k == j then none else memory_get s j)
unfolding memory_get memory_clear
memory_get-clear s k j = lookup-remove k j s

-- The in-memory store keeps the promises of a reliable store.
pub memory_store-IsReliable : IsReliable memory_store
memory_store-IsReliable = record { get-put = memory_get-put; get-clear = memory_get-clear }

-- `redis_key`.
unfoldable pub redis_key : Str → Str
redis_key conversation_key = codes "conv:" ++ conversation_key
