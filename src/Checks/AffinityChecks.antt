-- ===== src/Checks/AffinityChecks.antt =====
-- A run of the Redis store of src/affinity.rs on a small server.
use codex_proxy_rs.Base.{
  ℕ, zero, suc, List, [], ◌∷◌, Option, none, some, Str, codes, ◌≡◌, refl, ap, text_eq, lookup,
  insert, remove, lookup-insert, lookup-remove, ◌==◌, Bool-cases, inl, inr,
}
use codex_proxy_rs.Affinity.{Pin, memory_store, memory_get}
use codex_proxy_rs.Affinity.Redis.{Redis, PinCodec, IsUp, redis_get, redis_store}
use codex_proxy_rs.Affinity.Agreement.{Change, put, clear, perform, redis_store-agrees}

-- A server whose commands never fail and whose keys never expire.
abbrev server : Redis (List (Str × Str))
server = record {
  get_command = λ s key. some (lookup key s);
  set_command = λ s key value ttl_secs. insert key value s;
  del_command = λ s key. remove key s;
}

-- The slug and the model, with a zero between them.
abbrev written_pin : Str → Str → Str
written_pin [] model = 0 ∷ model
written_pin (c ∷ slug) model = suc c ∷ written_pin slug model

abbrev push_slug : ℕ → Option Pin → Option Pin
push_slug c none = none
push_slug c (some pin) = some (record pin { slug = c ∷ pin.slug })

abbrev read_pin : Str → Option Pin
read_pin [] = none
read_pin (zero ∷ model) = some (record { slug = []; model = model })
read_pin (suc c ∷ s) = push_slug c (read_pin s)

read_pin-written_pin :
    (slug model : Str)
    → read_pin (written_pin slug model) ≡ some (record { slug = slug; model = model })
read_pin-written_pin [] model = refl
read_pin-written_pin (c ∷ slug) model = ap (push_slug c) (read_pin-written_pin slug model)

abbrev pin_codec : PinCodec
pin_codec = record { from_str = read_pin; to_string = λ p. some (written_pin p.slug p.model) }

server-IsUp : IsUp server pin_codec 3600
server-IsUp = record {
  get-set = λ s k j v.
      rw (lookup-insert k j v s)
        (elim (Bool-cases (k == j)) [ inl same ↦ rw same refl | inr other ↦ rw other refl ]);
  get-del = λ s k j.
      rw (lookup-remove k j s)
        (elim (Bool-cases (k == j)) [ inl same ↦ rw same refl | inr other ↦ rw other refl ]);
  printed = λ p. (written_pin p.slug p.model, refl, read_pin-written_pin p.slug p.model);
}

abbrev moved : List Change
moved =
    put (codes "c1") (record { slug = codes "alice"; model = codes "gpt-5" })
    ∷ put (codes "c2") (record { slug = codes "bob"; model = codes "gpt-5" })
    ∷ clear (codes "c1")
    ∷ []

redis_store-agrees_example :
    redis_get server pin_codec 3600
      (perform (redis_store server pin_codec 3600) [] moved)
      (codes "c2")
    ≡ memory_get (perform memory_store [] moved) (codes "c2")
redis_store-agrees_example =
    redis_store-agrees server pin_codec 3600 [] moved (codes "c2") server-IsUp
      (λ key. unfold lookup in refl)
