-- ===== src/Request/Body/Accepted.antt =====
-- The body that `build_codex_request_body` of src/request.rs makes of a chat request.
use codex_proxy_rs.Base.{
  true, false, List, [], ◌∷◌, Option, some, Str, ◌≡◌, refl, sym, subst, ◌∙◌, codes, text_beq,
  text_eq, ◌==◌, ==_iff, lookup, insert, contains, contains-In, All, Bool-cases, inl, inr, if-both,
}
use codex_proxy_rs.Json.{Value}
use codex_proxy_rs.Model.{normalize_model}
use codex_proxy_rs.Model.Known.{normalize_model-IsKnown}
use codex_proxy_rs.Request.{resolve_request_model}
use codex_proxy_rs.Request.Body.{
  codex_responses_keys, with_cache_key, codex_fields, build_codex_request_body,
}
use codex_proxy_rs.Request.Responses.Keys.{IsAccepted, get-object_of, with_cache_key-other}

-- Every key of a map is listed.
abbrev IsListed : List (Str × Value) → Type 0
IsListed m = All (λ (entry : Str × Value). contains codex_responses_keys entry.0 ≡ true) m

lookup-IsListed :
    (m : List (Str × Value)) (k : Str) (v : Value)
    → IsListed m
    → lookup k m ≡ some v
    → contains codex_responses_keys k ≡ true
unfolding lookup
lookup-IsListed [] k v h e = cc
lookup-IsListed (entry ∷ m) k v h e = elim (Bool-cases (entry.0 == k)) [
  | inl same ↦
      subst (λ (s : Str). contains codex_responses_keys s ≡ true) ((==_iff entry.0 k).0 same) h.0
  | inr other ↦ lookup-IsListed m k v h.1 (rw other at e)
]

insert-IsListed :
    (m : List (Str × Value)) (k : Str) (v : Value)
    → contains codex_responses_keys k ≡ true
    → IsListed m
    → IsListed (insert k v m)
unfolding insert
insert-IsListed [] k v own h = (own, tt)
insert-IsListed (entry ∷ m) k v own h =
    if-both IsListed (entry.0 == k) (own, h.1) (h.0, insert-IsListed m k v own h.1)

module _ (hash_to_uuid : Str → Str) (to_string : Value → Option Str) (prefix inverse_prompt : Str)
    (request : Value) where
  abbrev start_fields : List (Str × Value)
  start_fields = codex_fields hash_to_uuid to_string prefix inverse_prompt request

  start_fields-IsListed : IsListed start_fields
  unfolding codex_fields contains codes text_beq
  start_fields-IsListed =
      (refl, (refl, (refl, (refl, (refl, (refl, (refl, (refl, (refl, (refl, tt))))))))))

  abbrev keyed : List (Str × Value)
  keyed =
      with_cache_key hash_to_uuid (normalize_model (resolve_request_model request)) prefix
        start_fields

  keyed-IsListed : IsListed keyed
  unfolding with_cache_key contains codes text_beq
  keyed-IsListed =
      if-both IsListed _ start_fields-IsListed
        (insert-IsListed start_fields (codes "prompt_cache_key") _ refl start_fields-IsListed)

  keyed-other :
      (k : Str) → (codes "prompt_cache_key" == k) ≡ false → lookup k keyed ≡ lookup k start_fields
  keyed-other k other = with_cache_key-other k hash_to_uuid _ prefix start_fields other

  -- A chat request becomes a body with keys that the upstream accepts only, always streamed, never
  -- stored, and for a known model.
  pub build_codex_request_body-IsAccepted :
      IsAccepted hash_to_uuid
        (build_codex_request_body hash_to_uuid to_string prefix inverse_prompt request)
        (normalize_model (resolve_request_model request))
  unfolding build_codex_request_body codex_fields codes text_beq lookup
  build_codex_request_body-IsAccepted = record {
    whitelisted = λ k v e.
        contains-In codex_responses_keys k
          (lookup-IsListed keyed k v keyed-IsListed (sym (get-object_of k keyed) ∙ e));
    streamed = get-object_of (codes "stream") keyed ∙ keyed-other (codes "stream") refl;
    not_stored = get-object_of (codes "store") keyed ∙ keyed-other (codes "store") refl;
    for_model = get-object_of (codes "model") keyed ∙ keyed-other (codes "model") refl;
    known = normalize_model-IsKnown (resolve_request_model request);
  }
