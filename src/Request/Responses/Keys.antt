-- ===== src/Request/Responses/Keys.antt =====
-- The keys and the fixed fields of a rewritten Responses body, from src/request.rs.
use codex_proxy_rs.Base.{
  true, false, List, [], ◌∷◌, ◌++◌, Option, none, some, Str, ◌≡◌, refl, ◌∙◌, ap, codes, text_beq,
  text_eq, ◌==◌, lookup, contains, In, contains-In, lookup-insert_self, lookup-insert_other,
  lookup-remove_other, lookup-filter, is_some, is_empty, Bool-cases, inl, inr, if◌then◌else◌,
  if-both,
}
use codex_proxy_rs.Json.{
  Value, boolean, text, object, Fields, of_fields, fields, get, as_array, ◌>>=◌,
}
use codex_proxy_rs.Model.{
  normalize_model, normalize_reasoning_effort, clamp_reasoning_effort_for_model,
}
use codex_proxy_rs.Model.Known.{IsKnown, normalize_model-IsKnown}
use codex_proxy_rs.Request.{resolve_reasoning_summary}
use codex_proxy_rs.Request.Input.{object_of}
use codex_proxy_rs.Request.Body.{codex_responses_keys, with_cache_key}
use codex_proxy_rs.Request.Responses.{
  Map, insert_default, put_input, retain, rewritten, stamped, sanitize_responses_input,
  transform_responses_request_body, with_instructions, with_reasoning, summary_entry, effort_entry,
}

pub fields-of_fields : (fs : Map) → fields (of_fields fs) ≡ fs
fields-of_fields [] = refl
fields-of_fields ((k, v) ∷ fs) = ap (λ rest. (k, v) ∷ rest) (fields-of_fields fs)

pub get-object_of : (k : Str) (fs : Map) → get k (object_of fs) ≡ lookup k fs
unfolding get
get-object_of k fs = ap (lookup k) (fields-of_fields fs)

-- A key that no step after the first three inserts or removes.
pub record IsKept (k : Str) : Type 0 where
  pub not_instructions : (codes "instructions" == k) ≡ false
  pub not_input : (codes "input" == k) ≡ false
  pub not_include : (codes "include" == k) ≡ false
  pub not_tool_choice : (codes "tool_choice" == k) ≡ false
  pub not_parallel : (codes "parallel_tool_calls" == k) ≡ false
  pub not_reasoning : (codes "reasoning" == k) ≡ false
  pub not_cache_key : (codes "prompt_cache_key" == k) ≡ false

module _ (k : Str) where
  insert_default-other :
      (key : Str) (v : Value) (obj : Map)
      → (key == k) ≡ false
      → lookup k (insert_default key v obj) ≡ lookup k obj
  insert_default-other key v obj other =
      if-both (λ m. lookup k m ≡ lookup k obj) (is_some (lookup key obj)) refl
        (lookup-insert_other v obj other)

  with_reasoning-other :
      (effort : Str) (obj : Map)
      → (codes "reasoning" == k) ≡ false
      → lookup k (with_reasoning effort obj) ≡ lookup k obj
  unfolding with_reasoning
  with_reasoning-other effort obj other =
      if-both (λ m. lookup k m ≡ lookup k obj)
        (is_empty
          (summary_entry (resolve_reasoning_summary (object_of obj)) ++ effort_entry effort))
        (lookup-remove_other obj other) (lookup-insert_other _ obj other)

  pub with_cache_key-other :
      (hash_to_uuid : Str → Str) (model instructions : Str) (obj : Map)
      → (codes "prompt_cache_key" == k) ≡ false
      → lookup k (with_cache_key hash_to_uuid model instructions obj) ≡ lookup k obj
  unfolding with_cache_key
  with_cache_key-other hash_to_uuid model instructions obj other =
      if-both (λ m. lookup k m ≡ lookup k obj) _ refl (lookup-insert_other _ obj other)

  sanitize-other :
      (obj : Map)
      → (codes "input" == k) ≡ false
      → lookup k (sanitize_responses_input obj) ≡ lookup k obj
  unfolding sanitize_responses_input
  sanitize-other obj other = go (get (codes "input") (object_of obj) >>= as_array)
    where
      go : (o : Option (List Value)) → lookup k (put_input obj o) ≡ lookup k obj
      go none = refl
      go (some input) = lookup-insert_other _ obj other

  with_instructions-other :
      (obj : Map)
      → (codes "instructions" == k) ≡ false
      → (codes "input" == k) ≡ false
      → lookup k (with_instructions obj) ≡ lookup k obj
  unfolding with_instructions
  with_instructions-other obj a b =
      sanitize-other _ b
      ∙ (lookup-insert_other _ _ b ∙ (lookup-insert_other _ _ a ∙ lookup-remove_other obj a))

  -- Only the whitelist and the last value of a key decide what of it is sent.
  pub retained :
      (obj : Map)
      → get k (object_of (retain obj))
        ≡ (if contains codex_responses_keys k then lookup k obj else none)
  unfolding retain
  retained obj = get-object_of k (retain obj) ∙ lookup-filter (contains codex_responses_keys) k obj

stream-IsKept : IsKept (codes "stream")
unfolding codes text_beq
stream-IsKept = record {
  not_instructions = refl;
  not_input = refl;
  not_include = refl;
  not_tool_choice = refl;
  not_parallel = refl;
  not_reasoning = refl;
  not_cache_key = refl;
}

store-IsKept : IsKept (codes "store")
unfolding codes text_beq
store-IsKept = record {
  not_instructions = refl;
  not_input = refl;
  not_include = refl;
  not_tool_choice = refl;
  not_parallel = refl;
  not_reasoning = refl;
  not_cache_key = refl;
}

model-IsKept : IsKept (codes "model")
unfolding codes text_beq
model-IsKept = record {
  not_instructions = refl;
  not_input = refl;
  not_include = refl;
  not_tool_choice = refl;
  not_parallel = refl;
  not_reasoning = refl;
  not_cache_key = refl;
}

module _ (hash_to_uuid : Str → Str) where
  -- The steps after `with_instructions` touch no other key than these.
  pub rewritten-late :
      (k : Str) (obj : Map) (model effort : Str)
      → (codes "include" == k) ≡ false
      → (codes "tool_choice" == k) ≡ false
      → (codes "parallel_tool_calls" == k) ≡ false
      → (codes "reasoning" == k) ≡ false
      → (codes "prompt_cache_key" == k) ≡ false
      → lookup k (rewritten hash_to_uuid obj model effort)
        ≡ lookup k (with_instructions (stamped model obj))
  unfolding rewritten
  rewritten-late k obj model effort a b c d e =
      with_cache_key-other k hash_to_uuid model _ _ e
      ∙ (with_reasoning-other k effort _ d
          ∙ (insert_default-other k _ _ _ c
              ∙ (insert_default-other k _ _ _ b ∙ lookup-insert_other _ _ a)))

  rewritten-kept :
      (k : Str) (obj : Map) (model effort : Str)
      → IsKept k
      → lookup k (rewritten hash_to_uuid obj model effort) ≡ lookup k (stamped model obj)
  rewritten-kept k obj model effort kept =
      rewritten-late k obj model effort kept.not_include kept.not_tool_choice kept.not_parallel
        kept.not_reasoning kept.not_cache_key
      ∙ with_instructions-other k _ kept.not_instructions kept.not_input

  -- What the upstream gets of a Responses request that is an object: only keys that it accepts,
  -- never stored, always streamed, and for a known model.
  pub record IsAccepted (body : Value) (model : Str) : Type 0 where
    pub whitelisted : (k : Str) (v : Value) → get k body ≡ some v → In k codex_responses_keys
    pub streamed : get (codes "stream") body ≡ some (boolean true)
    pub not_stored : get (codes "store") body ≡ some (boolean false)
    pub for_model : get (codes "model") body ≡ some (text model)
    pub known : IsKnown model

  whitelisted-keys :
      (k : Str) (v : Value) (obj : Map)
      → get k (object_of (retain obj)) ≡ some v
      → In k codex_responses_keys
  whitelisted-keys k v obj e = elim (Bool-cases (contains codex_responses_keys k)) [
    | inl listed ↦ contains-In codex_responses_keys k listed
    | inr other ↦
        let r = retained k obj in
        let gone : get k (object_of (retain obj)) ≡ none = rw other at r in cc
  ]

  pub sent :
      (k : Str) (obj : Map)
      → contains codex_responses_keys k ≡ true
      → get k (object_of (retain obj)) ≡ lookup k obj
  sent k obj listed = retained k obj ∙ rw listed

  -- A Responses request that is an object is sent with keys that the upstream accepts only, always
  -- streamed, never stored, and for a known model.
  pub transform_responses_request_body-IsAccepted :
      (fs : Fields) (requested_model requested_effort : Str)
      → IsAccepted
          (transform_responses_request_body hash_to_uuid
            (object fs)
            requested_model
            requested_effort).0
          (normalize_model requested_model)
  unfolding transform_responses_request_body contains codes text_beq
  transform_responses_request_body-IsAccepted fs requested_model requested_effort =
      let effort =
        clamp_reasoning_effort_for_model (normalize_reasoning_effort requested_effort)
          (normalize_model requested_model) in
      let obj = rewritten hash_to_uuid (fields fs) (normalize_model requested_model) effort in
      record {
        whitelisted = λ k v e. whitelisted-keys k v obj e;
        streamed =
            sent (codes "stream") _ refl
            ∙ (rewritten-kept (codes "stream") (fields fs) _ _ stream-IsKept
                ∙ lookup-insert_self _ _ _);
        not_stored =
            sent (codes "store") _ refl
            ∙ (rewritten-kept (codes "store") (fields fs) _ _ store-IsKept
                ∙ (lookup-insert_other _ _ refl ∙ lookup-insert_self _ _ _));
        for_model =
            sent (codes "model") _ refl
            ∙ (rewritten-kept (codes "model") (fields fs) _ _ model-IsKept
                ∙ (lookup-insert_other _ _ refl
                    ∙ (lookup-insert_other _ _ refl ∙ lookup-insert_self _ _ _)));
        known = normalize_model-IsKnown requested_model;
      }
