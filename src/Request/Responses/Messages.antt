-- ===== src/Request/Responses/Messages.antt =====
-- The messages that a rewritten Responses body carries, from src/request.rs.
use codex_proxy_rs.Base.{
  Bool, false, not, List, [], ◌∷◌, Option, none, some, Str, ◌≡◌, ◌≢◌, refl, sym, ◌∙◌, ap, subst,
  codes, text_beq, text_eq, ◌==◌, lookup, insert, filter, contains, get_or, trim, is_empty,
  lookup-insert_self, lookup-insert_other, All, Bool-cases, if-both, inl, inr,
}
use codex_proxy_rs.Json.{
  Value, null, boolean, number, text, array, object, Items, nil, Fields, of_items, fields, items,
  get, get_str, as_str, as_array, as_object, ◌>>=◌,
}
use codex_proxy_rs.Model.{normalize_model}
use codex_proxy_rs.Request.Input.{object_of}
use codex_proxy_rs.Request.Responses.{
  Map, is_system, input_value, system_text_from, apply_instructions, stamped, put_input,
  put_content, sanitize_responses_input, sanitize_message, sanitized,
  transform_responses_request_body, with_instructions,
}
use codex_proxy_rs.Request.Responses.Keys.{get-object_of, rewritten-late, sent}

items-of_items : (vs : List Value) → items (of_items vs) ≡ vs
items-of_items [] = refl
items-of_items (v ∷ vs) = ap (λ rest. v ∷ rest) (items-of_items vs)

-- The `input` after the texts are replaced.
abbrev pub sent_input : List Value → Value
sent_input [] = null
sent_input (msg ∷ msgs) = array (of_items (sanitized (msg ∷ msgs)))

sanitize-input :
    (all : List Value) (rest : Map)
    → lookup
        (codes "input")
        (sanitize_responses_input (insert (codes "input") (input_value all) rest))
      ≡ some (sent_input all)
unfolding sanitize_responses_input as_array insert
sanitize-input all rest =
    ap
      (λ o.
        lookup (codes "input")
          (put_input (insert (codes "input") (input_value all) rest) (o >>= as_array)))
      found
    ∙ go all rest
  where
    found :
        get (codes "input") (object_of (insert (codes "input") (input_value all) rest))
        ≡ some (input_value all)
    found = get-object_of _ _ ∙ lookup-insert_self _ _ _

    go :
        (all : List Value) (rest : Map)
        → lookup
            (codes "input")
            (put_input (insert (codes "input") (input_value all) rest) (as_array (input_value all)))
          ≡ some (sent_input all)
    go [] rest = lookup-insert_self (codes "input") null rest
    go (msg ∷ msgs) rest =
        lookup-insert_self (codes "input") _ _
        ∙ ap (λ vs. some (array (of_items (sanitized vs)))) (items-of_items (msg ∷ msgs))

apart : (codes "content" == codes "role") ≡ false
unfolding codes text_beq
apart = refl

-- The test of a role, on the role that a message gives.
abbrev says_system : Option Value → Bool
says_system o = elim (o >>= as_str) [ none ↦ false | some r ↦ r == codes "system" ]

sanitize_message-is_system : (msg : Value) → is_system (sanitize_message msg) ≡ is_system msg
unfolding sanitize_message get_str as_object
sanitize_message-is_system (object fs) = go (get (codes "content") (object fs) >>= as_array)
  where
    go : (o : Option (List Value)) → is_system (put_content fs o) ≡ is_system (object fs)
    go none = refl
    go (some contents) = ap says_system (
        get-object_of (codes "role") _
        ∙ lookup-insert_other {key = codes "content"} _ (fields fs) apart)
sanitize_message-is_system null = refl
sanitize_message-is_system (boolean b) = refl
sanitize_message-is_system (number n) = refl
sanitize_message-is_system (text t) = refl
sanitize_message-is_system (array vs) = refl

-- No message is a system message.
abbrev pub IsSystemFree : List Value → Type 0
IsSystemFree msgs = All (λ msg. is_system msg ≡ false) msgs

sanitized-IsSystemFree : (msgs : List Value) → IsSystemFree (sanitized msgs)
unfolding sanitized
sanitized-IsSystemFree [] = tt
sanitized-IsSystemFree (msg ∷ msgs) = elim (Bool-cases (is_system msg)) [
  | inl system ↦ rw system (sanitized-IsSystemFree msgs)
  | inr other ↦ rw other (sanitize_message-is_system msg ∙ other, sanitized-IsSystemFree msgs)
]

items-sent_input : (all vs : List Value) → sent_input all ≡ array (of_items vs) → IsSystemFree vs
items-sent_input [] vs h = absurd (null≢array h)
  where
    null≢array : {us : Items} → null ≢ array us
    null≢array e = subst (λ v. elim v [ null ↦ Unit | _ ↦ ⊥ ]) e tt
items-sent_input (msg ∷ msgs) vs h =
    subst IsSystemFree (sym (items-of_items _) ∙ (ap items (ap array_items h) ∙ items-of_items vs))
      (sanitized-IsSystemFree (msg ∷ msgs))
  where
    array_items : Value → Items
    array_items (array us) = us
    array_items _ = nil

-- What `with_instructions` leaves as the messages before they are sanitized.
abbrev pub all_messages : Map → List Value
all_messages obj =
    let user_instr = trim (get_or (get_str (codes "instructions") (object_of obj)) []) in
    let messages = get_or (get (codes "input") (object_of obj) >>= as_array) [] in
    (apply_instructions user_instr (system_text_from [] messages)
      (filter (λ msg. not (is_system msg)) messages)).1

apply_instructions-none :
    (user_instr : Str) (o : Option (List Value))
    → o ≡ none
    → (apply_instructions user_instr
        (system_text_from [] (get_or o []))
        (filter (λ msg. not (is_system msg)) (get_or o []))).1
      ≡ []
unfolding system_text_from apply_instructions
apply_instructions-none user_instr none h =
    if-both (λ (p : Str × List Value). p.1 ≡ []) (is_empty user_instr) refl refl
apply_instructions-none user_instr (some msgs) h = cc

get_fields : (k : Str) (fs : Fields) → get k (object fs) ≡ lookup k (fields fs)
unfolding get
get_fields k fs = refl

with_instructions-input :
    (obj : Map)
    → lookup (codes "input") (with_instructions obj) ≡ some (sent_input (all_messages obj))
unfolding with_instructions
with_instructions-input obj = sanitize-input (all_messages obj) _

module _ (hash_to_uuid : Str → Str) (fs : Fields) (requested_model requested_effort : Str) where
  abbrev pub body : Value
  body =
      (transform_responses_request_body hash_to_uuid (object fs) requested_model requested_effort).0

  pub sent_body-input :
      get (codes "input") body
      ≡ some (sent_input (all_messages (stamped (normalize_model requested_model) (fields fs))))
  unfolding transform_responses_request_body contains codes text_beq
  sent_body-input =
      sent hash_to_uuid (codes "input") _ refl
      ∙ (rewritten-late hash_to_uuid (codes "input") _ _ _ refl refl refl refl refl
          ∙ with_instructions-input _)

  no_messages :
      get (codes "input") (object fs) >>= as_array ≡ none
      → all_messages (stamped (normalize_model requested_model) (fields fs)) ≡ []
  unfolding codes text_beq
  no_messages h =
      let found =
        get-object_of (codes "input") (stamped (normalize_model requested_model) (fields fs))
        ∙ (lookup-insert_other _ _ refl
            ∙ (lookup-insert_other _ _ refl ∙ lookup-insert_other _ _ refl)) in
      apply_instructions-none _ _ (ap (λ o. o >>= as_array) (found ∙ sym get-fields) ∙ h)
    where
      get-fields : get (codes "input") (object fs) ≡ lookup (codes "input") (fields fs)
      get-fields = get_fields (codes "input") fs

  -- Of the input of a Responses request no system message reaches the upstream.
  pub transform_responses_request_body-IsSystemFree :
      (vs : List Value)
      → get
          (codes "input")
          (transform_responses_request_body hash_to_uuid
            (object fs)
            requested_model
            requested_effort).0
        ≡ some (array (of_items vs))
      → IsSystemFree vs
  transform_responses_request_body-IsSystemFree vs h =
      let all = all_messages (stamped (normalize_model requested_model) (fields fs)) in
      let both = sym sent_body-input ∙ h in items-sent_input all vs cc

  -- An input that is not an array, such as a text, is not sent: the body has `null` instead.
  pub transform_responses_request_body-drops_input :
      get (codes "input") (object fs) >>= as_array ≡ none
      → get
          (codes "input")
          (transform_responses_request_body hash_to_uuid
            (object fs)
            requested_model
            requested_effort).0
        ≡ some null
  transform_responses_request_body-drops_input h =
      sent_body-input ∙ ap (λ all. some (sent_input all)) (no_messages h)
