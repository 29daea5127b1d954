-- ===== src/Conversation.antt =====
-- The conversation key: src/conversation.rs and the extractors of src/request.rs that it calls.
pub mod Payload
use codex_proxy_rs.Base.{
  ℕ, ◌+◌, ◌/◌, ◌%◌, ◌||◌, ◌&&◌, not, Bool, false, List, [], ◌∷◌, ◌++◌, Option, none, some, Str,
  if◌then◌else◌, ◌==◌, text_eq, codes, trim, is_empty, leb, ltb, byte_len, is_control, join,
  replace, zero, suc,
}
use codex_proxy_rs.Json.{Value, text, array, items, get, as_array, as_object, get_str, ◌>>=◌}

abbrev pub names_to_replace : List Str
names_to_replace =
    codes "Zed"
    ∷ codes "Cline"
    ∷ codes "Roo"
    ∷ codes "GitHub Copilot"
    ∷ codes "Copilot"
    ∷ codes "Cursor"
    ∷ codes "Microsoft"
    ∷ codes "Copilot"
    ∷ []

replace_all : List Str → Str → Str
replace_all [] out = out
replace_all (name ∷ names) out = replace_all names (replace name (codes "Codex") out)

unfoldable pub replace_names : Str → Str
unfolding replace_all
replace_names input = replace_all names_to_replace input

-- The `text` of an item that is an object and has one.
unfoldable pub item_text : Value → Option Str
item_text item = do im ← as_object item; get_str (codes "text") im

-- The non-empty texts of a list of content items, names replaced.
pub replaced_texts : List Value → List Str
replaced_texts [] = []
replaced_texts (item ∷ rest) =
    let texts = replaced_texts rest in
    elim (item_text item) [
      | none ↦ texts
      | some t ↦ if is_empty t then texts else replace_names t ∷ texts
    ]

-- What one system message adds to the instructions.
unfoldable pub system_part : Option Value → List Str
unfolding replaced_texts
system_part (some (text t)) = if is_empty t then [] else replace_names t ∷ []
system_part (some (array vs)) =
    let segs = replaced_texts (items vs) in
    if is_empty segs then [] else join (codes "\n") segs ∷ []
system_part _ = []

-- `role == Some(role)` for a message that is an object.
abbrev pub has_role : Str → Value → Bool
has_role role msg = elim (as_object msg >>= get_str (codes "role")) [
  | none ↦ false
  | some r ↦ r == role
]

instruction_parts : List Value → List Str
instruction_parts [] = []
instruction_parts (msg ∷ msgs) =
    let parts = instruction_parts msgs in
    if has_role (codes "system") msg
    then system_part (get (codes "content") msg) ++ parts
    else parts

unfoldable pub extract_instructions : Value → Str
unfolding instruction_parts
extract_instructions request = elim (get (codes "messages") request >>= as_array) [
  | none ↦ []
  | some msgs ↦ trim (join (codes "\n\n") (instruction_parts msgs))
]

-- The first text of a list of items that is not blank, names replaced.
first_text : List Value → Option Str
first_text [] = none
first_text (item ∷ rest) =
    let later = first_text rest in
    elim (item_text item) [
      | none ↦ later
      | some t ↦ if is_empty (trim t) then later else some (replace_names t)
    ]

-- The text that a `user` entry of `input` gives: array content only.
input_text : Value → Option Str
input_text entry = do content ← get (codes "content") entry; vs ← as_array content; first_text vs

-- The text that a `user` message of `messages` gives: string or array content.
message_text : Option Value → Option Str
message_text (some (text t)) = if is_empty (trim t) then none else some (replace_names t)
message_text (some (array vs)) = first_text (items vs)
message_text _ = none

abbrev or_else : Option Str → Option Str → Option Str
or_else none other = other
or_else (some t) other = some t

first_user : (Value → Option Str) → List Value → Option Str
first_user read [] = none
first_user read (msg ∷ msgs) =
    let later = first_user read msgs in
    if has_role (codes "user") msg then or_else (read msg) later else later

unfoldable pub extract_first_user_text : Value → Str
unfolding first_text input_text message_text first_user
extract_first_user_text body =
    let from_input = get (codes "input") body >>= as_array >>= first_user input_text in
    let from_messages =
      get (codes "messages") body
      >>= as_array
      >>= first_user (λ msg. message_text (get (codes "content") msg)) in
    elim (or_else from_input from_messages) [ none ↦ [] | some t ↦ t ]

abbrev pub max_explicit_key_len : ℕ
max_explicit_key_len = 256

any_control : Str → Bool
any_control [] = false
any_control (c ∷ s) = is_control c || any_control s

unfoldable pub valid_explicit_key : Str → Bool
unfolding any_control
valid_explicit_key s =
    not (is_empty s) && leb (byte_len s) max_explicit_key_len && not (any_control s)

pub data KeySource : Type 0 where
  explicit head_hash : KeySource

pub record ConversationKey : Type 0 where
  pub key : Str
  pub source : KeySource

-- Decimal digits, as `format!("{}", n)` prints a `usize`; `fuel` bounds the number of digits.
decimal_from : ℕ → ℕ → Str → Str
decimal_from zero n out = out
decimal_from (suc fuel) n out =
    let digits = (b'0' + n % 10) ∷ out in
    let rest = decimal_from fuel (n / 10) digits in if ltb n 10 then digits else rest

unfoldable pub decimal : ℕ → Str
unfolding decimal_from
decimal n = decimal_from (suc n) n []

-- The text that is hashed for a conversation head.
unfoldable pub head_payload : Str → Str → Str
head_payload instructions first =
    codes "instructions:"
    ++ (decimal (byte_len instructions)
        ++ (codes ":"
            ++ (instructions
                ++ (codes "\nfirst_user:" ++ (decimal (byte_len first) ++ (codes ":" ++ first))))))

-- `header` is the `x-conversation-id` header, where it is there and is visible ASCII;
-- `hash_to_uuid` is the digest of src/request.rs, whose hash is a library's.
module _ (hash_to_uuid : Str → Str) where
  unfoldable pub head_key : Str → Str → Option ConversationKey
  head_key instructions first =
      if is_empty instructions && is_empty first
      then none
      else some
          (record { key = hash_to_uuid (head_payload instructions first); source = head_hash })

  unfoldable pub resolve_conversation_key : Option Str → Value → Option ConversationKey
  resolve_conversation_key header request =
      let head =
        head_key (trim (extract_instructions request)) (trim (extract_first_user_text request)) in
      elim header [
        | none ↦ head
        | some v ↦
            if valid_explicit_key (trim v)
            then some (record { key = trim v; source = explicit })
            else head
      ]
