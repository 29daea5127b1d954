-- ===== src/Transform/Numbering.antt =====
-- The indexes that the transformer of src/transform/mod.rs gives to tool calls.
use codex_proxy_rs.Base.{
  ℕ, ◌+◌, ◌%◌, ◌^◌, ◌<◌, true, false, Option, none, some, Str, ◌≡◌, refl, sym, ◌∙◌, lookup,
  lookup-insert, lookup-insert_self, Bool-cases, inl, inr, ◌⊎◌, text_eq, ◌==◌, ==_iff,
  if◌then◌else◌, arith,
}
use codex_proxy_rs.Transform.{SseTransformer, record_tool_call, called, index_from, tool_index, new}
use codex_proxy_rs.Transform.Upstream.{FunctionCallItem}

-- Every index in use is below the next one, and no two items share an index.
pub record IsNumbered (t : SseTransformer) : Type 0 where
  pub bounded :
      (id : Str) (i : ℕ) → lookup id t.tool_index_by_item_id ≡ some i → i < t.next_tool_index
  pub distinct :
      (id other : Str) (i : ℕ)
      → lookup id t.tool_index_by_item_id ≡ some i
      → lookup other t.tool_index_by_item_id ≡ some i
      → id ≡ other

pub new-IsNumbered : (model : Str) → IsNumbered (new model)
unfolding new lookup
new-IsNumbered model = record { bounded = λ id i e. cc; distinct = λ id other i e f. cc }

-- The index of a new call.
fresh :
    (t : SseTransformer) (id : Str)
    → t.next_tool_index + 1 < 2 ^ 64
    → lookup id t.tool_index_by_item_id ≡ none
    → IsNumbered t
    → IsNumbered (index_from t id none).0
fresh t id room unknown h = record {
  bounded = λ asked i e. below asked i (sym (lookup-insert id asked t.next_tool_index _) ∙ e);
  distinct = λ one other i e f.
      apart one other i (sym (lookup-insert id one t.next_tool_index _) ∙ e)
        (sym (lookup-insert id other t.next_tool_index _) ∙ f);
}
  where
    below :
        (asked : Str) (i : ℕ)
        → (if id == asked then some t.next_tool_index else lookup asked t.tool_index_by_item_id)
          ≡ some i
        → i < (t.next_tool_index + 1) % 2 ^ 64
    below asked i e = elim (Bool-cases (id == asked)) [
      | inl same ↦ new i (rw same at e)
      | inr other ↦ old i (h.bounded asked i (rw other at e))
    ]
      where
        new : (i : ℕ) → some t.next_tool_index ≡ some i → i < (t.next_tool_index + 1) % 2 ^ 64
        new i e = let same : t.next_tool_index ≡ i = cc in omega arith

        old : (i : ℕ) → i < t.next_tool_index → i < (t.next_tool_index + 1) % 2 ^ 64
        old i lt = omega arith

    apart :
        (one other : Str) (i : ℕ)
        → (if id == one then some t.next_tool_index else lookup one t.tool_index_by_item_id)
          ≡ some i
        → (if id == other then some t.next_tool_index else lookup other t.tool_index_by_item_id)
          ≡ some i
        → one ≡ other
    apart one other i e f = both (Bool-cases (id == one)) (Bool-cases (id == other))
      where
        -- The next index is not in use.
        taken :
            {C : Type 0} (known : Str) (i : ℕ)
            → some t.next_tool_index ≡ some i
            → lookup known t.tool_index_by_item_id ≡ some i
            → C
        taken known i e f =
            let same : t.next_tool_index ≡ i = cc in
            let lt = h.bounded known i f in absurd (omega arith)

        both :
            ((id == one) ≡ true) ⊎ ((id == one) ≡ false)
            → ((id == other) ≡ true) ⊎ ((id == other) ≡ false)
            → one ≡ other
        both (inl a) (inl b) = sym ((==_iff id one).0 a) ∙ (==_iff id other).0 b
        both (inl a) (inr b) = taken other i (rw a at e) (rw b at f)
        both (inr a) (inl b) = taken one i (rw b at f) (rw a at e)
        both (inr a) (inr b) = h.distinct one other i (rw a at e) (rw b at f)

-- A tool call that starts keeps the numbering of an earlier call of its item, and otherwise takes the
-- next index, as long as the counter has room below 2^64: all indexes stay distinct and below the
-- next one.
pub record_tool_call-IsNumbered :
    (t : SseTransformer) (item : FunctionCallItem) (call_id : Str)
    → t.next_tool_index + 1 < 2 ^ 64
    → IsNumbered t
    → IsNumbered (record_tool_call t item call_id).0
      × (lookup item.id (record_tool_call t item call_id).0.tool_index_by_item_id
          ≡ some (record_tool_call t item call_id).1)
unfolding record_tool_call tool_index
record_tool_call-IsNumbered t item call_id room h = go (lookup item.id t.tool_index_by_item_id) refl
  where
    go :
        (o : Option ℕ)
        → lookup item.id t.tool_index_by_item_id ≡ o
        → IsNumbered (called item call_id (index_from t item.id o)).0
          × (lookup item.id (called item call_id (index_from t item.id o)).0.tool_index_by_item_id
              ≡ some (called item call_id (index_from t item.id o)).1)
    go none e = (
      record {
        bounded = (fresh t item.id room e h).bounded;
        distinct = (fresh t item.id room e h).distinct;
      },
      lookup-insert_self item.id t.next_tool_index t.tool_index_by_item_id,
    )
    go (some i) e = (record { bounded = h.bounded; distinct = h.distinct }, e)
