-- ===== src/Buffered/Chat/Totals.antt =====
-- What the completion of src/buffered.rs holds of the chunks.
use codex_proxy_rs.Base.{
  ℕ, ◌<◌, ◌≡◌, refl, ap, sym, ◌∙◌, List, [], ◌∷◌, ◌++◌, append_assoc, append-nil, Option, none,
  some, Str, Bytes, get_or, ltb, ◌==◌, nat_eq, Bool-cases, inl, inr, All, arith,
}
use codex_proxy_rs.Buffered.Chat.{
  StreamingChunk, StreamingChoice, ToolCallDelta, ToolCallAccumulator, ToolCalls, Collected,
  push_some, absorb_call, absorb_calls, absorb_choice, absorb_choices, absorb_chunk, absorb_frames,
}

-- The contents of the choices, one after the other.
pub choices_content : List StreamingChoice → Str
choices_content [] = []
choices_content (choice ∷ choices) = get_or choice.delta.content [] ++ choices_content choices

-- The contents of the frames that are chunks, one after the other.
pub frames_content : (Bytes → Option StreamingChunk) → List Bytes → Str
frames_content chunk_of [] = []
frames_content chunk_of (frame ∷ frames) = elim (chunk_of frame) [
  | none ↦ frames_content chunk_of frames
  | some chunk ↦ choices_content chunk.choices ++ frames_content chunk_of frames
]

push_some-get_or : (s : Str) (o : Option Str) → push_some s o ≡ s ++ get_or o []
push_some-get_or s none = sym (append-nil s)
push_some-get_or s (some more) = refl

absorb_choices-content :
    (c : Collected) (choices : List StreamingChoice)
    → (absorb_choices c choices).content ≡ c.content ++ choices_content choices
unfolding absorb_choices absorb_choice choices_content
absorb_choices-content c [] = sym (append-nil c.content)
absorb_choices-content c (choice ∷ choices) =
    absorb_choices-content (absorb_choice c choice) choices
    ∙ (ap (λ s. s ++ choices_content choices) (push_some-get_or c.content choice.delta.content)
        ∙ append_assoc c.content (get_or choice.delta.content []) (choices_content choices))

-- The collected content is what was there before and then the contents of all chunks in their
-- order; frames that are no chunks add nothing.
pub absorb_frames-content :
    (chunk_of : Bytes → Option StreamingChunk) (c : Collected) (frames : List Bytes)
    → (absorb_frames chunk_of c frames).content ≡ c.content ++ frames_content chunk_of frames
unfolding absorb_frames absorb_chunk frames_content
absorb_frames-content chunk_of c [] = sym (append-nil c.content)
absorb_frames-content chunk_of c (frame ∷ frames) =
    go (absorb_frames-content chunk_of c frames) (λ c. absorb_frames-content chunk_of c frames)
      (chunk_of frame)
  where
    go :
        (absorb_frames chunk_of c frames).content ≡ c.content ++ frames_content chunk_of frames
        → ((c : Collected)
            → (absorb_frames chunk_of c frames).content
              ≡ c.content ++ frames_content chunk_of frames)
        → (o : Option StreamingChunk)
        → (elim o as (λ _. Collected) [
          | none ↦ absorb_frames chunk_of c frames
          | some chunk ↦ absorb_frames chunk_of (absorb_chunk c chunk) frames
        ]).content
          ≡ c.content ++ (elim o [
            | none ↦ frames_content chunk_of frames
            | some chunk ↦ choices_content chunk.choices ++ frames_content chunk_of frames
          ])
    go same other none = same
    go same other (some chunk) =
        other (absorb_chunk c chunk)
        ∙ (ap (λ s. s ++ frames_content chunk_of frames) (absorb_choices-content _ chunk.choices)
            ∙ append_assoc c.content (choices_content chunk.choices)
                (frames_content chunk_of frames))

-- The calls stand in the order of their indexes, each index once.
abbrev pub IsSorted : ToolCalls → Type 0
IsSorted [] = Unit
IsSorted (entry ∷ entries) =
    All (λ (later : ℕ × ToolCallAccumulator). entry.0 < later.0) entries × IsSorted entries

below :
    (low high : ℕ)
    → low < high
    → (entries : ToolCalls) → All (λ (later : ℕ × ToolCallAccumulator). high < later.0) entries
    → All (λ (later : ℕ × ToolCallAccumulator). low < later.0) entries
below low high lt [] h = tt
below low high lt (entry ∷ entries) h = (omega (arith, h.0), below low high lt entries h.1)

absorb_call-bound :
    (low : ℕ) (calls : ToolCalls) (tc : ToolCallDelta)
    → low < tc.index
    → All (λ (later : ℕ × ToolCallAccumulator). low < later.0) calls
    → All (λ (later : ℕ × ToolCallAccumulator). low < later.0) (absorb_call calls tc)
unfolding absorb_call
absorb_call-bound low [] tc lt h = (lt, tt)
absorb_call-bound low (entry ∷ entries) tc lt h = elim (Bool-cases (entry.0 == tc.index)) [
  | inl same ↦ rw same (h.0, h.1)
  | inr other ↦ elim (Bool-cases (ltb tc.index entry.0)) [
    | inl before ↦ rw (other, before) (lt, h)
    | inr after ↦ rw (other, after) (h.0, absorb_call-bound low entries tc lt h.1)
  ]
]

-- A delta of a tool call keeps the calls in order.
pub absorb_call-IsSorted :
    (calls : ToolCalls) (tc : ToolCallDelta) → IsSorted calls → IsSorted (absorb_call calls tc)
unfolding absorb_call
absorb_call-IsSorted [] tc h = (tt, tt)
absorb_call-IsSorted (entry ∷ entries) tc h = elim (Bool-cases (entry.0 == tc.index)) [
  | inl same ↦ rw same h
  | inr other ↦ elim (Bool-cases (ltb tc.index entry.0)) [
    | inl before ↦
        rw (other, before) ((ground arith, below tc.index entry.0 (ground arith) entries h.0), h)
    | inr after ↦
        rw (other, after)
          (
            absorb_call-bound entry.0 entries tc (ground arith) h.0,
            absorb_call-IsSorted entries tc h.1,
          )
  ]
]

absorb_calls-IsSorted :
    (calls : ToolCalls) (tcs : List ToolCallDelta)
    → IsSorted calls
    → IsSorted (absorb_calls calls tcs)
unfolding absorb_calls
absorb_calls-IsSorted calls [] h = h
absorb_calls-IsSorted calls (tc ∷ tcs) h =
    absorb_calls-IsSorted (absorb_call calls tc) tcs (absorb_call-IsSorted calls tc h)

absorb_choices-IsSorted :
    (c : Collected) (choices : List StreamingChoice)
    → IsSorted c.tool_calls
    → IsSorted (absorb_choices c choices).tool_calls
unfolding absorb_choices absorb_choice
absorb_choices-IsSorted c [] h = h
absorb_choices-IsSorted c (choice ∷ choices) h =
    absorb_choices-IsSorted (absorb_choice c choice) choices
      (absorb_calls-IsSorted c.tool_calls (get_or choice.delta.tool_calls []) h)

-- The tool calls of the completion stand in the order of their indexes, each index once.
pub absorb_frames-IsSorted :
    (chunk_of : Bytes → Option StreamingChunk) (c : Collected) (frames : List Bytes)
    → IsSorted c.tool_calls
    → IsSorted (absorb_frames chunk_of c frames).tool_calls
unfolding absorb_frames absorb_chunk
absorb_frames-IsSorted chunk_of c [] h = h
absorb_frames-IsSorted chunk_of c (frame ∷ frames) h =
    go (absorb_frames-IsSorted chunk_of c frames h)
      (λ c h. absorb_frames-IsSorted chunk_of c frames h) (chunk_of frame)
  where
    go :
        IsSorted (absorb_frames chunk_of c frames).tool_calls
        → ((c : Collected)
            → IsSorted c.tool_calls
            → IsSorted (absorb_frames chunk_of c frames).tool_calls)
        → (o : Option StreamingChunk)
        → IsSorted
            (elim o as (λ _. Collected) [
              | none ↦ absorb_frames chunk_of c frames
              | some chunk ↦ absorb_frames chunk_of (absorb_chunk c chunk) frames
            ]).tool_calls
    go same other none = same
    go same other (some chunk) =
        other (absorb_chunk c chunk) (absorb_choices-IsSorted _ chunk.choices h)
