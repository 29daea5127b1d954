-- ===== src/Checks/ConversationChecks.antt =====
-- Runs of the conversation key of src/conversation.rs.
use codex_proxy_rs.Base.{◌≡◌, refl, codes, byte_len}
use codex_proxy_rs.Conversation.{head_payload, decimal}
use codex_proxy_rs.Conversation.Payload.{head_payload_injective}

head_payload_tests :
    head_payload (codes "a") (codes "b:") ≡ codes "instructions:1:a\nfirst_user:2:b:"
unfolding head_payload codes decimal byte_len
head_payload_tests = refl

head_payload_injective_example : (codes "a" ≡ codes "a") × (codes "b:" ≡ codes "b:")
head_payload_injective_example =
    head_payload_injective (codes "a") (codes "b:") (codes "a") (codes "b:") refl
