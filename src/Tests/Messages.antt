-- ===== src/Tests/Messages.antt =====
-- Messages, chunks and error answers.
use llm_d_inference_payload.Prelude.{
  codes, bytes_dec, ℕ, true, false, List, [], ◌∷◌, some, ◌≡◌, refl,
}
use llm_d_inference_payload.Prelude.Map
use llm_d_inference_payload.Message.{Message, set_body_field}
use llm_d_inference_payload.Message.Replay.{Edit, edit_all, received, Tracks, edit_all-Tracks}
use llm_d_inference_payload.Message.Body.{BodyEdit, edit_body, edit_body-Flagged}
use llm_d_inference_payload.Envoy.Chunking.{build_chunked_body_responses}
use llm_d_inference_payload.Envoy.Chunking.Laws.{
  joined, WellChunked, joined-build_chunked_body_responses,
  build_chunked_body_responses-WellChunked,
}
use llm_d_inference_payload.Tests.Fixtures.{sets}

abbrev message : Message ℕ
message = record {
  headers = (codes "a", codes "1") ∷ [];
  body = some [];
  mutated_headers = [];
  removed_headers = sets.new;
  body_mutated = false;
}

abbrev header_edits : List Edit
header_edits = Edit.set (codes "b") (codes "2") ∷ Edit.remove (codes "a") ∷ []

message-Tracks : Tracks ((codes "a", codes "1") ∷ []) message
unfolding received bytes_dec Map.get
message-Tracks = record { agrees = λ k. rw (sets.has-new k) refl; disjoint = λ k h. refl }

edit_all-Tracks_example : Tracks ((codes "a", codes "1") ∷ []) (edit_all message header_edits)
edit_all-Tracks_example = edit_all-Tracks header_edits message-Tracks

abbrev edited : Message ℕ
edited = record message { body = some ((codes "model", 7) ∷ []); body_mutated = true }

edited_lem : edit_body message (BodyEdit.set (codes "model") 7 ∷ []) ≡ some edited
unfolding edit_body set_body_field bytes_dec Map.put
edited_lem = refl

edit_body-Flagged_example :
    (edited.headers ≡ message.headers)
    × (edited.mutated_headers ≡ message.mutated_headers)
    × (edited.removed_headers ≡ message.removed_headers)
    × (edited.body_mutated ≡ false → (edited.body ≡ message.body) × (message.body_mutated ≡ false))
edit_body-Flagged_example =
    edit_body-Flagged message (BodyEdit.set (codes "model") 7 ∷ []) edited_lem

joined-build_chunked_body_responses_example :
    joined (build_chunked_body_responses (codes "hello") true) ≡ codes "hello"
joined-build_chunked_body_responses_example =
    joined-build_chunked_body_responses (codes "hello") true

build_chunked_body_responses-WellChunked_example :
    WellChunked true (build_chunked_body_responses (codes "hello") true)
build_chunked_body_responses-WellChunked_example =
    build_chunked_body_responses-WellChunked (codes "hello") true
