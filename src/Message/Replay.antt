-- ===== src/Message/Replay.antt =====
-- pkg/framework/interface/requesthandling/types.go: what the recorded header edits say of the
-- headers. Envoy holds the original headers and is sent `MutatedHeaders` and `RemovedHeaders`.
use llm_d_inference_payload.Prelude.{
  Bytes, bytes_dec, StringSet, true, Option, none, some, List, [], ◌∷◌, ite, if◌then◌else◌, ◌≡◌,
  arith, Option-cases, inl, inr,
}
use llm_d_inference_payload.Prelude.Map
use llm_d_inference_payload.Prelude.Map.{Map}
use llm_d_inference_payload.Message.{Message, write_header, set_header, remove_header}

-- A plugin's edits of the headers.
pub data Edit : Type 0 where
  set : Bytes → Bytes → Edit
  remove : Bytes → Edit

module _ ⦃S : StringSet⦄ {V : Type 0} where
  unfoldable pub edit : Message V → Edit → Message V
  unfolding set_header remove_header
  edit m (set k v) = set_header m k v
  edit m (remove k) = remove_header m k

  unfoldable pub edit_all : Message V → List Edit → Message V
  unfolding edit
  edit_all m [] = m
  edit_all m (e ∷ es) = edit_all (edit m e) es

  -- What the receiver reads under a name once it has set the mutated headers and dropped the
  -- removed.
  unfoldable pub received : Map Bytes Bytes → Message V → Bytes → Option Bytes
  received original m k =
      if S.has m.removed_headers k then none else elim (Map.get bytes_dec k m.mutated_headers) [
        | some v ↦ some v
        | none ↦ Map.get bytes_dec k original
      ]

  pub record Tracks (original : Map Bytes Bytes) (m : Message V) : Type 0 where
    pub agrees : (k : Bytes) → Map.get bytes_dec k m.headers ≡ received original m k
    pub disjoint :
        (k : Bytes)
        → S.has m.removed_headers k ≡ true
        → Map.get bytes_dec k m.mutated_headers ≡ none

  module _ {original : Map Bytes Bytes} {m : Message V} where
    write_header-Tracks : (k v : Bytes) → Tracks original m → Tracks original (write_header m k v)
    unfolding write_header received
    write_header-Tracks k v t = record {
      agrees = λ j. ground (
        arith,
        t.agrees j,
        Map.get-put bytes_dec k j v m.headers,
        Map.get-put bytes_dec k j v m.mutated_headers,
        S.has-delete k j m.removed_headers,
      );
      disjoint = λ j h. ground (
        arith,
        t.disjoint j,
        Map.get-put bytes_dec k j v m.mutated_headers,
        S.has-delete k j m.removed_headers,
      );
    }

    remove_header-Tracks : (k : Bytes) → Tracks original m → Tracks original (remove_header m k)
    unfolding remove_header received
    remove_header-Tracks k t = elim (Option-cases (Map.get bytes_dec k m.headers)) [
      | inl e ↦ rw (e, remove_header) t
      | inr (v, e) ↦
          rw (e, remove_header)
            (record {
              agrees = λ j. ground (
                arith,
                t.agrees j,
                Map.get-delete bytes_dec k j m.headers,
                Map.get-delete bytes_dec k j m.mutated_headers,
                S.has-insert k j m.removed_headers,
              );
              disjoint = λ j h. ground (
                arith,
                t.disjoint j,
                Map.get-delete bytes_dec k j m.mutated_headers,
                S.has-insert k j m.removed_headers,
              );
            })
    ]

    edit-Tracks : (e : Edit) → Tracks original m → Tracks original (edit m e)
    unfolding edit set_header
    edit-Tracks (set k v) t = elim (Option-cases (Map.get bytes_dec k m.headers)) [
      | inl e ↦ rw (e, set_header) (write_header-Tracks k v t)
      | inr (old, e) ↦
          rw (e, set_header)
            (elim (bytes_dec old v) as (λ d. Tracks original (ite d m (write_header m k v))) [
              | yes _ ↦ t
              | no _ ↦ write_header-Tracks k v t
            ])
    ]
    edit-Tracks (remove k) t = remove_header-Tracks k t

  -- If a receiver of the original headers, the mutated and the removed ones reads exactly the
  -- message's headers, and no name is both set and removed, so that the order in which it applies
  -- them is free, then both hold of the message after any sequence of header edits.
  pub edit_all-Tracks :
      (es : List Edit) {original : Map Bytes Bytes} {m : Message V}
      → Tracks original m
      → Tracks original (edit_all m es)
  unfolding edit_all
  edit_all-Tracks [] t = t
  edit_all-Tracks (e ∷ es) t = edit_all-Tracks es (edit-Tracks e t)
