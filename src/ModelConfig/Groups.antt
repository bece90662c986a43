-- ===== src/ModelConfig/Groups.antt =====
-- pkg/framework/plugins/datalayer/modelconfigcollector/plugin.go, `syncModels`: the groups of each
-- model, from the models of each group.
use llm_d_inference_payload.Prelude.{
  Bytes, bytes_dec, List, [], ◌∷◌, ◌++◌, Option, none, some, is_empty, ◌||◌, if◌then◌else◌, ◌≡◌,
  refl, sym, ap, ◌∙◌, inl, inr, ite, if_pos, if_neg, append-nil, append_assoc, Bool-cases,
}
use llm_d_inference_payload.Prelude.Map
use llm_d_inference_payload.Prelude.Map.{Map, get-put}
use llm_d_inference_payload.ModelConfig.{ModelGroupConfig, listed, add_members, add_groups}

-- the group, once for each time it lists the model
abbrev pub times_listed : Bytes → Bytes → List Bytes → List Bytes
times_listed name group [] = []
times_listed name group (model ∷ models) =
    let rest = times_listed name group models in
    if is_empty model then rest else ite (bytes_dec model name) (group ∷ rest) rest

-- the names of the groups that list a model, in the order of the groups
abbrev pub groups_of : Bytes → List ModelGroupConfig → List Bytes
groups_of name [] = []
groups_of name (g ∷ gs) =
    let rest = groups_of name gs in
    if is_empty g.name || is_empty g.models then rest else times_listed name g.name g.models ++ rest

-- a model of no group has no entry
abbrev pub entry_of : List Bytes → Option (List Bytes)
entry_of [] = none
entry_of (g ∷ gs) = some (g ∷ gs)

entry_of-snoc : (xs : List Bytes) (g : Bytes) → entry_of (xs ++ (g ∷ [])) ≡ some (xs ++ (g ∷ []))
entry_of-snoc [] g = refl
entry_of-snoc (x ∷ xs) g = refl

listed-entry_of : (xs : List Bytes) → listed (entry_of xs) ≡ xs
listed-entry_of [] = refl
listed-entry_of (x ∷ xs) = refl

-- an append to the groups of the model, and of another model
get_append_same :
    (k name group : Bytes) (xs : List Bytes) (m : Map Bytes (List Bytes))
    → k ≡ name
    → Map.get bytes_dec name m ≡ entry_of xs
    → Map.get bytes_dec name
        (Map.put bytes_dec k (listed (Map.get bytes_dec k m) ++ (group ∷ [])) m)
      ≡ entry_of (xs ++ (group ∷ []))
get_append_same k name group xs m p h =
    get-put bytes_dec k name _ m
    ∙ if_pos (bytes_dec k name) p _ _
    ∙ rw (p, h, listed-entry_of xs) (sym (entry_of-snoc xs group))

get_append_other :
    (k name : Bytes) (v : List Bytes) (m : Map Bytes (List Bytes))
    → (k ≡ name → ⊥)
    → Map.get bytes_dec name (Map.put bytes_dec k v m) ≡ Map.get bytes_dec name m
get_append_other k name v m p = get-put bytes_dec k name v m ∙ if_neg (bytes_dec k name) p _ _

get-add_members :
    (name group : Bytes) (models xs : List Bytes) (m : Map Bytes (List Bytes))
    → Map.get bytes_dec name m ≡ entry_of xs
    → Map.get bytes_dec name (add_members group models m)
      ≡ entry_of (xs ++ times_listed name group models)
unfolding add_members
get-add_members name group [] xs m h = rw (append-nil xs) h
get-add_members name group ([] ∷ models) xs m h = get-add_members name group models xs m h
get-add_members name group ((c ∷ model) ∷ models) xs m h = elim (bytes_dec (c ∷ model) name) [
  | yes p ↦
      get-add_members name group models (xs ++ (group ∷ [])) _
        (get_append_same (c ∷ model) name group xs m p h)
      ∙ ap entry_of (
          append_assoc xs (group ∷ []) (times_listed name group models)
          ∙ ap (λ z. xs ++ z) (sym (if_pos (bytes_dec (c ∷ model) name) p _ _)))
  | no p ↦
      get-add_members name group models xs _ (get_append_other (c ∷ model) name _ m p ∙ h)
      ∙ ap (λ z. entry_of (xs ++ z)) (sym (if_neg (bytes_dec (c ∷ model) name) p _ _))
]

get-add_groups_from :
    (name : Bytes) (gs : List ModelGroupConfig) (xs : List Bytes) (m : Map Bytes (List Bytes))
    → Map.get bytes_dec name m ≡ entry_of xs
    → Map.get bytes_dec name (add_groups gs m) ≡ entry_of (xs ++ groups_of name gs)
unfolding add_groups
get-add_groups_from name [] xs m h = rw (append-nil xs) h
get-add_groups_from name (g ∷ gs) xs m h =
    elim (Bool-cases (is_empty g.name || is_empty g.models)) [
      | inl e ↦ rw (e, add_groups) (get-add_groups_from name gs xs m h)
      | inr e ↦
          rw (e, add_groups)
            (get-add_groups_from name gs (xs ++ times_listed name g.name g.models) _
                (get-add_members name g.name g.models xs m h)
              ∙ ap entry_of
                  (append_assoc xs (times_listed name g.name g.models) (groups_of name gs)))
    ]

-- The membership map that a configuration's groups give: a model that valid groups list has the
-- names of those groups, in their order, and any other model has no entry. A group is valid if it
-- has a name and a model; an empty model name is skipped.
pub get-add_groups :
    (name : Bytes) (gs : List ModelGroupConfig)
    → Map.get bytes_dec name (add_groups gs []) ≡ entry_of (groups_of name gs)
unfolding Map.get
get-add_groups name gs = get-add_groups_from name gs [] [] refl
