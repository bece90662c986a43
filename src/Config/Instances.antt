-- ===== src/Config/Instances.antt =====
-- pkg/config/loader: `instantiatePlugins` of configloader.go and the defaults of defaults.go; the
-- types of apix/config/v1alpha1; and the plugins of pkg/framework/interface/plugin/handle.go.
-- `registry` is the registry of factories: a factory takes the name and the parameters of a plugin.
pub mod Laws
use llm_d_inference_payload.Prelude.{
  Bytes, bytes_dec, codes, length, ◌==◌, StringSet, Float64, Bool, List, [], ◌∷◌, ◌++◌, Option,
  none, some, is_empty, if◌then◌else◌,
}
use llm_d_inference_payload.Prelude.Map
use llm_d_inference_payload.Prelude.Map.{Map}
use llm_d_inference_payload.Errors.{GoError, Result, ok, err, panic, plain, error_text, ◌>>=◌}
use llm_d_inference_payload.Config.{Instance}

-- `PluginSpec`
pub record PluginSpec : Type 0 where
  pub name : Bytes
  pub type_name : Bytes
  pub parameters : Bytes

-- `PluginRef`
pub record PluginRef (F : Type 0) : Type 0 where
  pub plugin_ref : Bytes
  pub weight : Option F

-- `ProfilePlugins`
pub record ProfilePlugins (F : Type 0) : Type 0 where
  pub request : List (PluginRef F)
  pub response : List (PluginRef F)

-- `Profile` of the configuration; `none` is a nil section
pub record RawProfile (F : Type 0) : Type 0 where
  pub name : Bytes
  pub plugins : Option (ProfilePlugins F)

-- `DatalayerConfig`
pub record DatalayerConfig : Type 0 where
  pub collectors : List Bytes
  pub extractors : List Bytes
  pub datasources : List Bytes

-- `PayloadProcessorConfig`. A reference to the profile picker that is nil is empty, which the
-- loader treats alike, and so is a nil list of pre- or post-processors; of a reference outside a
-- profile only the name is read.
pub record PayloadProcessorConfig (F : Type 0) : Type 0 where
  pub plugins : List PluginSpec
  pub pre_processing : List Bytes
  pub profile_picker : Bytes
  pub profiles : List (RawProfile F)
  pub post_processing : List Bytes
  pub datalayer : Option DatalayerConfig

abbrev pub body_field_to_header_type : Bytes
body_field_to_header_type = codes "body-field-to-header"

abbrev pub base_model_to_header_type : Bytes
base_model_to_header_type = codes "base-model-to-header"

abbrev pub single_profile_picker_type : Bytes
single_profile_picker_type = codes "single-profile-picker"

unfoldable pub load_default_config : {F : Type 0} → PayloadProcessorConfig F
load_default_config = record {
  plugins =
      record {
        name = [];
        type_name = body_field_to_header_type;
        parameters = codes "{\"fieldName\": \"model\", \"headerName\": \"X-Gateway-Model-Name\"}";
      }
      ∷ record { name = []; type_name = base_model_to_header_type; parameters = [] }
      ∷ [];
  pre_processing = [];
  profile_picker = [];
  profiles =
      record {
        name = codes "default";
        plugins = some (record {
          request =
              record { plugin_ref = body_field_to_header_type; weight = none }
              ∷ record { plugin_ref = base_model_to_header_type; weight = none }
              ∷ [];
          response = [];
        });
      }
      ∷ [];
  post_processing = [];
  datalayer = none;
}

-- the loop of `applyRawConfigDefaults`
unfoldable pub name_plugins : List PluginSpec → List PluginSpec
name_plugins [] = []
name_plugins (spec ∷ specs) =
    (if is_empty spec.name then record spec { name = spec.type_name } else spec)
    ∷ name_plugins specs

unfoldable pub apply_raw_config_defaults :
    {F : Type 0} → PayloadProcessorConfig F → PayloadProcessorConfig F
unfolding name_plugins
apply_raw_config_defaults cfg = record cfg { plugins = name_plugins cfg.plugins }

module _ ⦃S : StringSet⦄ ⦃N : Float64⦄ {W : Type 0} where
  -- `GetAllPlugins`, in the order in which the map is visited
  unfoldable pub get_all_plugins : Map Bytes (Instance W) → List (Instance W)
  get_all_plugins [] = []
  get_all_plugins ((name, p) ∷ handle) = p ∷ get_all_plugins handle

  -- the loop that looks for the profile picker among the plugins; `found` is the one so far
  unfoldable pub find_profile_picker :
      List (Instance W) → Option (Instance W) → Result (Option (Instance W))
  find_profile_picker [] found = ok found
  find_profile_picker (p ∷ ps) found = elim p.profile_picker [
    | none ↦ find_profile_picker ps found
    | some _ ↦ elim found [
      | some _ ↦
          err (plain (codes "multiple profile pickers have been defined in the configuration"))
      | none ↦ find_profile_picker ps (some p)
    ]
  ]

  -- the text around the error of a factory
  unfoldable pub created : PluginSpec → Result (Instance W) → Result (Instance W)
  created spec (ok p) = ok p
  created spec (err e) = err (
      plain (
        codes "failed to create plugin '"
        ++ (spec.name ++ (codes "' (type: " ++ (spec.type_name ++ (codes "): " ++ error_text e))))))
  created spec panic = panic

  -- the call of the factory that the registry has for the type
  unfoldable pub create_plugin :
      PluginSpec → Option (Bytes → Bytes → Result (Instance W)) → Result (Instance W)
  unfolding created
  create_plugin spec none =
      err (plain (codes "plugin type '" ++ (spec.type_name ++ codes "' is not registered")))
  create_plugin spec (some factory) = created spec (factory spec.name spec.parameters)

module _ ⦃S : StringSet⦄ ⦃N : Float64⦄ {W : Type 0}
    (registry : Bytes → Option (Bytes → Bytes → Result (Instance W))) where
  -- one round of the loop over the specifications: the names so far and the handle's plugins
  unfoldable pub instantiate_plugin :
      PluginSpec → S.Set × Map Bytes (Instance W) → Result (S.Set × Map Bytes (Instance W))
  unfolding create_plugin
  instantiate_plugin spec (names, handle) =
      if is_empty spec.type_name
      then err (plain (codes "plugin '" ++ (spec.name ++ codes "' is missing a type")))
      else if S.has names spec.name
      then err (plain (codes "duplicate plugin name '" ++ (spec.name ++ codes "'")))
      else (create_plugin spec (registry spec.type_name) >>= λ p.
          ok (S.insert spec.name names, Map.put bytes_dec spec.name p handle))

  unfoldable pub instantiate_loop :
      List PluginSpec → S.Set × Map Bytes (Instance W) → Result (S.Set × Map Bytes (Instance W))
  unfolding instantiate_plugin
  instantiate_loop [] s = ok s
  instantiate_loop (spec ∷ specs) s = instantiate_plugin spec s >>= instantiate_loop specs

  -- The plugins that the handle has afterwards; it has none before.
  unfoldable pub instantiate_plugins : List PluginSpec → Result (Map Bytes (Instance W))
  unfolding instantiate_loop
  instantiate_plugins [] = err (plain (codes "one or more plugins must be defined"))
  instantiate_plugins (spec ∷ specs) = instantiate_loop (spec ∷ specs) (S.new, []) >>= λ s. ok s.1

  -- The handle's plugins with a plugin of the type, which is its name too. The new entry of the
  -- configuration's list of plugins, which nothing reads afterwards, is left out.
  unfoldable pub register_default_plugin :
      Bytes → Map Bytes (Instance W) → Result (Map Bytes (Instance W))
  register_default_plugin type_name handle = elim (registry type_name) [
    | none ↦ err (plain (codes "plugin type '" ++ (type_name ++ codes "' not found in registry")))
    | some factory ↦ elim (factory type_name []) [
      | ok p ↦ ok (Map.put bytes_dec type_name p handle)
      | err e ↦ err (
          plain (
            codes "failed to instantiate default plugin '"
            ++ (type_name ++ (codes "': " ++ error_text e))))
      | panic ↦ panic
    ]
  ]

  -- the name of the picker that the handle has under the type, of which it panics to be none
  unfoldable pub default_picker_name : Map Bytes (Instance W) → Result Bytes
  default_picker_name handle = elim (Map.get bytes_dec single_profile_picker_type handle) [
    | none ↦ panic
    | some p ↦ elim p.profile_picker [ none ↦ panic | some _ ↦ ok p.name ]
  ]

  -- The name of the profile picker, and the handle's plugins.
  unfoldable pub apply_plugin_defaults :
      PayloadProcessorConfig N.F → Map Bytes (Instance W) → Result (Bytes × Map Bytes (Instance W))
  unfolding find_profile_picker register_default_plugin default_picker_name get_all_plugins
  apply_plugin_defaults cfg handle =
      if is_empty cfg.profile_picker
      then (elim (find_profile_picker (get_all_plugins handle) none) [
        | err e ↦ err e
        | panic ↦ panic
        | ok (some p) ↦ ok (p.name, handle)
        | ok none ↦
            if length cfg.profiles == 1
            then (elim (register_default_plugin single_profile_picker_type handle) [
              | err e ↦ err e
              | panic ↦ panic
              | ok handle' ↦ elim (default_picker_name handle') [
                | ok name ↦ ok (name, handle')
                | err e ↦ err e
                | panic ↦ panic
              ]
            ])
            else err
                (plain (codes "multiple profiles in the configuration require a profile picker"))
      ])
      else ok (cfg.profile_picker, handle)
