-- ===== src/Config/Loader.antt =====
-- `apps/api/config/loader.py`: the registry of client configs, its reload from disk and the fixture
-- overrides. The YAML loader with the schema's validation is a parameter, and the disk is the list of
-- the `.yaml` paths, sorted, with their modification times.
pub mod Routing
use revenue_recovery_voice_a.Base.{
  ℕ, Bool, true, false, not, ◌&&◌, ◌||◌, List, [], ◌∷◌, ◌++◌, Option, none, some, String, str_eq,
  Dict, lookup, contains, insert, erase, values, is_empty, ◌==◌, Result, ok, err, value_error,
  lookup_error, raise_if, ◌>>=◌, ◌>>◌, if◌then◌else◌,
}
use revenue_recovery_voice_a.Config.Schema.{ClientConfig}

-- `ClientConfigRegistry`
pub record ClientConfigRegistry (F : Type 0) : Type 0 where
  pub by_id : Dict (ClientConfig F)
  pub by_number : Dict (ClientConfig F)
  pub mtimes : Dict ℕ
  pub fixture_overrides : Dict (ClientConfig F)

-- The directory: `_yaml_paths` with the times, and `load_client_config`.
pub record Disk (F : Type 0) : Type 0 where
  pub yaml_paths : Dict ℕ
  pub load_client_config : String → Result (ClientConfig F)

-- `{p: p.stat().st_mtime for p in paths} == self._mtimes`, both in the order of the sorted paths
unfoldable same_mtimes : Dict ℕ → Dict ℕ → Bool
same_mtimes [] [] = true
same_mtimes ((p, s) ∷ xs) ((q, t) ∷ ys) = str_eq p q && (s == t) && same_mtimes xs ys
same_mtimes _ _ = false

-- `value or default` of `dict.get`
abbrev pub get_or {ℓ} : {A : Type ℓ} → Option A → A → A
get_or none d = d
get_or (some a) d = a

module _ {F : Type 0} where
  -- `__init__`
  unfoldable new_registry : ClientConfigRegistry F
  new_registry = record { by_id = []; by_number = []; mtimes = []; fixture_overrides = [] }

  -- `_stale`
  unfoldable pub stale : Disk F → ClientConfigRegistry F → Bool
  unfolding same_mtimes
  stale disk reg =
      not (same_mtimes disk.yaml_paths reg.mtimes)
      || is_empty reg.by_id && not (is_empty disk.yaml_paths)

  -- The loop of `reload`, on the dicts built so far.
  unfoldable pub load_all :
      (String → Result (ClientConfig F))
      → Dict ℕ
      → ClientConfigRegistry F
      → Result (ClientConfigRegistry F)
  load_all load [] built = ok built
  load_all load ((path, mtime) ∷ paths) built = load path >>= λ cfg.
      raise_if (contains cfg.client_id built.by_id) value_error
      >> (raise_if (contains cfg.phone_number built.by_number) value_error
          >> load_all load paths (record built {
            by_id = insert cfg.client_id cfg built.by_id;
            by_number = insert cfg.phone_number cfg built.by_number;
            mtimes = insert path mtime built.mtimes;
          }))

  -- `reload`
  unfoldable pub reload : Disk F → ClientConfigRegistry F → Result (ClientConfigRegistry F)
  unfolding load_all
  reload disk reg = load_all disk.load_client_config disk.yaml_paths (record {
    by_id = [];
    by_number = [];
    mtimes = [];
    fixture_overrides = reg.fixture_overrides;
  })

  -- `_ensure_fresh`
  unfoldable pub ensure_fresh : Disk F → ClientConfigRegistry F → Result (ClientConfigRegistry F)
  ensure_fresh disk reg = if stale disk reg then reload disk reg else ok reg

  -- `self._fixture_overrides.get(client_id, config)`
  abbrev overridden : ClientConfigRegistry F → String → ClientConfig F → ClientConfig F
  overridden reg client_id config = get_or (lookup client_id reg.fixture_overrides) config

  -- `get`
  unfoldable pub get :
      Disk F → String → ClientConfigRegistry F → Result (ClientConfig F) × ClientConfigRegistry F
  get disk client_id reg = elim (ensure_fresh disk reg) [
    | err e ↦ (err e, reg)
    | ok fresh ↦ elim (lookup client_id fresh.by_id) [
      | none ↦ (err lookup_error, fresh)
      | some config ↦ (ok (overridden fresh client_id config), fresh)
    ]
  ]

  -- `resolve_by_number`
  unfoldable pub resolve_by_number :
      Disk F → String → ClientConfigRegistry F → Result (ClientConfig F) × ClientConfigRegistry F
  resolve_by_number disk e164 reg = elim (ensure_fresh disk reg) [
    | err e ↦ (err e, reg)
    | ok fresh ↦ elim (lookup e164 fresh.by_number) [
      | none ↦ (err lookup_error, fresh)
      | some config ↦ (ok (overridden fresh config.client_id config), fresh)
    ]
  ]

  abbrev override_all : ClientConfigRegistry F → Dict (ClientConfig F) → List (ClientConfig F)
  override_all reg [] = []
  override_all reg ((client_id, config) ∷ items) =
      overridden reg client_id config ∷ override_all reg items

  -- `all`
  unfoldable pub all :
      Disk F → ClientConfigRegistry F → Result (List (ClientConfig F)) × ClientConfigRegistry F
  all disk reg = elim (ensure_fresh disk reg) [
    | err e ↦ (err e, reg)
    | ok fresh ↦ (ok (override_all fresh fresh.by_id), fresh)
  ]

  -- `replace_fixture_config`, on what `ClientConfig.model_validate(payload)` returns or raises
  unfoldable pub replace_fixture_config :
      Disk F
      → String
      → Result (ClientConfig F)
      → ClientConfigRegistry F
      → Result (ClientConfig F) × ClientConfigRegistry F
  replace_fixture_config disk client_id validated reg = elim (ensure_fresh disk reg) [
    | err e ↦ (err e, reg)
    | ok fresh ↦ elim (lookup client_id fresh.by_id) [
      | none ↦ (err lookup_error, fresh)
      | some original ↦ elim validated [
        | err e ↦ (err e, fresh)
        | ok config ↦
            if not (str_eq config.client_id original.client_id)
            then (err value_error, fresh)
            else if not (str_eq config.phone_number original.phone_number)
            then (err value_error, fresh)
            else (
              ok config,
              record fresh { fixture_overrides = insert client_id config fresh.fixture_overrides },
            )
      ]
    ]
  ]

  -- `reset_fixture_config`
  unfoldable reset_fixture_config : String → ClientConfigRegistry F → ClientConfigRegistry F
  reset_fixture_config client_id reg = record reg {
    fixture_overrides = erase client_id reg.fixture_overrides;
  }
