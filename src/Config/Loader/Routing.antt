-- ===== src/Config/Loader/Routing.antt =====
-- `apps/api/config/loader.py`: the two indexes of the registry, and the fixture override.
use revenue_recovery_voice_a.Base.{
  ℕ, false, [], ◌∷◌, none, some, String, str_eq, eq_iff, Dict, lookup, insert, lookup-insert,
  lookup-insert_self, Result, ok, ◌≡◌, ap, arith, Bool-cases, Option-cases, inl, inr, Result-cases,
}
use mathlib.Core.Path.{subst}
use revenue_recovery_voice_a.Config.Schema.{ClientConfig}
use revenue_recovery_voice_a.Config.Loader.{
  ClientConfigRegistry, Disk, stale, load_all, reload, ensure_fresh, get, resolve_by_number,
  replace_fixture_config,
}

module _ {F : Type 0} where
  -- Every number leads to a config with that number, which its client id leads to as well, and the
  -- other way round.
  pub record IsRouted (reg : ClientConfigRegistry F) : Type 0 where
    pub numbers :
        (n : String) (c : ClientConfig F)
        → lookup n reg.by_number ≡ some c
        → (c.phone_number ≡ n) × (lookup c.client_id reg.by_id ≡ some c)
    pub ids :
        (i : String) (c : ClientConfig F)
        → lookup i reg.by_id ≡ some c
        → (c.client_id ≡ i) × (lookup c.phone_number reg.by_number ≡ some c)

  abbrev added : String → ℕ → ClientConfig F → ClientConfigRegistry F → ClientConfigRegistry F
  added path mtime cfg built = record built {
    by_id = insert cfg.client_id cfg built.by_id;
    by_number = insert cfg.phone_number cfg built.by_number;
    mtimes = insert path mtime built.mtimes;
  }

  added-IsRouted :
      (path : String) (mtime : ℕ) (cfg : ClientConfig F) (built : ClientConfigRegistry F)
      → lookup cfg.client_id built.by_id ≡ none
      → lookup cfg.phone_number built.by_number ≡ none
      → IsRouted built
      → IsRouted (added path mtime cfg built)
  added-IsRouted path mtime cfg built new_id new_number r = record {
    numbers = λ n c found. elim (Bool-cases (str_eq n cfg.phone_number)) [
      | inl same ↦
          let this : cfg ≡ c =
            ground (arith, found, same, lookup-insert cfg.phone_number n cfg built.by_number) in
          ground (
            arith,
            this,
            same,
            eq_iff n cfg.phone_number,
            lookup-insert_self cfg.client_id cfg built.by_id,
            ap (λ d. d.phone_number) this,
            ap (λ d. d.client_id) this,
          )
      | inr other ↦
          let old =
            r.numbers n c (
              ground (arith, found, other, lookup-insert cfg.phone_number n cfg built.by_number)) in
          (
            old.0,
            ground (
              arith,
              old.1,
              new_id,
              eq_iff c.client_id cfg.client_id,
              lookup-insert cfg.client_id c.client_id cfg built.by_id,
            ),
          )
    ];
    ids = λ i c found. elim (Bool-cases (str_eq i cfg.client_id)) [
      | inl same ↦
          let this : cfg ≡ c =
            ground (arith, found, same, lookup-insert cfg.client_id i cfg built.by_id) in
          ground (
            arith,
            this,
            same,
            eq_iff i cfg.client_id,
            lookup-insert_self cfg.phone_number cfg built.by_number,
            ap (λ d. d.phone_number) this,
            ap (λ d. d.client_id) this,
          )
      | inr other ↦
          let old =
            r.ids i c
              (ground (arith, found, other, lookup-insert cfg.client_id i cfg built.by_id)) in
          (
            old.0,
            ground (
              arith,
              old.1,
              new_number,
              eq_iff c.phone_number cfg.phone_number,
              lookup-insert cfg.phone_number c.phone_number cfg built.by_number,
            ),
          )
    ];
  }

  load_all-IsRouted :
      (load : String → Result (ClientConfig F)) (paths : Dict ℕ) (built : ClientConfigRegistry F)
      {fresh : ClientConfigRegistry F}
      → IsRouted built
      → load_all load paths built ≡ ok fresh
      → IsRouted fresh
  unfolding load_all
  load_all-IsRouted load [] built {fresh} r h = subst IsRouted (ground arith) r
  load_all-IsRouted load ((path, mtime) ∷ paths) built {fresh} r h =
      elim (Result-cases (load path)) [
        | inr (e, bad) ↦ ground (arith, bad, h)
        | inl (cfg, good) ↦ elim (Option-cases (lookup cfg.client_id built.by_id)) [
          | inr (other, taken) ↦ ground (arith, good, taken, h)
          | inl new_id ↦ elim (Option-cases (lookup cfg.phone_number built.by_number)) [
            | inr (other, taken) ↦ ground (arith, good, new_id, taken, h)
            | inl new_number ↦
                load_all-IsRouted load paths (added path mtime cfg built) {fresh = fresh}
                  (added-IsRouted path mtime cfg built new_id new_number r)
                  (rw new_number at (rw new_id at (rw (good, load_all) at h)))
          ]
        ]
      ]

  -- After a reload that did not raise, whatever the registry held before, the indexes agree: every
  -- number leads to a config with that number, which its client id leads to as well, and every client
  -- id leads to a config with that id, which its number leads to as well.
  pub reload-IsRouted :
      (disk : Disk F) (reg : ClientConfigRegistry F) {fresh : ClientConfigRegistry F}
      → reload disk reg ≡ ok fresh
      → IsRouted fresh
  unfolding reload
  reload-IsRouted disk reg {fresh} h =
      load_all-IsRouted disk.load_client_config disk.yaml_paths _ {fresh = fresh}
        (record { numbers = λ n c found. cc (found); ids = λ i c found. cc (found) }) h

  -- In a fresh registry whose indexes agree, replacing a client's config by one with the same client
  -- id and number returns it, and from then on both the number and the client id resolve to it.
  replace-resolve :
      (disk : Disk F) (reg : ClientConfigRegistry F) (original config : ClientConfig F)
      → stale disk reg ≡ false
      → IsRouted reg
      → lookup original.client_id reg.by_id ≡ some original
      → config.client_id ≡ original.client_id
      → config.phone_number ≡ original.phone_number
      → (reg' : ClientConfigRegistry F) × (replace_fixture_config disk original.client_id
            (ok config)
            reg
          ≡ (ok config, reg'))
        × (resolve_by_number disk config.phone_number reg' ≡ (ok config, reg'))
        × (get disk config.client_id reg' ≡ (ok config, reg'))
  unfolding replace_fixture_config resolve_by_number get ensure_fresh stale
  replace-resolve disk reg original config fresh routed bound same_id same_number = (
    record reg { fixture_overrides = insert original.client_id config reg.fixture_overrides },
    ground (
      arith,
      fresh,
      bound,
      eq_iff config.client_id original.client_id,
      eq_iff config.phone_number original.phone_number,
    ),
    ground (
      arith,
      fresh,
      (routed.ids original.client_id original bound).1,
      same_number,
      lookup-insert_self original.client_id config reg.fixture_overrides,
    ),
    ground (
      arith,
      fresh,
      bound,
      same_id,
      lookup-insert_self original.client_id config reg.fixture_overrides,
    ),
  )
