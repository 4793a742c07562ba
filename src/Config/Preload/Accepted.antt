-- ===== src/Config/Preload/Accepted.antt =====
-- crates/rshome-config/src/stages/s5_preload.rs: the outcomes of the stage.
use Prim.Native.Char.{Char}
use zt_edge.Common.{
  Bool, false, ◌≡◌, refl, ◌⊎◌, inl, inr, Option, none, some, String, List, [], ◌∷◌, Option-cases,
  Bool-cases, Result, ok, err,
}
use zt_edge.Config.Diagnostic.{ValidationError}
use zt_edge.Config.Raw.{RawConfig, FrameworkConfig}
use zt_edge.Config.Preload.{
  FrameworkType, esp_idf, PreloadContext, choose, chips, frameworks, normal, is_blank, check_name,
  chip_target_of, check_board, framework_of, finish, stage_5_preload_esphome_block,
}

-- The stage refuses with a diagnostic at least.
abbrev pub Refused : Option (Result (List ValidationError) PreloadContext) → Type 0
Refused o = (e : ValidationError) × (es : List ValidationError) × (o ≡ some (err (e ∷ es)))

module _ (to_lowercase : String → String) (is_whitespace : Char → Bool) where
  abbrev framework_type_of : Option FrameworkConfig → Option FrameworkType
  framework_type_of none = some esp_idf
  framework_type_of (some fw) =
      choose (normal to_lowercase is_whitespace fw.framework_type) frameworks

  -- The block names a device and a board, a supported chip, and a framework that is known if it
  -- names one; and these are what the context holds.
  pub record IsRead (config : RawConfig) (ctx : PreloadContext) : Type 0 where
    pub name : is_blank to_lowercase is_whitespace config.esphome.name ≡ false
    pub board : is_blank to_lowercase is_whitespace config.esphome.board ≡ false
    pub same_board : ctx.board ≡ config.esphome.board
    pub chip :
        choose (normal to_lowercase is_whitespace config.esphome.platform) chips
        ≡ some ctx.chip_target
    pub framework : framework_type_of config.esphome.framework ≡ some ctx.framework_type

  framework_of-cases :
      (fw : Option FrameworkConfig)
      → ((t : FrameworkType) × (v : Option String) × (framework_of to_lowercase is_whitespace fw
            ≡ (t, v, []))
          × (framework_type_of fw ≡ some t))
        ⊎ ((t : FrameworkType) × (v : Option String) × (e : ValidationError) × (framework_of
                to_lowercase is_whitespace fw
              ≡ (t, v, e ∷ []))
            × (framework_type_of fw ≡ none))
  unfolding framework_of
  framework_of-cases none = inl (esp_idf, none, refl, refl)
  framework_of-cases (some fw) =
      elim (Option-cases
        (choose (normal to_lowercase is_whitespace fw.framework_type) frameworks)) [
          | inl e ↦ rw (e, framework_of) (inr (esp_idf, fw.version, _, refl, refl))
          | inr (t, e) ↦ rw (e, framework_of) (inl (t, fw.version, refl, refl))
        ]

  -- The stage never panics: it gives what the block says if the block is in order, and refuses it
  -- otherwise.
  pub stage_5_preload_esphome_block_lem :
      (config : RawConfig)
      → ((ctx : PreloadContext) × (stage_5_preload_esphome_block to_lowercase is_whitespace config
            ≡ some (ok ctx))
          × IsRead config ctx)
        ⊎ (Refused (stage_5_preload_esphome_block to_lowercase is_whitespace config)
            × ((ctx : PreloadContext) → ¬ IsRead config ctx))
  unfolding stage_5_preload_esphome_block check_name chip_target_of check_board finish
  stage_5_preload_esphome_block_lem config =
      elim (Bool-cases (is_blank to_lowercase is_whitespace config.esphome.name)) [
        | inl blank ↦ inr (
          rw (blank, stage_5_preload_esphome_block, check_name) (_, _, refl),
          λ ctx r. cc (r.name, blank),
        )
        | inr named ↦
            elim (Option-cases
              (choose (normal to_lowercase is_whitespace config.esphome.platform) chips)) [
                | inl other ↦ inr (
                  rw (named, other, stage_5_preload_esphome_block, check_name, chip_target_of)
                      (_, _, refl),
                  λ ctx r. cc (r.chip, other),
                )
                | inr (chip, known) ↦
                    elim (Bool-cases (is_blank to_lowercase is_whitespace config.esphome.board)) [
                      | inl blank ↦ inr (
                        rw
                            (
                              named, known, blank, stage_5_preload_esphome_block, check_name,
                              chip_target_of, check_board,
                            )
                            (_, _, refl),
                        λ ctx r. cc (r.board, blank),
                      )
                      | inr boarded ↦ elim (framework_of-cases config.esphome.framework) [
                        | inl (t, v, f, g) ↦ inl (
                          record {
                            chip_target = chip;
                            board = config.esphome.board;
                            framework_type = t;
                            framework_version = v;
                          },
                          rw
                              (
                                named, known, boarded, f, stage_5_preload_esphome_block, check_name,
                                chip_target_of, check_board,
                              )
                              refl,
                          record {
                            name = named;
                            board = boarded;
                            same_board = refl;
                            chip = known;
                            framework = g;
                          },
                        )
                        | inr (t, v, e, f, g) ↦ inr (
                          rw
                              (
                                named, known, boarded, f, stage_5_preload_esphome_block, check_name,
                                chip_target_of, check_board,
                              )
                              (_, _, refl),
                          λ ctx r. cc (r.framework, g),
                        )
                      ]
                    ]
              ]
      ]
