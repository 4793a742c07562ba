-- ===== src/Schema/Entity.antt =====
-- crates/rshome-schema/src/entity.rs: the types of entities.
pub data EntityType : Type 0 where
  sensor binary_sensor switch number select text button event light climate fan cover lock
        media_player alarm_control_panel text_sensor :
      EntityType
