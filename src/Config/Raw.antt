-- ===== src/Config/Raw.antt =====
-- crates/rshome-config/src/raw.rs: the configuration as the user wrote it.
use text.Mathlib.Text.{starts_with}
use zt_edge.Common.{
  ℕ, Bool, Option, none, some, String, List, [], Dict, lookup, insert, length, is_some,
  text_discrete, ◌||◌, ◌==◌, if◌then◌else◌,
}
use zt_edge.Common.Cut.{cut}
use zt_edge.Config.Value.{Value}

pub record IdfComponentRef : Type 0 where
  pub name : String
  pub version : Option String
  pub git : Option String
  pub path : Option String

pub record FrameworkConfig : Type 0 where
  pub framework_type : String
  pub version : Option String
  pub components : List IdfComponentRef
  pub sdkconfig_options : Dict String String

pub record ProjectConfig : Type 0 where
  pub name : String
  pub version : String

pub record EsphomeBlock : Type 0 where
  pub name : String
  pub platform : String
  pub board : String
  pub friendly_name : Option String
  pub framework : Option FrameworkConfig
  pub includes : List String
  pub libraries : List String
  pub project : Option ProjectConfig
  pub area : Option String
  pub min_version : Option String
  pub profile : Option String
  pub solution : Option String
  pub solution_variant : Option String

pub record PackageRef : Type 0 where
  pub name : String
  pub url : Option String
  pub file : Option String
  pub git_ref : Option String
  pub config_path : Option String

pub record ComponentConfig : Type 0 where
  pub component_type : String
  pub platform : Option String
  pub config : Value

pub record RawConfig : Type 0 where
  pub esphome : EsphomeBlock
  pub packages : List PackageRef
  pub substitutions : Dict String String
  pub components : List ComponentConfig

unfoldable pub is_extend : ComponentConfig → Bool
is_extend c = starts_with c.component_type "!extend"

unfoldable pub is_remove : ComponentConfig → Bool
is_remove c = starts_with c.component_type "!remove"

-- `split(' ').nth(1)`: what stands between the first space and the next one or the end.
unfoldable pub second_word : String → Option String
second_word s = elim (cut " " s) [
  | none ↦ none
  | some (before, rest) ↦ elim (cut " " rest) [ none ↦ some rest | some (word, more) ↦ some word ]
]

unfoldable pub directive_target : ComponentConfig → Option String
directive_target c = if is_extend c || is_remove c then second_word c.component_type else none

-- `PackageStore` with its `new`, `insert`, `get`, `contains`, `len` and `is_empty`.
abbrev pub PackageStore : Type 0
PackageStore = Dict String RawConfig

unfoldable pub new : PackageStore
new = []

unfoldable pub add_package : String → RawConfig → PackageStore → PackageStore
add_package name config store = insert text_discrete name config store

unfoldable pub get_package : PackageStore → String → Option RawConfig
get_package store name = lookup text_discrete name store

unfoldable pub contains_package : PackageStore → String → Bool
contains_package store name = is_some (lookup text_discrete name store)

unfoldable pub len : PackageStore → ℕ
len store = length store

unfoldable pub is_empty : PackageStore → Bool
is_empty store = length store == 0

-- The id that the registry knows a component by, as several stages compute it: its platform, if
-- it names one, else its type.
unfoldable pub effective_id : ComponentConfig → String
effective_id c = elim c.platform [
  | none ↦ c.component_type
  | some p ↦ elim (text_discrete p "") [ yes e ↦ c.component_type | no n ↦ p ]
]
