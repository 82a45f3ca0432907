-- ===== src/Agent/Tools.antt =====
-- services/api/src/services/merge-tools-config.ts: the one configuration that an agent's skills give.
pub mod Permissions
use hill90_app.Prelude.{
  ℕ, Bool, true, false, ◌||◌, ◌&&◌, List, [], ◌∷◌, ◌++◌, String, str_eq, max, if◌then◌else◌,
}

pub record ShellConfig : Type 0 where
  pub enabled : Bool
  pub allowed_binaries : List String
  pub denied_patterns : List String
  pub max_timeout : ℕ

pub record FilesystemConfig : Type 0 where
  pub enabled : Bool
  pub read_only : Bool
  pub allowed_paths : List String
  pub denied_paths : List String

pub record HealthConfig : Type 0 where
  pub enabled : Bool

pub record ToolsConfig : Type 0 where
  pub shell : ShellConfig
  pub filesystem : FilesystemConfig
  pub health : HealthConfig

abbrev pub default_tools_config : ToolsConfig
default_tools_config = record {
  shell = record {
    enabled = false;
    allowed_binaries = [];
    denied_patterns = [];
    max_timeout = 300;
  };
  filesystem = record {
    enabled = false;
    read_only = false;
    allowed_paths = "/workspace" ∷ "/home/agentuser" ∷ [];
    denied_paths = [];
  };
  health = record { enabled = true };
}

unfoldable pub includes : List String → String → Bool
includes [] x = false
includes (y ∷ ys) x = str_eq y x || includes ys x

-- `[...new Set(arr)]`, after `seen`
pub dedupe : List String → List String → List String
unfolding includes
dedupe seen [] = []
dedupe seen (x ∷ xs) =
    let fresh = dedupe (x ∷ seen) xs in
    let rest = dedupe seen xs in if includes seen x then rest else x ∷ fresh

-- `configs.some`, `configs.every` and `configs.flatMap`
pub some_config : (ToolsConfig → Bool) → List ToolsConfig → Bool
some_config f [] = false
some_config f (c ∷ cs) = f c || some_config f cs

pub every_config : (ToolsConfig → Bool) → List ToolsConfig → Bool
every_config f [] = true
every_config f (c ∷ cs) = f c && every_config f cs

pub flat_map : (ToolsConfig → List String) → List ToolsConfig → List String
flat_map f [] = []
flat_map f (c ∷ cs) = f c ++ flat_map f cs

pub longest_timeout : List ToolsConfig → ℕ
longest_timeout [] = 0
longest_timeout (c ∷ cs) = max c.shell.max_timeout (longest_timeout cs)

abbrev pub is_empty : List String → Bool
is_empty [] = true
is_empty (x ∷ xs) = false

abbrev pub union : (ToolsConfig → List String) → List ToolsConfig → List String
union f cs = dedupe [] (flat_map f cs)

-- The merge of two or more.
pub merge_all : List ToolsConfig → ToolsConfig
unfolding some_config every_config longest_timeout
merge_all cs = record {
  shell = record {
    enabled = some_config (λ c. c.shell.enabled) cs;
    allowed_binaries =
        if some_config (λ c. is_empty c.shell.allowed_binaries) cs
        then []
        else union (λ c. c.shell.allowed_binaries) cs;
    denied_patterns = union (λ c. c.shell.denied_patterns) cs;
    max_timeout = longest_timeout cs;
  };
  filesystem = record {
    enabled = some_config (λ c. c.filesystem.enabled) cs;
    read_only = every_config (λ c. c.filesystem.read_only) cs;
    allowed_paths = union (λ c. c.filesystem.allowed_paths) cs;
    denied_paths = union (λ c. c.filesystem.denied_paths) cs;
  };
  health = record { enabled = some_config (λ c. c.health.enabled) cs };
}

pub merge_tools_configs : List ToolsConfig → ToolsConfig
unfolding merge_all
merge_tools_configs [] = default_tools_config
merge_tools_configs (c ∷ []) = c
merge_tools_configs (c ∷ d ∷ cs) = merge_all (c ∷ d ∷ cs)
