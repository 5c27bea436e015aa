-- ===== src/Manager/Names.antt =====
-- app/core/vault_manager.py: the codes of vaults and the paths of their files, as functions of
-- the environment and the files.
use pgsentinel_mcp.Base.{
  zero, suc, ℕ, Text, Bool, true, false, not, ◌&&◌, ◌||◌, any, Option, none, some, List, [], ◌∷◌,
  ◌++◌, map, lit, eqb, length, keep, strip, lower, is_alnum, is_empty, if◌then◌else◌, is_some,
  starts_with, has_char, ◌==◌, find, contains, ltb, suc,
}
use pgsentinel_mcp.Base.Result.{Result, ok, err}
use pgsentinel_mcp.Base.Dict.{Dict, lookup}
use pgsentinel_mcp.Vault.Store.{File, text, Fault, code_length}

-- The environment variables that the manager reads, with their defaults.
pub record Env : Type 0 where
  -- PGSENTINEL_VAULT and PGSENTINEL_VAULT_DIR
  pub vault_path : Text
  pub vault_dir : Text
  -- PGSENTINEL_ACTIVE_VAULT_FILE and PGSENTINEL_VAULT_MARKER
  pub active_vault_file : Text
  pub vault_marker : Text
  -- PGSENTINEL_MASTER_PASSWORD and PGSENTINEL_MASTER_PASSWORD_FILE
  pub master_password : Text
  pub master_password_file : Text

abbrev default_vault_code : Text
default_vault_code = lit "default1"

-- "".join(ch for ch in name.strip().lower() if ch.isalnum())
unfoldable pub clean_name : Text → Text
clean_name name = keep is_alnum (lower (strip name))

-- `_normalize_vault_name`, strict: a code has eight characters.
unfoldable pub normalize_vault_name : Text → Result Fault Text
normalize_vault_name name =
    if eqb (length (clean_name name)) 8 then ok (clean_name name) else err code_length

-- `_get_vault_dir`
abbrev pub non_empty : Text → Option Text
non_empty [] = none
non_empty (c ∷ s) = some (c ∷ s)

unfoldable pub get_vault_dir : Env → Option Text
get_vault_dir env = non_empty (strip env.vault_dir)

abbrev or_else : Option Text → Text → Text
or_else none t = t
or_else (some s) t = s

abbrev pub slash : Text → Text → Text
slash dir name = dir ++ (b'/' ∷ name)

-- os.path.dirname, of a path that does not end in a run of slashes
unfoldable pub dirname : Text → Text
dirname [] = []
dirname (c ∷ s) = let rest = dirname s in if not (has_char b'/' s) then [] else c ∷ rest

-- `_vault_path_for_name` in a directory of vaults
abbrev pub path_in : Text → Text → Text
path_in dir name =
    slash dir (or_else (non_empty (clean_name name)) default_vault_code ++ lit ".vault.enc")

unfoldable pub vault_path_for_name : Env → Text → Text
vault_path_for_name env name = elim (get_vault_dir env) [
  | none ↦ env.vault_path
  | some dir ↦ path_in dir name
]

-- `_active_vault_file` in a directory of vaults
abbrev pub active_file_in : Env → Text → Text
active_file_in env dir =
    or_else (non_empty (strip env.active_vault_file)) (slash dir (lit ".active_vault"))

abbrev file_text : Option File → Text
file_text (some (text t)) = t
file_text _ = []

-- `_read_active_vault_name` in a directory of vaults. A file that is missing reads as an empty one.
unfoldable pub read_active_vault_name : Env → Text → Dict File → Option Text
read_active_vault_name env dir disk =
    non_empty (clean_name (strip (file_text (lookup (active_file_in env dir) disk))))

-- `_resolve_current_vault_path`
unfoldable pub resolve_current_vault_path : Env → Dict File → Text
resolve_current_vault_path env disk = elim (get_vault_dir env) [
  | none ↦ env.vault_path
  | some dir ↦
      vault_path_for_name env (or_else (read_active_vault_name env dir disk) default_vault_code)
]

-- `_master_password_from_env_or_file`
unfoldable pub master_password_from_env_or_file : Env → Dict File → Text
master_password_from_env_or_file env disk = or_else (non_empty (strip env.master_password)) (
    if is_empty (strip env.master_password_file)
    then []
    else strip (file_text (lookup (strip env.master_password_file) disk)))

abbrev pub suffix : Text
suffix = lit ".vault.enc"

-- The name of a file `<name>.vault.enc` without its suffix.
unfoldable pub strip_suffix : Text → Option Text
strip_suffix [] = none
strip_suffix (c ∷ s) =
    let rest = strip_suffix s in
    if (c ∷ s) == suffix then some [] else elim rest [ none ↦ none | some t ↦ some (c ∷ t) ]

unfoldable pub strip_prefix : Text → Text → Option Text
strip_prefix [] s = some s
strip_prefix (p ∷ ps) [] = none
strip_prefix (p ∷ ps) (c ∷ s) = if eqb p c then strip_prefix ps s else none

-- The code of a file of a directory that matches "*.vault.enc".
unfoldable pub code_in : Text → Text → Option Text
code_in dir path = elim (strip_prefix (slash dir []) path) [
  | none ↦ none
  | some name ↦ if has_char b'/' name then none else strip_suffix name
]

unfoldable pub less : Text → Text → Bool
less [] [] = false
less [] (b ∷ t) = true
less (a ∷ s) [] = false
less (a ∷ s) (b ∷ t) = if ltb a b then true else eqb a b && less s t

-- The names of files are compared with their suffix.
unfoldable pub insort : Text → List Text → List Text
insort a [] = a ∷ []
insort a (b ∷ bs) = if less (b ++ suffix) (a ++ suffix) then b ∷ insort a bs else a ∷ b ∷ bs

-- sorted(vault_dir.glob("*.vault.enc")), as the codes
unfoldable pub codes_in : Text → Dict File → List Text
codes_in dir [] = []
codes_in dir ((path, f) ∷ disk) =
    let rest = codes_in dir disk in
    elim (code_in dir path) [ none ↦ rest | some code ↦ insort code rest ]

abbrev unique : List Text → List Text → List Text
unique seen [] = []
unique seen (p ∷ ps) =
    let new = p ∷ unique (p ∷ seen) ps in
    let old = unique seen ps in if contains seen p then old else new

-- `_vault_search_dirs`
unfoldable pub vault_search_dirs : Env → List Text
vault_search_dirs env =
    let others : List Text =
      slash (dirname env.vault_path) (lit "vaults") ∷ lit "/secure/pgsentinel/vaults" ∷ [] in
    elim (get_vault_dir env) [ none ↦ unique [] others | some dir ↦ unique [] (dir ∷ others) ]

-- `_vault_search_files`
unfoldable pub vault_search_files : Env → List Text
vault_search_files env =
    let parent : Text = dirname env.vault_path in
    unique [] (
      env.vault_path
      ∷ slash parent (lit ".vault_initialized")
      ∷ slash (slash parent (lit "vaults")) (lit ".vault_initialized")
      ∷ lit "/secure/pgsentinel/.vault_initialized"
      ∷ lit "/secure/pgsentinel/vaults/.vault_initialized"
      ∷ [])

abbrev no_codes : List Text → Bool
no_codes [] = true
no_codes (c ∷ cs) = false

-- `_discover_existing_vault_dir`
unfoldable pub discover_existing_vault_dir : Env → Dict File → Option Text
discover_existing_vault_dir env disk =
    find (λ dir. not (no_codes (codes_in dir disk))) (vault_search_dirs env)

-- `any_vault_files_exist`
unfoldable pub any_vault_files_exist : Env → Dict File → Bool
any_vault_files_exist env disk =
    any
      (λ dir.
        not (no_codes (codes_in dir disk))
        || is_some (lookup (slash dir (lit ".vault_initialized")) disk))
      (vault_search_dirs env)
    || any (λ path. is_some (lookup path disk)) (vault_search_files env)

pub record VaultItem : Type 0 where
  pub name : Text
  pub path : Text
  pub active : Bool
  pub exists : Bool

abbrev file_name : Text → Text
file_name [] = []
file_name (c ∷ s) = let rest = file_name s in if has_char b'/' (c ∷ s) then rest else c ∷ s

abbrev up_to_last_dot : Text → Text
up_to_last_dot [] = []
up_to_last_dot (c ∷ s) = let rest = up_to_last_dot s in if has_char b'.' s then c ∷ rest else []

-- Path.stem, of a name that does not begin with its only dot
abbrev stem : Text → Text
stem name = if has_char b'.' name then up_to_last_dot name else name

-- s.replace(".vault", ""), while some characters of a match are still to be passed over
abbrev without_vault : ℕ → Text → Text
without_vault k [] = []
without_vault (suc k) (c ∷ s) = without_vault k s
without_vault zero (c ∷ s) =
    let skip = without_vault 5 s in
    let go = c ∷ without_vault 0 s in if starts_with (c ∷ s) (lit ".vault") then skip else go

-- `get_active_vault_name`
unfoldable pub get_active_vault_name : Env → Dict File → Text
get_active_vault_name env disk = elim (get_vault_dir env) [
  | none ↦ without_vault 0 (stem (file_name (resolve_current_vault_path env disk)))
  | some dir ↦ or_else (read_active_vault_name env dir disk) default_vault_code
]

-- `_vault_stat_item`; the size and the date of a file are left out.
abbrev stat_item : Dict File → Text → Text → Bool → VaultItem
stat_item disk name path active = record {
  name = name;
  path = path;
  active = active;
  exists = is_some (lookup path disk);
}

abbrev items_or_active : Env → Dict File → Text → Text → List Text → List VaultItem
items_or_active env disk dir active [] =
    stat_item disk active (vault_path_for_name env active) true ∷ []
items_or_active env disk dir active (c ∷ cs) =
    map (λ name. stat_item disk name (slash dir (name ++ suffix)) (name == active)) (c ∷ cs)

abbrev list_dir : Env → Dict File → Text → List VaultItem
list_dir env disk dir =
    items_or_active env disk dir (get_active_vault_name env disk) (codes_in dir disk)

-- `list_vaults`
unfoldable pub list_vaults : Env → Dict File → List VaultItem
list_vaults env disk = elim (get_vault_dir env) [
  | some dir ↦ list_dir env disk dir
  | none ↦ elim (discover_existing_vault_dir env disk) [
    | some dir ↦ list_dir env disk dir
    | none ↦ stat_item disk (lit "default") (resolve_current_vault_path env disk) true ∷ []
  ]
]
