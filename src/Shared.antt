-- ===== src/Shared.antt =====
-- shared/types.go, shared/config.go: the configuration of a vault, and its reading. The files and what
-- the package yaml makes of a text are arguments, and may be others at each try. A path that names a
-- directory has no slash at its end.
use pricefeeding.Prelude.{
  if◌then◌else◌, ℕ, zero, suc, ◌+◌, ◌≡◌, refl, ap, ◌∙◌, ◌⊎◌, inl, inr, Bool, true, List, [], ◌∷◌,
  ◌++◌, Option, none, some, arith,
}
use native.Mathlib.Numerals.{add-one}
use pricefeeding.Prelude.Int.{ℤ, pos}
use pricefeeding.Prelude.Key.{GoString, bytes}

pub record Configuration : Type 0 where
  pub port : ℤ
  pub secret_hash : GoString
  pub db_conn : GoString
  pub db_conn_pool : ℤ
  pub arbitrum_urls : List GoString
  pub ethereum_urls : List GoString

pub data ConfigError : Type 0 where
  file_not_found yaml_failed no_port no_secret_hash no_db_conn no_db_conn_pool : ConfigError
  no_arbitrum_urls no_ethereum_urls : ConfigError

pub data Result : Type 0 where
  ok : Configuration → Result
  err : ConfigError → Result

-- The file system, and `yaml.Unmarshal`.
pub record Files : Type 0 where
  pub is_dir : GoString → Bool
  pub read_file : GoString → Option GoString
  pub unmarshal : GoString → Option Configuration

unfoldable pub is_zero : ℤ → Bool
is_zero (pos zero) = true
is_zero n = Bool.false

unfoldable pub is_empty : {A : Type 0} → List A → Bool
is_empty [] = true
is_empty (x ∷ l) = Bool.false

-- The tests for required fields.
unfoldable pub check_fields : Configuration → Result
unfolding is_zero is_empty
check_fields c =
    if is_zero c.port
    then err no_port
    else if is_empty c.secret_hash
    then err no_secret_hash
    else if is_empty c.db_conn
    then err no_db_conn
    else if is_zero c.db_conn_pool
    then err no_db_conn_pool
    else if is_empty c.arbitrum_urls
    then err no_arbitrum_urls
    else if is_empty c.ethereum_urls
    then err no_ethereum_urls
    else ok c

unfoldable pub read_config : Files → GoString → Result
unfolding check_fields
read_config files path =
    let file = if files.is_dir path then path ++ bytes "/vault_config.yaml" else path in
    elim (files.read_file file) [
      | none ↦ err file_not_found
      | some content ↦ elim (files.unmarshal content) [
        | none ↦ err yaml_failed
        | some c ↦ check_fields c
      ]
    ]

-- The loop of `LoadYamlConf` from the try `at` on, with fuel: `none` says that it goes on. The inner
-- `config` is another variable than `outer`, which is returned.
unfoldable pub load_loop :
    (ℕ → Files) → GoString → ℕ → ℕ → Option Configuration → Option (Option Configuration)
load_loop files path zero at outer = none
load_loop files path (suc fuel) at outer = elim (read_config (files at) path) [
  | err e ↦ load_loop files path fuel (at + 1) outer
  | ok config ↦ some outer
]

-- `var config *Configuration` is nil.
unfoldable pub load_yaml_conf : (ℕ → Files) → GoString → ℕ → Option (Option Configuration)
unfolding load_loop
load_yaml_conf files path fuel = load_loop files path fuel 0 none

Result-cases : (r : Result) → ((c : Configuration) × (r ≡ ok c)) ⊎ ((e : ConfigError) × (r ≡ err e))
Result-cases (ok c) = inl (c, refl)
Result-cases (err e) = inr (e, refl)

load_loop-outer :
    (files : ℕ → Files) (path : GoString) (n at k : ℕ) (outer : Option Configuration)
    (c : Configuration)
    → at + n ≡ k
    → read_config (files k) path ≡ ok c
    → load_loop files path (suc n) at outer ≡ some outer
unfolding load_loop
load_loop-outer files path zero at k outer c h r =
    let e : at ≡ k = omega arith in rw (ap (λ i. read_config (files i) path) e ∙ r, load_loop) refl
load_loop-outer files path (suc n) at k outer c h r =
    elim (Result-cases (read_config (files at) path)) [
      | inl (d, e) ↦ rw (e, load_loop) refl
      | inr (x, e) ↦
          rw (e, load_loop) (load_loop-outer files path n (at + 1) k outer c (omega arith) r)
    ]

-- `LoadYamlConf` returns by the try `n` where the file is read and complete at that try, and what it
-- returns is nil, whatever configuration was read.
pub load_yaml_conf-nil :
    (files : ℕ → Files) (path : GoString) (n : ℕ) (c : Configuration)
    → read_config (files n) path ≡ ok c
    → load_yaml_conf files path (n + 1) ≡ some none
unfolding load_yaml_conf
load_yaml_conf-nil files path n c r =
    rw (add-one n) (load_loop-outer files path n 0 n none c (omega arith) r)
