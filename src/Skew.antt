-- ===== src/Skew.antt =====
-- internal/state/sqlite/skew.go: for how many rounds in a row a reference was seen at one version
-- (`reference_skew`; `kind` and `reference_key` are its primary key).
pub mod Rounds
pub mod History
use passwall_node.Prelude.{
  ℕ, ◌+◌, Bool, ◌&&◌, ◌||◌, Option, none, some, List, [], ◌∷◌, String, if◌then◌else◌, ◌==◌, str_eq,
  codes, is_blank, max_int64, plain, Version, same_version, Result, ok, err,
}

-- A row of `reference_skew`
pub record Skew : Type 0 where
  pub kind : String
  pub reference_key : String
  pub version : Version
  pub rounds : ℕ

-- `kind = ? AND reference_key = ?`
unfoldable pub is_reference : String → String → Skew → Bool
is_reference kind key s = str_eq s.kind kind && str_eq s.reference_key key

unfoldable pub find_skew : String → String → List Skew → Option Skew
find_skew kind key [] = none
find_skew kind key (s ∷ rows) = if is_reference kind key s then some s else find_skew kind key rows

-- `INSERT … ON CONFLICT(kind, reference_key) DO UPDATE SET` the version and the rounds
unfoldable pub write_skew : Skew → List Skew → List Skew
write_skew new [] = new ∷ []
write_skew new (s ∷ rows) =
    let rest = write_skew new rows in
    if is_reference new.kind new.reference_key s then new ∷ rows else s ∷ rest

unfoldable pub delete_skew : String → String → List Skew → List Skew
delete_skew kind key [] = []
delete_skew kind key (s ∷ rows) =
    let rest = delete_skew kind key rows in if is_reference kind key s then rest else s ∷ rest

-- The guard of both operations, on the reference.
unfoldable pub reference_refused : String → String → Bool
reference_refused kind key = is_blank (codes kind) || is_blank (codes key)

-- The new number of rounds.
unfoldable pub next_rounds : Version → Option Skew → Result ℕ
next_rounds version none = ok 1
next_rounds version (some current) =
    if same_version current.version version
    then (if current.rounds == max_int64 then err plain else ok (current.rounds + 1))
    else ok 1

-- `ObserveReferenceSkew`; `zero` is `version.Zero()`. An `int` has 64 bits, so that the rounds fit.
unfoldable pub observe_reference_skew :
    (Version → Bool) → String → String → Version → List Skew → List Skew × Result ℕ
observe_reference_skew zero kind key version rows =
    if reference_refused kind key || zero version
    then (rows, err plain)
    else elim (next_rounds version (find_skew kind key rows)) [
      | err e ↦ (rows, err e)
      | ok rounds ↦ (
        write_skew (record { kind = kind; reference_key = key; version = version; rounds = rounds })
            rows,
        ok rounds,
      )
    ]

-- `ClearReferenceSkew`
unfoldable pub clear_reference_skew : String → String → List Skew → List Skew × Result (Unit {0})
clear_reference_skew kind key rows =
    if reference_refused kind key then (rows, err plain) else (delete_skew kind key rows, ok tt)
