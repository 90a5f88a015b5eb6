-- ===== src/Share/Rules.antt =====
-- share/src/share.c: when a file that is open may be opened once more, the tables `open_actions` and
-- `open_exceptions` and their lookup in `do_open_check`.
pub mod Safety
use burdah_dos_system.Base.{
  ℕ, Bool, ◌&&◌, Option, none, some, List, [], ◌∷◌, ◌==◌, if◌then◌else◌, get_or,
}

pub record OpenActionException : Type 0 where
  pub first_sharemode : ℕ
  pub first_openmode : ℕ
  pub current_sharemode : ℕ
  pub current_openmode : ℕ
  pub action : ℕ

abbrev exception : ℕ → ℕ → ℕ → ℕ → ℕ → OpenActionException
exception fs fo cs co a = record {
  first_sharemode = fs;
  first_openmode = fo;
  current_sharemode = cs;
  current_openmode = co;
  action = a;
}

abbrev pub open_actions : List (List ℕ)
open_actions =
    (0 ∷ 1 ∷ 1 ∷ 1 ∷ 1 ∷ [])
    ∷ (2 ∷ 1 ∷ 1 ∷ 1 ∷ 1 ∷ [])
    ∷ (2 ∷ 1 ∷ 1 ∷ 1 ∷ 1 ∷ [])
    ∷ (2 ∷ 1 ∷ 1 ∷ 1 ∷ 1 ∷ [])
    ∷ (2 ∷ 1 ∷ 1 ∷ 1 ∷ 0 ∷ [])
    ∷ []

abbrev pub open_exceptions : List OpenActionException
open_exceptions =
    exception 0 0 2 0 3
    ∷ exception 0 0 4 0 3
    ∷ exception 2 0 0 0 4
    ∷ exception 2 0 2 0 0
    ∷ exception 2 0 4 0 0
    ∷ exception 3 0 2 1 0
    ∷ exception 3 0 4 1 0
    ∷ exception 3 1 4 1 0
    ∷ exception 3 2 4 1 0
    ∷ exception 4 0 0 0 4
    ∷ exception 4 0 0 1 0
    ∷ exception 4 0 0 2 0
    ∷ exception 4 0 2 0 0
    ∷ exception 4 0 2 1 0
    ∷ exception 4 0 2 2 0
    ∷ exception 4 1 3 0 0
    ∷ exception 4 1 3 1 0
    ∷ exception 4 1 3 2 0
    ∷ []

-- The inner loop of `do_open_check`.
unfoldable pub find_exception :
    List OpenActionException → (first_share first_open share mode : ℕ) → Option ℕ
find_exception [] fs fo cs co = none
find_exception (e ∷ es) fs fo cs co =
    if e.first_sharemode == fs
      && e.current_sharemode == cs
      && e.first_openmode == fo
      && e.current_openmode == co
    then some e.action
    else find_exception es fs fo cs co

unfoldable pub open_action : (first_share first_open share mode : ℕ) → ℕ
unfolding find_exception
open_action fs fo cs co = elim (find_exception open_exceptions fs fo cs co) [
  | some a ↦ a
  | none ↦ get_or (get_or open_actions fs []) cs 0
]

-- How the `switch (action)` goes on: actions 3 and 4 fall through to 0.
pub data Verdict : Type 0 where
  proceed access_denied sharing_violation : Verdict

unfoldable pub verdict : ℕ → Verdict
verdict action =
    if action == 1 then access_denied else if action == 2 then sharing_violation else proceed
