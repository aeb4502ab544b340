-- ===== src/Config/Manager.antt =====
-- backend/internal/core/config/manager.go: Update and saveToFile. The settings of the service are in
-- memory and in a file, which a save replaces by a rename.
use docker_cloud_manager.Prelude.{
  ◌≡◌, refl, Bool, Option, none, some, List, [], ◌∷◌, String, if◌then◌else◌,
}
use docker_cloud_manager.AppErrors.{Err}
use docker_cloud_manager.Result.{Result, ok, err}
use docker_cloud_manager.Effect.{Effect, raise, go_on, on}
use docker_cloud_manager.Config.{SystemConfig}
use docker_cloud_manager.Config.Validation.{Numbers, validate_system_config}
use docker_cloud_manager.Config.Validation.Bounds.{IsAccepted}
use docker_cloud_manager.Config.Validation.Accepted.{validate_system_config_iff}
use docker_cloud_manager.Validation.{Texts}

-- `temporaries` are files that a save has left beside `file`.
pub record Manager (F : Type 0) : Type 0 where
  pub config : SystemConfig F
  pub file : String
  pub temporaries : List String

-- What the file system answers in one save; `remove` is `true` if os.Remove fails.
pub record Faults : Type 0 where
  pub create : Option Err
  pub write : Option Err
  pub close : Option Err
  pub chmod : Option Err
  pub rename : Option Err
  pub remove : Bool

-- `encode` is json.MarshalIndent.
module _ {F : Type 0} (encode : SystemConfig F → Result String) where
  -- `if err := call; err != nil { … }` of a call that the file system answers
  abbrev pub attempt :
      Option Err
      → (Err → Effect (Manager F) (Unit {0}))
      → Effect (Manager F) (Unit {0})
      → Effect (Manager F) (Unit {0})
  attempt none failed next = next
  attempt (some e) failed next = failed e

  -- What becomes of the temporary file after `os.Remove`
  abbrev pub discard : Bool → String → Err → Effect (Manager F) (Unit {0})
  discard fails text e m =
      (err e, record m { temporaries = if fails then text ∷ m.temporaries else m.temporaries })

  abbrev pub leave : String → Err → Effect (Manager F) (Unit {0})
  leave text e m = (err e, record m { temporaries = text ∷ m.temporaries })

  unfoldable pub write_file : Faults → Result String → Effect (Manager F) (Unit {0})
  write_file faults (err e) = raise e
  write_file faults (ok text) = attempt faults.create raise (
      attempt faults.write (discard faults.remove text) (
        attempt faults.close (discard faults.remove text) (
          attempt faults.chmod (discard faults.remove text)
            (attempt faults.rename (leave text) (λ m. (ok tt, record m { file = text }))))))

  abbrev pub save_to_file : Faults → SystemConfig F → Effect (Manager F) (Unit {0})
  unfolding write_file
  save_to_file faults cfg = write_file faults (encode cfg)

  module _ (numbers : Numbers F) (texts : Texts) where
    abbrev pub set_config : SystemConfig F → Unit {0} → Effect (Manager F) (Unit {0})
    set_config next saved m = (ok tt, record m { config = next })

    abbrev pub save_checked : Faults → SystemConfig F → Unit {0} → Effect (Manager F) (Unit {0})
    unfolding write_file
    save_checked faults next checked = on (save_to_file faults next) raise (set_config next)

    unfoldable pub update : Faults → SystemConfig F → Effect (Manager F) (Unit {0})
    unfolding validate_system_config write_file
    update faults next m =
        go_on raise (save_checked faults next) (validate_system_config numbers texts next, m)

    -- A sequence of updates; what each returns is its caller's.
    unfoldable pub update_all : List (Faults × SystemConfig F) → Manager F → Manager F
    unfolding update
    update_all [] m = m
    update_all ((faults, next) ∷ later) m = update_all later (update faults next m).1

    abbrev pub IsSaved : Manager F → Type 0
    IsSaved m = IsAccepted numbers texts m.config × (encode m.config ≡ ok m.file)

    -- What a save does: nothing to the settings, or all of it.
    abbrev Outcome : SystemConfig F → Manager F → Result (Unit {0}) × Manager F → Type 0
    Outcome next m (err e, v) = (v.config ≡ m.config) × (v.file ≡ m.file)
    Outcome next m (ok done, v) = encode next ≡ ok v.file

    attempt-holds :
        (P : Result (Unit {0}) × Manager F → Type 0) (o : Option Err)
        (failed : Err → Effect (Manager F) (Unit {0})) (next : Effect (Manager F) (Unit {0}))
        (m : Manager F)
        → ((e : Err) → P (failed e m))
        → P (next m)
        → P (attempt o failed next m)
    attempt-holds P none failed next m bad good = good
    attempt-holds P (some e) failed next m bad good = bad e

    write_file-Outcome :
        (faults : Faults) (next : SystemConfig F) (m : Manager F) (r : Result String)
        → encode next ≡ r
        → Outcome next m (write_file faults r m)
    unfolding write_file
    write_file-Outcome faults next m (err e) same = (refl, refl)
    write_file-Outcome faults next m (ok text) same =
        let lost : Err → (m.config ≡ m.config) × (m.file ≡ m.file) = λ e. (refl, refl) in
        attempt-holds (Outcome next m) faults.create _ _ m lost (
          attempt-holds (Outcome next m) faults.write _ _ m lost (
            attempt-holds (Outcome next m) faults.close _ _ m lost (
              attempt-holds (Outcome next m) faults.chmod _ _ m lost
                (attempt-holds (Outcome next m) faults.rename _ _ m lost same))))

    update-IsSaved :
        (faults : Faults) (next : SystemConfig F) (m : Manager F)
        → IsSaved m
        → IsSaved (update faults next m).1
    unfolding update
    update-IsSaved faults next m (accepted, stored) =
        checked (validate_system_config numbers texts next) refl
      where
        kept :
            (r : Result (Unit {0}) × Manager F)
            → Outcome next m r
            → IsAccepted numbers texts next
            → IsSaved (go_on raise (set_config next) r).1
        kept (err e, v) (same, file) fine = (rw same accepted, rw (same, file) stored)
        kept (ok done, v) written fine = (fine, written)

        checked :
            (r : Result (Unit {0}))
            → validate_system_config numbers texts next ≡ r
            → IsSaved (go_on raise (save_checked faults next) (r, m)).1
        checked (err e) same = (accepted, stored)
        checked (ok done) same =
            kept _ (write_file-Outcome faults next m _ refl)
              ((validate_system_config_iff numbers texts next).0 same)

    -- Settings that are accepted, and of which the file holds the text, stay so in any sequence of
    -- updates, whichever settings are offered and whichever calls of the file system fail.
    pub update_all-IsSaved :
        (updates : List (Faults × SystemConfig F)) (m : Manager F)
        → IsSaved m
        → IsSaved (update_all updates m)
    unfolding update_all
    update_all-IsSaved [] m saved = saved
    update_all-IsSaved ((faults, next) ∷ later) m saved =
        update_all-IsSaved later _ (update-IsSaved faults next m saved)
