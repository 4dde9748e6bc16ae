-- ===== src/ServerBase.antt =====
-- jubatus/server/framework/server_base.cpp: a server's model is saved to a file and loaded from one, and its updates are
-- counted. The files are texts by path; whether the system opens, locks, closes and removes
-- them, how many bytes the device takes, and the time are parameters of a call.
pub mod Files
mod Tests
use jubatus.Base.{
  ℕ, ◌+◌, ◌%◌, ◌^◌, ◌≡◌, Bool, true, false, List, [], ◌∷◌, ◌++◌, Option, none, some, if◌then◌else◌,
}
use jubatus.Base.Assoc.{lookup, put, erase}
use jubatus.Base.Comp.{
  Error, runtime_error, ios_failure, Result, ok, throw, Comp, bind_result, ◌>>=◌, ◌>>◌, pure,
  require,
}
use jubatus.Base.Int.{ℤ}
use jubatus.Base.Text.{Text, codes}
use jubatus.Argv.{ServerArgv}
use jubatus.SaveLoad.{Format, Version, Server, OutFile, save_server, load_server}

-- `mixer` is the state of the mixer, which `get_mixer` may lack.
pub record Base (Model Mixer : Type 0) : Type 0 where
  pub server : Server Model
  pub mixer : Option Mixer
  pub update_count : ℕ
  pub last_saved : ℕ
  pub last_saved_path : Text
  pub last_loaded : ℕ
  pub last_loaded_path : Text
  pub files : List (Text × Text)

-- What the system answers to the calls of one `save` or `load`.
pub record Disk : Type 0 where
  pub opens : Bool
  pub locks : Bool
  pub room : ℕ
  pub closes : Bool
  pub removes : Bool

pub build_local_path : (ℤ → Text) → ServerArgv → Text → Text → Text
build_local_path show a type id =
    a.datadir
    ++ (b'/'
        ∷ (a.eth ++ (b'_' ∷ (show a.port ++ (b'_' ∷ (type ++ (b'_' ∷ (id ++ codes ".jubatus"))))))))

notify : {Mixer : Type 0} → (Mixer → Mixer) → Option Mixer → Option Mixer
notify updated none = none
notify updated (some m) = some (updated m)

-- `catch (const std::ios_base::failure&)` of `load_file_impl`
cannot_read : Result (Unit {0}) → Result (Unit {0})
cannot_read (throw ios_failure) = throw runtime_error
cannot_read r = r

module _ {Model Mixer : Type 0} where
  pub update_saved_status : Text → ℕ → Base Model Mixer → Base Model Mixer
  update_saved_status path now b = record b { last_saved = now; last_saved_path = path }

  pub update_loaded_status : Text → ℕ → Base Model Mixer → Base Model Mixer
  update_loaded_status path now b = record b { last_loaded = now; last_loaded_path = path }

  -- The counter is a uint64_t.
  pub event_model_updated : (Mixer → Mixer) → Base Model Mixer → Base Model Mixer
  unfolding notify
  event_model_updated updated b = record b {
    update_count = (b.update_count + 1) % 2 ^ 64;
    mixer = notify updated b.mixer;
  }

  pub clear : (Model → Model) → Comp (Base Model Mixer) Bool
  clear clear_model b =
      (ok true, record b { server = record b.server { model = clear_model b.server.model } })

  write_failure : Disk → Text → Comp (Base Model Mixer) Bool
  write_failure disk path b =
      (throw runtime_error, if disk.removes then record b { files = erase path b.files } else b)

  -- After `save_server`: `catch (const std::ios_base::failure&)` goes to the failure, as does a close that fails.
  finish_save : Disk → Text → ℕ → Result (Unit {0}) → Comp (Base Model Mixer) Bool
  unfolding write_failure update_saved_status
  finish_save disk path now (throw ios_failure) b = write_failure disk path b
  finish_save disk path now (throw e) b = (throw e, b)
  finish_save disk path now (ok a) b =
      if disk.closes then (ok true, update_saved_status path now b) else write_failure disk path b

-- The file that is open for writing, as what `save_server` leaves of it.
abbrev pub saved :
    {Obj Model : Type 0}
    → Format Obj Model
    → Version
    → Text
    → ℕ
    → ℕ
    → Server Model
    → Result (Unit {0}) × OutFile
saved fmt v id stamp room server =
    save_server fmt v id stamp server (record { written = []; room = room })

module _ {Obj Model Mixer : Type 0} (fmt : Format Obj Model) (v : Version) (show : ℤ → Text)
    (argv : ServerArgv) where
  -- With the file open and emptied. `stamp` and `now` are the two times that are asked for.
  save_locked : Disk → Text → Text → ℕ → ℕ → Comp (Base Model Mixer) Bool
  unfolding finish_save
  save_locked disk path id stamp now b =
      let r = saved fmt v id stamp disk.room b.server in
      finish_save disk path now r.0 (record b { files = put path r.1.written b.files })

  save_opened : Disk → Text → Text → ℕ → ℕ → Comp (Base Model Mixer) Bool
  unfolding save_locked
  save_opened disk path id stamp now b =
      if disk.locks then save_locked disk path id stamp now b else (throw runtime_error, b)

  pub save : Disk → Text → ℕ → ℕ → Comp (Base Model Mixer) Bool
  unfolding save_opened build_local_path
  save disk id stamp now b =
      let path = build_local_path show argv argv.type id in
      if disk.opens
      then save_opened disk path id stamp now (record b { files = put path [] b.files })
      else (throw runtime_error, b)

  -- `disk.closes` says that `ifs.close()` succeeds, whose failure is an exception of the stream.
  close_read : Disk → Comp (Base Model Mixer) (Unit {0})
  close_read disk = require disk.closes ios_failure

  load_stream : Disk → Text → Comp (Base Model Mixer) (Unit {0})
  unfolding close_read cannot_read
  load_stream disk bytes b =
      let r = load_server fmt v bytes b.server in
      let s = bind_result (r.0, record b { server = r.1 }) (λ _. close_read disk) in
      (cannot_read s.0, s.1)

  load_contents : Disk → Text → ℕ → Option Text → Comp (Base Model Mixer) (Unit {0})
  unfolding load_stream update_loaded_status
  load_contents disk path now none b = (throw runtime_error, b)
  load_contents disk path now (some bytes) b =
      bind_result (load_stream disk bytes b) (λ _ b'. (ok tt, update_loaded_status path now b'))

  pub load_file_impl : Disk → Text → ℕ → Comp (Base Model Mixer) (Unit {0})
  unfolding load_contents
  load_file_impl disk path now b =
      if disk.opens
      then load_contents disk path now (lookup path b.files) b
      else (throw runtime_error, b)

  pub load : Disk → Text → ℕ → Comp (Base Model Mixer) Bool
  unfolding load_file_impl build_local_path
  load disk id now = do load_file_impl disk (build_local_path show argv argv.type id) now; pure true

  pub load_file : Disk → Text → ℕ → Comp (Base Model Mixer) (Unit {0})
  unfolding load_file_impl
  load_file = load_file_impl
