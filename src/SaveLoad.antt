-- ===== src/SaveLoad.antt =====
-- jubatus/server/framework/save_load.cpp: the model file. A header of 48 bytes, the system data and
-- the user data follow one another; a checksum covers all but itself. msgpack, the big-endian codec
-- and the driver of the jubatus core are the parameter `Format`; the version numbers come from the
-- build.
pub mod Layout
pub mod RoundTrip
pub mod Full
pub mod Corruption
mod Tests
use jubatus.Base.{
  ℕ, zero, suc, ◌+◌, ◌-◌, ◌≡◌, Bool, true, false, ◌&&◌, not, List, [], ◌∷◌, ◌++◌, length, take,
  drop, ltb, leb, ◌==◌, if◌then◌else◌,
}
use jubatus.Base.Comp.{
  Error, runtime_error, ios_failure, type_error, Result, ok, throw, Comp, bind_result, ◌>>=◌, ◌>>◌,
  pure, require,
}
use jubatus.Base.Text.{Text, codes, text_eq}
use jubatus.Crc32.{calc_crc32}

pub record SystemData : Type 0 where
  pub version : ℕ
  pub timestamp : ℕ
  pub type : Text
  pub id : Text
  pub config : Text

-- What the file format rests on outside this repository: the codecs, and the driver's own.
pub record Format (Obj Model : Type 0) : Type 0 where
  pub be32 : ℕ → Text
  pub be64 : ℕ → Text
  pub read32 : Text → ℕ
  pub read64 : Text → ℕ
  pub pack_system : SystemData → Text
  pub unpack_system : Text → Result SystemData
  pub pack_user : ℕ → Model → Text
  pub unpack_user : Text → Result (List Obj)
  pub convert_version : Obj → Result ℕ
  pub driver_unpack : Obj → Model → Result (Unit {0}) × Model

pub record Version : Type 0 where
  pub major : ℕ
  pub minor : ℕ
  pub maintenance : ℕ

pub record Server (Model : Type 0) : Type 0 where
  pub type : Text
  pub config : Text
  pub user_data_version : ℕ
  pub model : Model

-- A file open for writing: what it holds, and how many bytes more the device takes.
pub record OutFile : Type 0 where
  pub written : Text
  pub room : ℕ

abbrev pub magic_number : Text
magic_number = codes "jubatus" ++ (0 ∷ [])

abbrev pub format_version : ℕ
format_version = 1

abbrev pub system_data_container_version : ℕ
system_data_container_version = 1

abbrev pub slice : ℕ → ℕ → Text → Text
slice offset n s = take n (drop offset s)

pub file_crc32 : Text → Text → Text → ℕ
file_crc32 header system_data user_data =
    calc_crc32 user_data
      (calc_crc32 system_data (calc_crc32 (slice 32 16 header) (calc_crc32 (take 28 header) 0)))

pub fwrite_helper : Text → Comp OutFile Bool
fwrite_helper buffer fp =
    if leb (length buffer) fp.room
    then (ok true, record fp { written = fp.written ++ buffer; room = fp.room - length buffer })
    else (ok false, record fp { written = fp.written ++ take fp.room buffer; room = 0 })

pub is_read : ℕ → Comp Text Text
is_read n is = if leb n (length is) then (ok (take n is), drop n is) else (throw ios_failure, [])

-- `catch (const msgpack::type_error&) { throw runtime_error }`
retype : Error → Error
retype type_error = runtime_error
retype e = e

catch_type_error : {A S : Type 0} → Result A × S → Result A × S
catch_type_error (ok a, s) = (ok a, s)
catch_type_error (throw e, s) = (throw (retype e), s)

module _ {Obj Model : Type 0} (fmt : Format Obj Model) (v : Version) where
  unfoldable pub container : Server Model → Text → ℕ → SystemData
  container server id now = record {
    version = system_data_container_version;
    timestamp = now;
    type = server.type;
    id = id;
    config = server.config;
  }

  -- `header_buf` with the checksum `crc` in place.
  pub header : ℕ → Text → Text → Text
  header crc system_data user_data =
      magic_number
      ++ (fmt.be64 format_version
          ++ (fmt.be32 v.major
              ++ (fmt.be32 v.minor
                  ++ (fmt.be32 v.maintenance
                      ++ (fmt.be32 crc
                          ++ (fmt.be64 (length system_data) ++ fmt.be64 (length user_data)))))))

  -- The checksum skips its own four bytes, so it does not matter what they hold before.
  pub save_server : Text → ℕ → Server Model → Comp OutFile (Unit {0})
  unfolding container header
  save_server id now server = do
    require (not (text_eq id [])) runtime_error
    let system_data = fmt.pack_system (container server id now)
    let user_data = fmt.pack_user server.user_data_version server.model
    let crc = file_crc32 (header 0 system_data user_data) system_data user_data
    a ← fwrite_helper (header crc system_data user_data)
    require a ios_failure
    b ← fwrite_helper system_data
    require b ios_failure
    c ← fwrite_helper user_data
    require c ios_failure

  check_versions : Text → Bool
  check_versions h =
      (fmt.read32 (slice 16 4 h) == v.major)
      && ((fmt.read32 (slice 20 4 h) == v.minor) && (fmt.read32 (slice 24 4 h) == v.maintenance))

  -- The part of `load_server` that reads the stream: it returns the two blocks of data.
  pub read_file : Comp Text (Text × Text)
  unfolding is_read check_versions
  read_file = do
    h ← is_read 48
    require (text_eq (take 8 h) magic_number) runtime_error
    require (fmt.read64 (slice 8 8 h) == format_version) runtime_error
    require (check_versions h) runtime_error
    system_data ← is_read (fmt.read64 (slice 32 8 h))
    user_data ← is_read (fmt.read64 (slice 40 8 h))
    require (file_crc32 h system_data user_data == fmt.read32 (slice 28 4 h)) runtime_error
    pure (system_data, user_data)

  lift_result : {A : Type 0} → Result A → Comp (Server Model) A
  lift_result r server = (r, server)

  compare_system : SystemData → Comp (Server Model) (Unit {0})
  compare_system d server =
      (do
        require (d.version == system_data_container_version) runtime_error
        require (text_eq d.type server.type) runtime_error
        require (text_eq d.config server.config) runtime_error)
        server

  pub check_system : Text → Comp (Server Model) (Unit {0})
  unfolding lift_result catch_type_error compare_system
  check_system system_data = do
    d ← λ s. catch_type_error (lift_result (fmt.unpack_system system_data) s)
    compare_system d

  unpack_into : Obj → Comp (Server Model) (Unit {0})
  unpack_into o server =
      let r = fmt.driver_unpack o server.model in (r.0, record server { model = r.1 })

  pub load_objects : List Obj → Comp (Server Model) (Unit {0})
  unfolding lift_result unpack_into
  load_objects (o ∷ p ∷ []) server =
      (do
        version ← lift_result (fmt.convert_version o)
        require (version == server.user_data_version) runtime_error
        unpack_into p)
        server
  load_objects other server = require false runtime_error server

  pub load_user : Text → Comp (Server Model) (Unit {0})
  unfolding lift_result load_objects catch_type_error
  load_user user_data server =
      catch_type_error
        ((do objs ← lift_result (fmt.unpack_user user_data); load_objects objs) server)

  -- `load_server` on the bytes of the stream.
  pub load_server : Text → Comp (Server Model) (Unit {0})
  unfolding read_file check_system load_user
  load_server is = do
    blocks ← lift_result (read_file is).0
    check_system blocks.0
    load_user blocks.1
