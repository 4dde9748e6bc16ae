-- ===== src/SaveLoad/Tests.antt =====
-- A model file written and read with simple codecs.
use jubatus.Base.{ℕ, ◌≡◌, ◌≢◌, refl, [], ◌∷◌, ◌++◌, arith}
use jubatus.Base.Comp.{ok, throw, runtime_error, ios_failure}
use jubatus.Base.Text.{Text, codes}
use jubatus.Samples.Codecs.{sample, sample-Endian, sample-Codec, version, version-Small}
use jubatus.SaveLoad.{Server, OutFile, load_server, container, header}
use jubatus.SaveLoad.RoundTrip.{checksum, file, system_data, user_data, load_server-file}
use jubatus.SaveLoad.Corruption.{Failed, load_server_detects, load_server_failure}

abbrev server : Server ℕ
server = record { type = codes "stat"; config = codes "{}"; user_data_version = 1; model = 42 }

abbrev idle : Server ℕ
idle = record server { model = 0 }

abbrev disk : OutFile
disk = record { written = []; room = 1000 }

abbrev name : Text
name = codes "m1"

name_ne : name ≢ []
name_ne e = cc

load_server-file_example :
    load_server sample version (file sample version sample-Endian version-Small name 7 server) idle
    ≡ (ok tt, server)
unfolding container
load_server-file_example =
    load_server-file sample version sample-Endian version-Small name 7 server idle sample-Codec
      (omega arith) (omega arith) refl refl refl

-- The last byte of the user data is 43 in place of 42.
abbrev prefix : Text
prefix = 1 ∷ 7 ∷ 4 ∷ 2 ∷ (codes "stat" ++ (codes "m1" ++ (codes "{}" ++ (1 ∷ []))))

load_server_detects_example :
    load_server sample version
      (header sample version
          (checksum sample version sample-Endian version-Small name 7 server)
          (system_data sample version sample-Endian version-Small name 7 server)
          (user_data sample version sample-Endian version-Small name 7 server)
        ++ (prefix ++ (43 ∷ [])))
      idle
    ≡ (throw runtime_error, idle)
unfolding container
load_server_detects_example =
    load_server_detects sample version sample-Endian version-Small name 7 server idle prefix [] 42
      43 (omega arith) (omega arith) (omega arith) (omega arith) (omega arith) (omega arith)
      (omega arith) refl

load_server_failure_example : Failed sample version idle (load_server sample version [] idle)
unfolding load_server
load_server_failure_example = load_server_failure sample version [] idle ios_failure refl
