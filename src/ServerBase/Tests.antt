-- ===== src/ServerBase/Tests.antt =====
-- A server that saves its model, and one that loads it.
use jubatus.Base.{ℕ, ◌≡◌, ◌≢◌, refl, ap, inl, true, false, [], some, arith}
use jubatus.Base.Assoc.{lookup}
use jubatus.Base.Comp.{ok, throw, runtime_error}
use jubatus.Base.Text.{Text, codes}
use jubatus.Argv.{ServerArgv}
use jubatus.SaveLoad.{container}
use jubatus.Samples.Arguments.{alone_argv}
use jubatus.Samples.Codecs.{sample, sample-Endian, sample-Codec, version, version-Small}
use jubatus.Samples.Notation.{show_int}
use jubatus.ServerBase.{
  Base, Disk, build_local_path, save, load, update_loaded_status, event_model_updated, notify,
}
use jubatus.ServerBase.Files.{Ends, Confined, save_atomic, save_empties, save-done, load-save}

abbrev argv : ServerArgv
argv = alone_argv (codes "stat")

file_name :
    build_local_path show_int argv (codes "stat") (codes "m1") ≡ codes "/tmp/h_9_stat_m1.jubatus"
unfolding build_local_path
file_name = refl

abbrev trained : Base ℕ ℕ
trained = record {
  server = record { type = codes "stat"; config = codes "{}"; user_data_version = 1; model = 42 };
  mixer = some 0;
  update_count = 0xffffffffffffffff;
  last_saved = 0;
  last_saved_path = [];
  last_loaded = 0;
  last_loaded_path = [];
  files = [];
}

-- The counter starts again, and the mixer hears of the update.
counts : (event_model_updated (λ m. m) trained).update_count ≡ 0
unfolding event_model_updated notify
counts = refl

abbrev healthy : Disk
healthy = record { opens = true; locks = true; room = 1000; closes = true; removes = true }

abbrev id : Text
id = codes "m1"

id_ne : id ≢ []
id_ne e = cc

save_atomic_example :
    let r = save sample version show_int argv (record healthy { room = 60 }) id 7 8 trained in
    Ends sample version sample-Endian version-Small show_int argv id 7 8 trained r
    × Confined sample version sample-Endian version-Small show_int argv id 7 8 trained r.1
save_atomic_example =
    save_atomic sample version sample-Endian version-Small show_int argv id 7 8 trained
      (record healthy { room = 60 }) refl refl id_ne

abbrev file_path : Text
file_path = build_local_path show_int argv (codes "stat") id

save_empties_example :
    let r = save sample version show_int argv (record healthy { locks = false }) id 7 8 trained in
    (r.0 ≡ throw runtime_error) × (lookup file_path r.1.files ≡ some [])
save_empties_example =
    save_empties sample version sample-Endian version-Small show_int argv id 7 8 trained
      (record healthy { locks = false }) refl (inl refl)

abbrev restarted : Base ℕ ℕ
restarted = record trained {
  server = record { type = codes "stat"; config = codes "{}"; user_data_version = 1; model = 0 };
  files = (save sample version show_int argv healthy id 7 8 trained).1.files;
}

saves : (save sample version show_int argv healthy id 7 8 trained).0 ≡ ok true
unfolding container
saves =
    ap (λ r. r.0)
      (save-done sample version sample-Endian version-Small show_int argv id 7 8 trained healthy
        refl refl refl id_ne (omega arith))

load-save_example : load sample version show_int argv healthy id 9 restarted ≡ (
  ok true,
  update_loaded_status file_path 9 (record restarted {
    server = record { type = codes "stat"; config = codes "{}"; user_data_version = 1; model = 42 };
  }),
)
unfolding container
load-save_example =
    load-save sample version sample-Endian version-Small show_int argv id 7 8 trained restarted
      sample-Codec healthy healthy 9 refl refl id_ne saves refl refl refl (omega arith)
      (omega arith) refl refl refl
