-- ===== src/SaveLoad/Full.antt =====
-- `save_server` on a device that fills up, or without an id.
use jubatus.Base.{ℕ, ◌+◌, ◌-◌, ◌≡◌, ◌≢◌, ◌<◌, refl, false, [], ◌++◌, length, take, dec_lt, arith}
use jubatus.Base.Comp.{ok, throw, runtime_error, ios_failure}
use jubatus.Base.Text.{Text, text_eq}
use jubatus.SaveLoad.{Format, Version, Server, OutFile, header, save_server, fwrite_helper}
use jubatus.SaveLoad.Layout.{Endian, length-header}
use jubatus.SaveLoad.RoundTrip.{Small, fwrite_fits, not_empty, system_data, user_data, checksum}

fwrite_full :
    (b : Text) (fp : OutFile)
    → fp.room < length b
    → fwrite_helper b fp
      ≡ (ok false, record fp { written = fp.written ++ take fp.room b; room = 0 })
unfolding fwrite_helper
fwrite_full b fp h = ground arith

module _ {Obj Model : Type 0} (fmt : Format Obj Model) (v : Version) (en : Endian fmt)
    (small : Small v) (id : Text) (now : ℕ) (server : Server Model) where
  -- With no id nothing is written.
  pub save_server-no_id :
      (fp : OutFile) → id ≡ [] → save_server fmt v id now server fp ≡ (throw runtime_error, fp)
  unfolding save_server text_eq
  save_server-no_id fp e = rw e refl

  abbrev pub system_block : Text
  system_block = system_data fmt v en small id now server

  abbrev pub user_block : Text
  user_block = user_data fmt v en small id now server

  -- Without room for the header and both blocks, the stream fails.
  pub save_server-full :
      (fp : OutFile)
      → id ≢ []
      → fp.room < 48 + length system_block + length user_block
      → (save_server fmt v id now server fp).0 ≡ throw ios_failure
  unfolding save_server
  save_server-full fp ne full =
      let head = header fmt v (checksum fmt v en small id now server) system_block user_block in
      let n =
        length-header fmt v en (checksum fmt v en small id now server) system_block user_block in
      let fp1 : OutFile = record fp {
        written = fp.written ++ head;
        room = fp.room - length head;
      } in
      let fp2 : OutFile = record fp1 {
        written = fp1.written ++ system_block;
        room = fp1.room - length system_block;
      } in
      rw (not_empty id ne) (elim (dec_lt fp.room (length head)) [
        | yes a ↦ rw (fwrite_full head fp a) refl
        | no a ↦
            rw (fwrite_fits head fp (omega arith)) (elim (dec_lt fp1.room (length system_block)) [
              | yes c ↦ rw (fwrite_full system_block fp1 c) refl
              | no c ↦
                  rw
                    (
                      fwrite_fits system_block fp1 (omega arith),
                      fwrite_full user_block fp2 (omega (arith, n)),
                    )
                    refl
            ])
      ])
